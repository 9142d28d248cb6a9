-- ===== src/Anchoring/Merkle.antt =====
-- app/services/anchoring/merkle.py: the tree over a batch of leaves, inclusion proofs and their
-- check. A hash is a text of 32 bytes. The memo of subtree roots is left out: a subtree's root
-- depends on the leaves only. A `ProofStep` can name no third side, so the test for one is left out.
pub mod Splits
pub mod Proofs
pub mod Binding
use vekro_backend.Base.{
  ℕ, zero, suc, ◌+◌, ◌-◌, ◌/◌, ◌^◌, ◌≡◌, ◌==◌, ltb, Bool, true, false, not, ◌&&◌, Option, none,
  some, List, [], ◌∷◌, ◌++◌, length, text_eq, Text, if◌then◌else◌,
}

abbrev pub hash_size : ℕ
hash_size = 32

-- keccak256 of the package pycryptodome, on the parts of its input put together.
pub record Keccak : Type 0 where
  pub digest : Text → Text
  pub digest_size : (input : Text) → length (digest input) ≡ hash_size

-- NODE_PREFIX
abbrev pub node_prefix : Text
node_prefix = 1 ∷ []

pub data Side : Type 0 where
  left right : Side

pub record ProofStep : Type 0 where
  pub sibling : Text
  pub side : Side

-- `int.bit_length`, counting by halves; as many halves as the number itself are enough.
unfoldable pub bits : ℕ → ℕ → ℕ
bits zero n = 0
bits (suc fuel) n = elim (n == 0) [ true ↦ 0 | false ↦ suc (bits fuel (n / 2)) ]

abbrev pub bit_length : ℕ → ℕ
bit_length n = bits n n

-- `split_point`, of two leaves or more.
unfoldable pub split_point : ℕ → ℕ
unfolding bits
split_point size = 2 ^ (bit_length (size - 1) - 1)

-- `leaves[i]`; the calls keep the index within bounds.
abbrev pub leaf_at : List Text → ℕ → Text
leaf_at [] i = []
leaf_at (x ∷ xs) zero = x
leaf_at (x ∷ xs) (suc i) = leaf_at xs i

-- `proof_sides`, from the leaf upwards: the loop walks down from the root and puts each side in
-- front of the ones above it, which is to append and reverse in the end.
unfoldable pub sides_down : ℕ → ℕ → ℕ → ℕ → List Side → List Side
unfolding split_point
sides_down zero index start end sides = sides
sides_down (suc fuel) index start end sides = elim (ltb 1 (end - start)) [
  | false ↦ sides
  | true ↦ elim (ltb index (start + split_point (end - start))) [
    | true ↦ sides_down fuel index start (start + split_point (end - start)) (right ∷ sides)
    | false ↦ sides_down fuel index (start + split_point (end - start)) end (left ∷ sides)
  ]
]

-- `proof_sides`; `none` is IndexError.
unfoldable pub proof_sides : ℕ → ℕ → Option (List Side)
unfolding sides_down
proof_sides index size = if ltb index size then some (sides_down size index 0 size []) else none

abbrev pub same_side : Side → Side → Bool
same_side left left = true
same_side right right = true
same_side _ _ = false

-- `[step.side for step in proof] == sides`
unfoldable pub has_sides : List ProofStep → List Side → Bool
has_sides [] [] = true
has_sides (step ∷ proof) (side ∷ sides) = same_side step.side side && has_sides proof sides
has_sides _ _ = false

module _ (keccak : Keccak) where
  unfoldable pub node_hash : Text → Text → Text
  node_hash a b = keccak.digest (node_prefix ++ (a ++ b))

  -- `_subtree_root`
  unfoldable pub subtree_root : ℕ → List Text → ℕ → ℕ → Text
  unfolding split_point node_hash
  subtree_root zero leaves start end = leaf_at leaves start
  subtree_root (suc fuel) leaves start end = elim (end - start == 1) [
    | true ↦ leaf_at leaves start
    | false ↦
        node_hash (subtree_root fuel leaves start (start + split_point (end - start)))
          (subtree_root fuel leaves (start + split_point (end - start)) end)
  ]

  -- `root`
  unfoldable pub merkle_root : List Text → Text
  unfolding subtree_root
  merkle_root leaves = subtree_root (length leaves) leaves 0 (length leaves)

  -- The loop of `proof`, like that of `proof_sides`.
  unfoldable pub proof_down : ℕ → List Text → ℕ → ℕ → ℕ → List ProofStep → List ProofStep
  unfolding split_point subtree_root
  proof_down zero leaves index start end steps = steps
  proof_down (suc fuel) leaves index start end steps = elim (ltb 1 (end - start)) [
    | false ↦ steps
    | true ↦
        let mid = start + split_point (end - start) in
        elim (ltb index mid) [
          | true ↦
              proof_down fuel leaves index start mid
                (record { sibling = subtree_root (end - mid) leaves mid end; side = right } ∷ steps)
          | false ↦ proof_down fuel leaves index mid end (
              record { sibling = subtree_root (mid - start) leaves start mid; side = left } ∷ steps)
        ]
  ]

  -- `proof`; `none` is IndexError.
  unfoldable pub proof_of : List Text → ℕ → Option (List ProofStep)
  unfolding proof_down
  proof_of leaves index =
      if ltb index (length leaves)
      then some (proof_down (length leaves) leaves index 0 (length leaves) [])
      else none

  -- The running hash joined with its sibling, by the side that the sibling is on.
  abbrev pub joined : Side → Text → Text → Text
  joined left sibling running = node_hash sibling running
  joined right sibling running = node_hash running sibling

  -- One turn of the loop of `root_from_proof`; `none` is ValueError.
  unfoldable pub climb : ProofStep → Option Text → Option Text
  unfolding node_hash
  climb step none = none
  climb step (some running) =
      if length step.sibling == hash_size
      then some (joined step.side step.sibling running)
      else none

  unfoldable pub root_from : Option Text → List ProofStep → Option Text
  unfolding climb
  root_from running [] = running
  root_from running (step ∷ proof) = root_from (climb step running) proof

  abbrev pub root_from_proof : Text → List ProofStep → Option Text
  root_from_proof leaf proof = root_from (some leaf) proof

  abbrev pub is_root : Text → Option Text → Bool
  is_root root none = false
  is_root root (some r) = text_eq r root

  -- `verify_inclusion` with an index and a size.
  unfoldable pub verify_inclusion : Text → List ProofStep → Text → ℕ → ℕ → Bool
  unfolding proof_sides has_sides root_from text_eq
  verify_inclusion leaf proof root index size = elim (proof_sides index size) [
    | none ↦ false
    | some sides ↦
        if has_sides proof sides then is_root root (root_from_proof leaf proof) else false
  ]

-- The tests of `MerkleTree.__init__`: some leaves, each of 32 bytes.
unfoldable pub valid_leaves : List Text → Bool
valid_leaves [] = false
valid_leaves (leaf ∷ []) = length leaf == hash_size
valid_leaves (leaf ∷ leaves) = length leaf == hash_size && valid_leaves leaves
