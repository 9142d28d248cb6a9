-- ===== src/Anchoring/Merkle/Proofs.antt =====
-- The proof that a tree gives for a leaf is accepted.
use vekro_backend.Base.{
  ℕ, zero, suc, ◌+◌, ◌-◌, ◌≤◌, ◌<◌, ◌≡◌, ◌==◌, ltb, refl, sym, ap, ◌∙◌, arith, inl, inr, Bool-cases,
  true, false, some, List, [], ◌∷◌, length, Text, ltb→lt, text_eq_refl,
}
use vekro_backend.Anchoring.Merkle.{
  Keccak, hash_size, Side, left, right, ProofStep, split_point, leaf_at, sides_down, proof_sides,
  has_sides, same_side, node_hash, subtree_root, merkle_root, proof_down, proof_of, climb, joined,
  root_from, verify_inclusion,
}
use vekro_backend.Anchoring.Merkle.Splits.{split_largest}

-- Each leaf is a hash.
abbrev pub AreHashes : List Text → Type 0
AreHashes leaves = (i : ℕ) → i < length leaves → length (leaf_at leaves i) ≡ hash_size

-- A range of two leaves or more splits inside.
pub splits_inside :
    (start end : ℕ)
    → ltb 1 (end - start) ≡ true
    → (start < start + split_point (end - start)) × (start + split_point (end - start) < end)
splits_inside start end h =
    let (_, low, high, _) = split_largest (end - start) (ltb→lt 1 (end - start) h) in
    let wide : 1 < end - start = ltb→lt 1 (end - start) h in (omega arith, omega arith)

sides_of : List ProofStep → List Side
sides_of [] = []
sides_of (step ∷ proof) = step.side ∷ sides_of proof

own_side : (side : Side) → same_side side side ≡ true
own_side left = refl
own_side right = refl

has_own_sides : (proof : List ProofStep) → has_sides proof (sides_of proof) ≡ true
unfolding has_sides sides_of
has_own_sides [] = refl
has_own_sides (step ∷ proof) = rw (own_side step.side) (has_own_sides proof)

pub not_wide : (start end : ℕ) → start < end → ltb 1 (end - start) ≡ false → end ≡ start + 1
not_wide start end h one = ground arith

is_wide : (start end : ℕ) → ltb 1 (end - start) ≡ true → (end - start == 1) ≡ false
is_wide start end h = ground arith

module _ (keccak : Keccak) where
  -- The sides of a proof are those of its position.
  proof_down-sides :
      (fuel : ℕ) (leaves : List Text) (index start end : ℕ) (steps : List ProofStep)
      → sides_of (proof_down keccak fuel leaves index start end steps)
        ≡ sides_down fuel index start end (sides_of steps)
  unfolding proof_down sides_down sides_of
  proof_down-sides zero leaves index start end steps = refl
  proof_down-sides (suc fuel) leaves index start end steps =
      let mid = start + split_point (end - start) in
      elim (Bool-cases (ltb 1 (end - start))) [
        | inr one ↦ rw (one, proof_down, sides_down) refl
        | inl wide ↦ elim (Bool-cases (ltb index mid)) [
          | inl low ↦
              rw (wide, proof_down, sides_down)
                (rw (low, proof_down, sides_down)
                  (proof_down-sides fuel leaves index start mid (
                    record {
                      sibling = subtree_root keccak (end - mid) leaves mid end;
                      side = right;
                    }
                    ∷ steps)))
          | inr high ↦
              rw (wide, proof_down, sides_down)
                (rw (high, proof_down, sides_down)
                  (proof_down-sides fuel leaves index mid end (
                    record {
                      sibling = subtree_root keccak (mid - start) leaves start mid;
                      side = left;
                    }
                    ∷ steps)))
        ]
      ]

  -- More fuel than leaves makes no difference.
  root_fuel :
      (fuel more : ℕ) (leaves : List Text) (start end : ℕ)
      → start < end
      → end - start ≤ fuel
      → end - start ≤ more
      → subtree_root keccak fuel leaves start end ≡ subtree_root keccak more leaves start end
  unfolding subtree_root
  root_fuel zero more leaves start end h f g = absurd (omega arith)
  root_fuel (suc fuel) zero leaves start end h f g = absurd (omega arith)
  root_fuel (suc fuel) (suc more) leaves start end h f g = elim (Bool-cases (ltb 1 (end - start))) [
    | inr one ↦
        let e : (end - start == 1) ≡ true = let w = not_wide start end h one in ground arith in
        rw (e, subtree_root) refl
    | inl wide ↦
        let mid = start + split_point (end - start) in
        let (low, high) = splits_inside start end wide in
        let e = is_wide start end wide in
        let l = root_fuel fuel more leaves start mid low (omega arith) (omega arith) in
        let r = root_fuel fuel more leaves mid end high (omega arith) (omega arith) in
        rw (e, subtree_root)
          (ap (λ x. node_hash keccak x (subtree_root keccak fuel leaves mid end)) l
            ∙ ap (node_hash keccak (subtree_root keccak more leaves start mid)) r)
  ]

  opened :
      (leaves : List Text) (start end fuel : ℕ)
      → ltb 1 (end - start) ≡ true
      → subtree_root keccak (suc fuel) leaves start end
        ≡ node_hash keccak
            (subtree_root keccak fuel leaves start (start + split_point (end - start)))
            (subtree_root keccak fuel leaves (start + split_point (end - start)) end)
  unfolding subtree_root
  opened leaves start end fuel wide = rw (is_wide start end wide, subtree_root) refl

  -- A subtree of two leaves or more, by the two below it.
  pub root_split :
      (leaves : List Text) (start end : ℕ)
      → ltb 1 (end - start) ≡ true
      → subtree_root keccak (end - start) leaves start end
        ≡ node_hash keccak
            (subtree_root keccak
              (start + split_point (end - start) - start)
              leaves
              start
              (start + split_point (end - start)))
            (subtree_root keccak
              (end - (start + split_point (end - start)))
              leaves
              (start + split_point (end - start))
              end)
  root_split leaves start end wide =
      let mid = start + split_point (end - start) in
      let (low, high) = splits_inside start end wide in
      let one_more : end - start ≡ suc (end - start - 1) = ground arith in
      let l =
        root_fuel (end - start - 1) (mid - start) leaves start mid low (omega arith)
          (omega arith) in
      let r =
        root_fuel (end - start - 1) (end - mid) leaves mid end high (omega arith) (omega arith) in
      ap (λ f. subtree_root keccak f leaves start end) one_more
      ∙ opened leaves start end (end - start - 1) wide
      ∙ ap (λ x. node_hash keccak x (subtree_root keccak (end - start - 1) leaves mid end)) l
      ∙ ap (node_hash keccak (subtree_root keccak (mid - start) leaves start mid)) r

  pub one_leaf :
      (leaves : List Text) (start end : ℕ)
      → start < end
      → ltb 1 (end - start) ≡ false
      → subtree_root keccak (end - start) leaves start end ≡ leaf_at leaves start
  unfolding subtree_root
  one_leaf leaves start end h one =
      let e = not_wide start end h one in
      let size : end - start ≡ 1 = omega arith in
      let test : (end - start == 1) ≡ true = ground arith in
      ap (λ f. subtree_root keccak f leaves start end) size ∙ (rw (test, subtree_root) refl)

  pub root_size :
      (fuel : ℕ) (leaves : List Text) (start end : ℕ)
      → AreHashes leaves
      → start < end
      → end ≤ length leaves
      → length (subtree_root keccak fuel leaves start end) ≡ hash_size
  unfolding subtree_root node_hash
  root_size zero leaves start end hashes h n = hashes start (omega arith)
  root_size (suc fuel) leaves start end hashes h n = elim (Bool-cases (end - start == 1)) [
    | inl one ↦ rw (one, subtree_root) (hashes start (omega arith))
    | inr more ↦ rw (more, subtree_root) (keccak.digest_size _)
  ]

  climbed :
      (step : ProofStep) (running : Text)
      → length step.sibling ≡ hash_size
      → climb keccak step (some running) ≡ some (joined keccak step.side step.sibling running)
  unfolding climb
  climbed step running h =
      let e : (length step.sibling == hash_size) ≡ true = ground arith in rw e refl

  -- The steps of a leaf's proof take it to the root of each subtree that it is in.
  proof_down-climbs :
      (fuel : ℕ) (leaves : List Text) (index start end : ℕ) (steps : List ProofStep)
      → AreHashes leaves
      → start ≤ index
      → index < end
      → end ≤ length leaves
      → end - start ≤ fuel
      → root_from keccak
          (some (leaf_at leaves index))
          (proof_down keccak fuel leaves index start end steps)
        ≡ root_from keccak (some (subtree_root keccak (end - start) leaves start end)) steps
  unfolding proof_down root_from
  proof_down-climbs zero leaves index start end steps hashes low high n f = absurd (omega arith)
  proof_down-climbs (suc fuel) leaves index start end steps hashes low high n f =
      let mid = start + split_point (end - start) in
      elim (Bool-cases (ltb 1 (end - start))) [
        | inr one ↦
            let e = not_wide start end (omega arith) one in
            let at : index ≡ start = omega arith in
            rw (one, proof_down)
              (ap (λ x. root_from keccak (some x) steps)
                (ap (leaf_at leaves) at ∙ sym (one_leaf leaves start end (omega arith) one)))
        | inl wide ↦
            let (below, above) = splits_inside start end wide in
            elim (Bool-cases (ltb index mid)) [
              | inl first ↦
                  let sibling = subtree_root keccak (end - mid) leaves mid end in
                  let step : ProofStep = record { sibling = sibling; side = right } in
                  let ih =
                    proof_down-climbs fuel leaves index start mid (step ∷ steps) hashes low
                      (ltb→lt index mid first) (omega arith) (omega arith) in
                  let up =
                    climbed step (subtree_root keccak (mid - start) leaves start mid)
                      (root_size (end - mid) leaves mid end hashes above n) in
                  rw (wide, proof_down)
                    (rw (first, proof_down)
                      (ih
                        ∙ ap (λ r. root_from keccak r steps)
                            (up ∙ ap some (sym (root_split leaves start end wide)))))
              | inr second ↦
                  let sibling = subtree_root keccak (mid - start) leaves start mid in
                  let step : ProofStep = record { sibling = sibling; side = left } in
                  let ih =
                    proof_down-climbs fuel leaves index mid end (step ∷ steps) hashes (ground arith)
                      high n (omega arith) in
                  let up =
                    climbed step (subtree_root keccak (end - mid) leaves mid end)
                      (root_size (mid - start) leaves start mid hashes below (omega arith)) in
                  rw (wide, proof_down)
                    (rw (second, proof_down)
                      (ih
                        ∙ ap (λ r. root_from keccak r steps)
                            (up ∙ ap some (sym (root_split leaves start end wide)))))
            ]
      ]

  -- For each of its leaves, a tree of 32-byte leaves gives a proof, and the proof is accepted, at
  -- the leaf's index in a tree of that size, as a proof that the leaf is under the tree's root.
  pub proof_accepted :
      (leaves : List Text) (index : ℕ)
      → AreHashes leaves
      → index < length leaves
      → (proof : List ProofStep) × (proof_of keccak leaves index ≡ some proof)
        × (verify_inclusion keccak
              (leaf_at leaves index)
              proof
              (merkle_root keccak leaves)
              index
              (length leaves)
            ≡ true)
  unfolding proof_of verify_inclusion proof_sides merkle_root sides_of root_from
  proof_accepted leaves index hashes h =
      let n = length leaves in
      let proof = proof_down keccak n leaves index 0 n [] in
      let root = subtree_root keccak n leaves 0 n in
      let whole : n - 0 ≡ n = omega arith in
      let inside : ltb index n ≡ true = ground arith in
      let sides : has_sides proof (sides_down n index 0 n []) ≡ true =
        ap (has_sides proof) (sym (proof_down-sides n leaves index 0 n [])) ∙ has_own_sides proof in
      let climbs : root_from keccak (some (leaf_at leaves index)) proof ≡ some root =
        proof_down-climbs n leaves index 0 n [] hashes (omega arith) h (omega arith) (omega arith)
        ∙ ap (λ f. some (subtree_root keccak f leaves 0 n)) whole in
      (
        proof,
        rw inside refl,
        rw (inside, verify_inclusion)
            (rw (sides, verify_inclusion) (rw (climbs, verify_inclusion) (text_eq_refl root))),
      )
