-- ===== src/Anchoring/Merkle/Binding.antt =====
-- An accepted proof is of the leaf at that index, or it shows a collision of keccak256.
use vekro_backend.Base.{
  ℕ, zero, suc, ◌+◌, ◌-◌, ◌≤◌, ◌<◌, ◌≡◌, ◌⊎◌, inl, inr, ◌==◌, ltb, refl, sym, ap, ◌∙◌, arith, Bool,
  Bool-cases, true, false, ◌&&◌, Option, none, some, List, [], ◌∷◌, ◌++◌, length, text_eq→eq, Text,
  eqb→eq, ltb→lt, if◌then◌else◌,
}
use vekro_backend.Anchoring.Merkle.{
  Keccak, hash_size, Side, left, right, ProofStep, split_point, leaf_at, sides_down, proof_sides,
  has_sides, same_side, node_prefix, node_hash, subtree_root, merkle_root, climb, joined, root_from,
  is_root, verify_inclusion,
}
use vekro_backend.Anchoring.Collision.{Collision, first_parts, last_parts, text_cases}
use vekro_backend.Anchoring.Merkle.Proofs.{
  AreHashes, splits_inside, not_wide, one_leaf, root_size, root_split,
}

some_eq : {a b : Text} → some a ≡ some b → a ≡ b
some_eq e = ground arith

not_both : ¬ ◌≡◌ {A = Bool} false true
not_both e = cc

both_of : (a : Bool) {b : Bool} → (if a then b else false) ≡ true → (a ≡ true) × (b ≡ true)
both_of true h = (refl, h)
both_of false h = absurd (not_both h)

abbrev midpoint : ℕ → ℕ → ℕ
midpoint start end = start + split_point (end - start)

module _ (keccak : Keccak) where
  -- One hash over two pairs of texts.
  same_inputs :
      (a b c d : Text)
      → node_hash keccak a b ≡ node_hash keccak c d
      → (a ++ b ≡ c ++ d) ⊎ Collision keccak
  unfolding node_hash
  same_inputs a b c d e = elim (text_cases (a ++ b) (c ++ d)) [
    | inl same ↦ inl same
    | inr differ ↦ inr (record {
      one = node_prefix ++ (a ++ b);
      other = node_prefix ++ (c ++ d);
      differ = λ f. differ (first_parts node_prefix (a ++ b) node_prefix (c ++ d) refl f).1;
      agree = e;
    })
  ]

  -- A step that reaches the hash of two texts started from the one on its own side.
  right_step :
      (step : ProofStep) (r : Option Text) (a b : Text)
      → step.side ≡ right
      → length b ≡ hash_size
      → climb keccak step r ≡ some (node_hash keccak a b)
      → (r ≡ some a) ⊎ Collision keccak
  unfolding climb
  right_step step none a b s h e = let clash : none ≡ some (node_hash keccak a b) = e in cc
  right_step step (some x) a b s h e = elim (Bool-cases (length step.sibling == hash_size)) [
    | inr bad ↦ let clash : none ≡ some (node_hash keccak a b) = rw bad at e in cc
    | inl good ↦
        let up : some (joined keccak step.side step.sibling x) ≡ some (node_hash keccak a b) =
          rw good at e in
        let size : length step.sibling ≡ hash_size = eqb→eq (length step.sibling) hash_size good in
        let same : some (node_hash keccak x step.sibling) ≡ some (node_hash keccak a b) =
          ap (λ q. some (joined keccak q step.sibling x)) (sym s) ∙ up in
        elim (same_inputs x step.sibling a b (some_eq same)) [
          | inl f ↦ inl (ap some (last_parts x step.sibling a b (size ∙ sym h) f).0)
          | inr c ↦ inr c
        ]
  ]

  left_step :
      (step : ProofStep) (r : Option Text) (a b : Text)
      → step.side ≡ left
      → length a ≡ hash_size
      → climb keccak step r ≡ some (node_hash keccak a b)
      → (r ≡ some b) ⊎ Collision keccak
  unfolding climb
  left_step step none a b s h e = let clash : none ≡ some (node_hash keccak a b) = e in cc
  left_step step (some x) a b s h e = elim (Bool-cases (length step.sibling == hash_size)) [
    | inr bad ↦ let clash : none ≡ some (node_hash keccak a b) = rw bad at e in cc
    | inl good ↦
        let up : some (joined keccak step.side step.sibling x) ≡ some (node_hash keccak a b) =
          rw good at e in
        let size : length step.sibling ≡ hash_size = eqb→eq (length step.sibling) hash_size good in
        let same : some (node_hash keccak step.sibling x) ≡ some (node_hash keccak a b) =
          ap (λ q. some (joined keccak q step.sibling x)) (sym s) ∙ up in
        elim (same_inputs step.sibling x a b (some_eq same)) [
          | inl f ↦ inl (ap some (first_parts step.sibling x a b (size ∙ sym h) f).1)
          | inr c ↦ inr c
        ]
  ]

  -- What a proof with the sides of a position comes to at a subtree above that position: a running
  -- hash and the steps that are left. If the running hash is the subtree's root, the proof is of
  -- the leaf there, or it shows a collision.
  abbrev Climbed :
      List Text
      → ℕ
      → Text
      → List ProofStep
      → ℕ
      → ℕ
      → List Side
      → Option Text
      → List ProofStep
      → Type 0
  Climbed leaves index leaf proof start end sides r rest =
      (has_sides rest sides ≡ true)
      × (root_from keccak (some leaf) proof ≡ root_from keccak r rest)
      × (r ≡ some (subtree_root keccak (end - start) leaves start end)
          → (leaf ≡ leaf_at leaves index) ⊎ Collision keccak)

  abbrev Reaches : List Text → ℕ → Text → List ProofStep → ℕ → ℕ → List Side → Type 0
  Reaches leaves index leaf proof start end sides =
      (r : Option Text) × (rest : List ProofStep) × Climbed leaves index leaf proof start end sides
        r rest

  both : (a b : Bool) → (a && b) ≡ true → (a ≡ true) × (b ≡ true)
  both a b h = ground arith

  is_right : (side : Side) → same_side side right ≡ true → side ≡ right
  is_right left h = cc
  is_right right h = refl

  is_left : (side : Side) → same_side side left ≡ true → side ≡ left
  is_left left h = refl
  is_left right h = cc

  module _ (leaves : List Text) (index : ℕ) (leaf : Text) (proof : List ProofStep) (start end : ℕ)
      (wide : ltb 1 (end - start) ≡ true) (hashes : AreHashes leaves) (n : end ≤ length leaves)
      (sides : List Side) where
    up_right :
        (r : Option Text) (rest : List ProofStep)
        → Climbed leaves index leaf proof start (midpoint start end) (right ∷ sides) r rest
        → Reaches leaves index leaf proof start end sides
    unfolding has_sides root_from
    up_right r [] (h, e, found) = let clash : false ≡ true = h in cc
    up_right r (step ∷ rest) (h, e, found) =
        let (s, h') = both (same_side step.side right) (has_sides rest sides) h in
        let mid = midpoint start end in
        let (below, above) = splits_inside start end wide in
        (
          climb keccak step r,
          rest,
          (
            h',
            e,
            λ top.
                elim (right_step step r (subtree_root keccak (mid - start) leaves start mid)
                  (subtree_root keccak (end - mid) leaves mid end) (is_right step.side s)
                  (root_size keccak (end - mid) leaves mid end hashes above n)
                  (top ∙ ap some (root_split keccak leaves start end wide))) [
                    | inl there ↦ found there
                    | inr c ↦ inr c
                  ],
          ),
        )

    up_left :
        (r : Option Text) (rest : List ProofStep)
        → Climbed leaves index leaf proof (midpoint start end) end (left ∷ sides) r rest
        → Reaches leaves index leaf proof start end sides
    unfolding has_sides root_from
    up_left r [] (h, e, found) = let clash : false ≡ true = h in cc
    up_left r (step ∷ rest) (h, e, found) =
        let (s, h') = both (same_side step.side left) (has_sides rest sides) h in
        let mid = midpoint start end in
        let (below, above) = splits_inside start end wide in
        (
          climb keccak step r,
          rest,
          (
            h',
            e,
            λ top.
                elim (left_step step r (subtree_root keccak (mid - start) leaves start mid)
                  (subtree_root keccak (end - mid) leaves mid end) (is_left step.side s)
                  (root_size keccak (mid - start) leaves start mid hashes below (omega arith))
                  (top ∙ ap some (root_split keccak leaves start end wide))) [
                    | inl there ↦ found there
                    | inr c ↦ inr c
                  ],
          ),
        )

  descend :
      (fuel : ℕ) (leaves : List Text) (index : ℕ) (leaf : Text) (proof : List ProofStep)
      (start end : ℕ) (sides : List Side)
      → AreHashes leaves
      → start ≤ index
      → index < end
      → end ≤ length leaves
      → end - start ≤ fuel
      → has_sides proof (sides_down fuel index start end sides) ≡ true
      → Reaches leaves index leaf proof start end sides
  unfolding sides_down
  descend zero leaves index leaf proof start end sides hashes low high n f h = absurd (omega arith)
  descend (suc fuel) leaves index leaf proof start end sides hashes low high n f h =
      let mid = midpoint start end in
      elim (Bool-cases (ltb 1 (end - start))) [
        | inr one ↦
            let e = not_wide start end (omega arith) one in
            let here : index ≡ start = omega arith in
            let h' : has_sides proof sides ≡ true = rw (one, sides_down) at h in
            (
              some leaf,
              proof,
              (
                h',
                refl,
                λ top. inl (
                    some_eq (
                      top
                      ∙ ap some (
                          one_leaf keccak leaves start end (omega arith) one
                          ∙ ap (leaf_at leaves) (sym here)))),
              ),
            )
        | inl wide ↦
            let (below, above) = splits_inside start end wide in
            elim (Bool-cases (ltb index mid)) [
              | inl first ↦
                  let h' : has_sides proof (sides_down fuel index start mid (right ∷ sides))
                      ≡ true =
                    rw (first, sides_down) at (rw (wide, sides_down) at h) in
                  let (r, rest, c) =
                    descend fuel leaves index leaf proof start mid (right ∷ sides) hashes low
                      (ltb→lt index mid first) (omega arith) (omega arith) h' in
                  up_right leaves index leaf proof start end wide hashes n sides r rest c
              | inr second ↦
                  let h' : has_sides proof (sides_down fuel index mid end (left ∷ sides)) ≡ true =
                    rw (second, sides_down) at (rw (wide, sides_down) at h) in
                  let (r, rest, c) =
                    descend fuel leaves index leaf proof mid end (left ∷ sides) hashes
                      (ground arith) high n (omega arith) h' in
                  up_left leaves index leaf proof start end wide hashes n sides r rest c
            ]
      ]

  no_rest :
      (r : Option Text) (rest : List ProofStep)
      → has_sides rest [] ≡ true
      → root_from keccak r rest ≡ r
  unfolding has_sides root_from
  no_rest r [] h = refl
  no_rest r (step ∷ rest) h = let clash : false ≡ true = h in cc

  is_root_only : (root : Text) (o : Option Text) → is_root keccak root o ≡ true → o ≡ some root
  is_root_only root none h = let clash : false ≡ true = h in cc
  is_root_only root (some r) h = ap some (text_eq→eq r root h)

  -- A proof that is accepted, at an index in a tree of that size, as a proof that a leaf is under
  -- the root of a tree of 32-byte leaves, is of the leaf at that index, or it shows two different
  -- inputs on which keccak256 agrees; and the index is one of the tree's.
  pub proof_binds :
      (leaves : List Text) (index : ℕ) (leaf : Text) (proof : List ProofStep)
      → AreHashes leaves
      → verify_inclusion keccak leaf proof (merkle_root keccak leaves) index (length leaves) ≡ true
      → (index < length leaves) × ((leaf ≡ leaf_at leaves index) ⊎ Collision keccak)
  unfolding verify_inclusion proof_sides merkle_root
  proof_binds leaves index leaf proof hashes accepted =
      let n = length leaves in
      let root = subtree_root keccak n leaves 0 n in
      let whole : n - 0 ≡ n = omega arith in
      elim (Bool-cases (ltb index n)) [
        | inr outside ↦
            let clash : false ≡ true = rw (outside, verify_inclusion) at accepted in
            absurd (not_both clash)
        | inl inside ↦
            let sides = sides_down n index 0 n [] in
            let accepted' : (if has_sides proof sides
                  then is_root keccak root (root_from keccak (some leaf) proof)
                  else false)
                ≡ true =
              rw (inside, verify_inclusion) at accepted in
            let (shaped, rooted) = both_of (has_sides proof sides) accepted' in
            let (r, rest, (h, e, found)) =
              descend n leaves index leaf proof 0 n [] hashes (omega arith) (ltb→lt index n inside)
                (omega arith) (omega arith) shaped in
            let top : r ≡ some root =
              sym (no_rest r rest h)
              ∙ sym e
              ∙ is_root_only root (root_from keccak (some leaf) proof) rooted in
            (
              ltb→lt index n inside,
              found (top ∙ ap (λ f. some (subtree_root keccak f leaves 0 n)) (sym whole)),
            )
      ]
