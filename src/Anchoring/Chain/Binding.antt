-- ===== src/Anchoring/Chain/Binding.antt =====
-- The newest leaf of a chain binds the whole chain.
use vekro_backend.Base.{
  ℕ, ◌==◌, ◌≡◌, refl, sym, ap, ◌∙◌, arith, true, Bool-cases, inl, inr, ◌⊎◌, eqb→eq, Option, some,
  List, [], ◌∷◌, ◌++◌, length, Text, if◌then◌else◌,
}
use vekro_backend.Anchoring.Merkle.{Keccak, hash_size}
use vekro_backend.Anchoring.Collision.{Collision, first_parts, text_cases}
use vekro_backend.Anchoring.Chain.{
  Utf8, leaf_prefix, zero_hash, ChainedEvent, same_chain, latest_leaf, leaf_of,
}
use vekro_backend.Anchoring.Chain.Linked.{head_of, AreLinked}

-- The events of one chain, newest first.
unfoldable pub chain_of : Option ℕ → List ChainedEvent → List ChainedEvent
chain_of key [] = []
chain_of key (e ∷ es) =
    let rest = chain_of key es in if same_chain e.transaction_id key then e ∷ rest else rest

-- What an event records: its salt and its payload.
abbrev pub contents : List ChainedEvent → List (Text × Text)
contents [] = []
contents (e ∷ es) = (e.salt, e.payload) ∷ contents es

abbrev top : List ChainedEvent → Text
top [] = zero_hash
top (e ∷ _) = e.leaf_hash

module _ (keccak : Keccak) (utf8 : Utf8) where
  abbrev IsChain : List ChainedEvent → Type 0
  IsChain [] = Unit
  IsChain (e ∷ es) =
      (e.prev_event_hash ≡ top es)
      × (leaf_of keccak utf8 e.salt e.prev_event_hash e.payload ≡ some e.leaf_hash)
      × IsChain es

  abbrev leaf_input : Text → Text → Text → Text
  leaf_input salt prev payload = leaf_prefix ++ (salt ++ (prev ++ utf8.bytes payload))

  leaf_parts :
      (salt prev payload leaf : Text)
      → leaf_of keccak utf8 salt prev payload ≡ some leaf
      → (length salt ≡ hash_size)
        × (length prev ≡ hash_size)
        × (keccak.digest (leaf_input salt prev payload) ≡ leaf)
  unfolding leaf_of
  leaf_parts salt prev payload leaf h = elim (Bool-cases (length salt == hash_size)) [
    | inr short ↦ cc (rw (short, leaf_of) at h)
    | inl whole ↦ elim (Bool-cases (length prev == hash_size)) [
      | inr short ↦ cc (rw (whole, short, leaf_of) at h)
      | inl full ↦
          let e : some (keccak.digest (leaf_input salt prev payload)) ≡ some leaf =
            rw (whole, full, leaf_of) at h in
          (eqb→eq (length salt) hash_size whole, eqb→eq (length prev) hash_size full, cc)
    ]
  ]

  -- One leaf of two events.
  leaf-binds :
      (e f : ChainedEvent)
      → leaf_of keccak utf8 e.salt e.prev_event_hash e.payload ≡ some e.leaf_hash
      → leaf_of keccak utf8 f.salt f.prev_event_hash f.payload ≡ some f.leaf_hash
      → e.leaf_hash ≡ f.leaf_hash
      → ((e.salt ≡ f.salt) × (e.prev_event_hash ≡ f.prev_event_hash) × (e.payload ≡ f.payload))
        ⊎ Collision keccak
  leaf-binds e f one other same =
      let (salt, prev, hash) = leaf_parts e.salt e.prev_event_hash e.payload e.leaf_hash one in
      let (salt', prev', hash') = leaf_parts f.salt f.prev_event_hash f.payload f.leaf_hash other in
      elim (text_cases (leaf_input e.salt e.prev_event_hash e.payload)
        (leaf_input f.salt f.prev_event_hash f.payload)) [
          | inr differ ↦ inr (record {
            one = leaf_input e.salt e.prev_event_hash e.payload;
            other = leaf_input f.salt f.prev_event_hash f.payload;
            differ = differ;
            agree = hash ∙ same ∙ sym hash';
          })
          | inl equal ↦
              let (_, rest) = first_parts leaf_prefix _ leaf_prefix _ refl equal in
              let (salts, more) = first_parts e.salt _ f.salt _ (salt ∙ sym salt') rest in
              let (prevs, bytes) =
                first_parts e.prev_event_hash _ f.prev_event_hash _ (prev ∙ sym prev') more in
              inl (salts, prevs, utf8.bytes_injective e.payload f.payload bytes)
        ]

  same_key : (a b : Option ℕ) → same_chain a b ≡ true → a ≡ b
  same_key a b h = ground arith

  linked-IsChain :
      (key : Option ℕ) (es : List ChainedEvent)
      → AreLinked keccak utf8 es
      → IsChain (chain_of key es) × (head_of key es ≡ top (chain_of key es))
  unfolding chain_of latest_leaf
  linked-IsChain key [] linked = (tt, refl)
  linked-IsChain key (e ∷ es) (prev, leaf, linked) =
      let (chain, head) = linked-IsChain key es linked in
      elim (Bool-cases (same_chain e.transaction_id key)) [
        | inr apart ↦ rw (apart, chain_of, latest_leaf) (chain, head)
        | inl same ↦
            rw (same, chain_of, latest_leaf)
              (
                (
                  prev ∙ ap (λ k. head_of k es) (same_key e.transaction_id key same) ∙ head,
                  leaf,
                  chain,
                ),
                refl,
              )
      ]

  chains-bind :
      (es fs : List ChainedEvent)
      → IsChain es
      → IsChain fs
      → length es ≡ length fs
      → top es ≡ top fs
      → (contents es ≡ contents fs) ⊎ Collision keccak
  chains-bind [] [] c d n t = inl refl
  chains-bind [] (f ∷ fs) c d n t = absurd (omega arith)
  chains-bind (e ∷ es) [] c d n t = absurd (omega arith)
  chains-bind (e ∷ es) (f ∷ fs) (prev, leaf, c) (prev', leaf', d) n t =
      elim (leaf-binds e f leaf leaf' t) [
        | inr clash ↦ inr clash
        | inl (salts, prevs, payloads) ↦
            elim (chains-bind es fs c d (omega arith) (sym prev ∙ prevs ∙ prev')) [
              | inr clash ↦ inr clash
              | inl same ↦ inl (λ i. (salts i, payloads i) ∷ same i)
            ]
      ]

  -- If two linked logs have the same newest leaf and the same number of events in a chain, they agree
  -- on the salt and the payload of each event of that chain, or they show two different inputs on
  -- which keccak256 agrees.
  pub chain_binds :
      (key : Option ℕ) (log other : List ChainedEvent)
      → AreLinked keccak utf8 log
      → AreLinked keccak utf8 other
      → length (chain_of key log) ≡ length (chain_of key other)
      → head_of key log ≡ head_of key other
      → (contents (chain_of key log) ≡ contents (chain_of key other)) ⊎ Collision keccak
  chain_binds key log other linked linked' count same =
      let (chain, top_is) = linked-IsChain key log linked in
      let (chain', top_is') = linked-IsChain key other linked' in
      chains-bind (chain_of key log) (chain_of key other) chain chain' count
        (sym top_is ∙ same ∙ top_is')
