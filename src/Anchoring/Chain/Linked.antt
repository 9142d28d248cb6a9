-- ===== src/Anchoring/Chain/Linked.antt =====
-- The recorder keeps every chain linked.
use vekro_backend.Base.{
  ℕ, ◌≡◌, refl, ap, ◌∙◌, arith, true, Bool-cases, Option-cases, inl, inr, Option, some, get_or,
  List, [], ◌∷◌, Text,
}
use vekro_backend.Anchoring.Merkle.{Keccak}
use vekro_backend.Anchoring.Chain.{
  Utf8, zero_hash, ChainedEvent, ChainSession, same_chain, latest_leaf, chain_head, put_head,
  no_heads, leaf_of, record_event, commit_chain, rollback_chain,
}

-- The hash that the next event of a chain names.
abbrev pub head_of : Option ℕ → List ChainedEvent → Text
head_of key es = get_or (latest_leaf key es) zero_hash

-- What a session does to the log.
pub data ChainOp : Type 0 where
  recorded : Option ℕ → Text → Text → ChainOp
  committed rolled_back : ChainOp

module _ (keccak : Keccak) (utf8 : Utf8) where
  -- Each event names the newest leaf of its chain before it, and has the leaf that its parts give.
  abbrev pub AreLinked : List ChainedEvent → Type 0
  AreLinked [] = Unit
  AreLinked (e ∷ es) =
      (e.prev_event_hash ≡ head_of e.transaction_id es)
      × (leaf_of keccak utf8 e.salt e.prev_event_hash e.payload ≡ some e.leaf_hash)
      × AreLinked es

  unfoldable pub perform_chain : ChainOp → ChainSession → ChainSession
  unfolding record_event
  perform_chain (recorded key payload salt) s = (record_event keccak utf8 key payload salt s).1
  perform_chain committed s = commit_chain s
  perform_chain rolled_back s = rollback_chain s

  unfoldable pub perform_chains : List ChainOp → ChainSession → ChainSession
  unfolding perform_chain
  perform_chains [] s = s
  perform_chains (op ∷ ops) s = perform_chains ops (perform_chain op s)

  -- The cache tells the head of a chain, and where it is silent the stored rows do.
  record IsCurrent (s : ChainSession) : Type 0 where
    stored : AreLinked s.committed
    written : AreLinked s.work
    cached : (key : Option ℕ) → chain_head key s ≡ head_of key s.work

  same_chain_eq : (a b : Option ℕ) → same_chain a b ≡ true → a ≡ b
  same_chain_eq a b h = ground arith

  same_chain_refl : (a : Option ℕ) → same_chain a a ≡ true
  same_chain_refl a = ground arith

  record-IsCurrent :
      (key : Option ℕ) (payload salt : Text) (s : ChainSession)
      → IsCurrent s
      → IsCurrent (record_event keccak utf8 key payload salt s).1
  unfolding record_event chain_head put_head latest_leaf
  record-IsCurrent key payload salt s c =
      let prev = chain_head key s in
      elim (Option-cases (leaf_of keccak utf8 salt prev payload)) [
        | inl bad ↦
            rw (bad, record_event)
              (record {
                stored = c.stored;
                written = c.written;
                cached = λ other. elim (Bool-cases (same_chain key other)) [
                  | inr apart ↦ rw (apart, chain_head, put_head) (c.cached other)
                  | inl same ↦
                      rw (same, chain_head, put_head)
                        (c.cached key ∙ ap (λ k. head_of k s.work) (same_chain_eq key other same))
                ];
              })
        | inr (leaf, good) ↦
            rw (good, record_event)
              (record {
                stored = c.stored;
                written = (c.cached key, good, c.written);
                cached = λ other. elim (Bool-cases (same_chain key other)) [
                  | inr apart ↦ rw (apart, chain_head, put_head, latest_leaf) (c.cached other)
                  | inl same ↦ rw (same, chain_head, put_head, latest_leaf) refl
                ];
              })
      ]

  perform-IsCurrent :
      (op : ChainOp) (s : ChainSession) → IsCurrent s → IsCurrent (perform_chain op s)
  unfolding perform_chain chain_head
  perform-IsCurrent (recorded key payload salt) s c = record-IsCurrent key payload salt s c
  perform-IsCurrent committed s c = record {
    stored = c.written;
    written = c.written;
    cached = λ key. refl;
  }
  perform-IsCurrent rolled_back s c = record {
    stored = c.stored;
    written = c.stored;
    cached = λ key. refl;
  }

  all-IsCurrent :
      (ops : List ChainOp) (s : ChainSession) → IsCurrent s → IsCurrent (perform_chains ops s)
  unfolding perform_chains
  all-IsCurrent [] s c = c
  all-IsCurrent (op ∷ ops) s c = all-IsCurrent ops (perform_chain op s) (perform-IsCurrent op s c)

  -- A session on a linked log, with no head cached, leaves a linked log: after any sequence of events,
  -- commits and rollbacks, each committed event names the newest leaf of its chain before it, and its
  -- leaf is the hash of its salt, that name and its payload.
  pub recorder-AreLinked :
      (ops : List ChainOp) (log : List ChainedEvent)
      → AreLinked log
      → AreLinked
          (perform_chains ops (record { committed = log; work = log; heads = no_heads })).committed
  unfolding chain_head
  recorder-AreLinked ops log linked =
      let s : ChainSession = record { committed = log; work = log; heads = no_heads } in
      let current : IsCurrent s = record {
        stored = linked;
        written = linked;
        cached = λ key. refl;
      } in
      (all-IsCurrent ops s current).stored
