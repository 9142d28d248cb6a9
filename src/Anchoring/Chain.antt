-- ===== src/Anchoring/Chain.antt =====
-- The hash chain of app/services/anchoring/recorder.py, with leaf_hash of canonical.py. An event joins
-- the chain of its transaction, or the global one, whose key is none. The payload is the canonical
-- text; its type, source and time, which the leaf does not bind, are left out, and so are the locks:
-- a database transaction runs alone on its chains.
pub mod Linked
pub mod Binding
use vekro_backend.Base.{
  ℕ, ◌≡◌, ◌==◌, Bool, true, false, ◌&&◌, Option, none, some, get_or, List, [], ◌∷◌, ◌++◌, length,
  Text, if◌then◌else◌,
}
use vekro_backend.Anchoring.Merkle.{Keccak, hash_size}

-- `str.encode("utf-8")` of Python, on text without lone surrogates: different texts have different
-- bytes.
pub record Utf8 : Type 0 where
  pub bytes : Text → Text
  pub bytes_injective : (s t : Text) → bytes s ≡ bytes t → s ≡ t

-- LEAF_PREFIX
abbrev pub leaf_prefix : Text
leaf_prefix = 0 ∷ []

-- ZERO_HASH, 32 bytes
abbrev pub zero_hash : Text
zero_hash =
    0 ∷ 0 ∷ 0 ∷ 0 ∷ 0 ∷ 0 ∷ 0 ∷ 0 ∷ 0 ∷ 0 ∷ 0 ∷ 0 ∷ 0 ∷ 0 ∷ 0 ∷ 0 ∷ 0 ∷ 0 ∷ 0 ∷ 0 ∷ 0 ∷ 0 ∷ 0 ∷ 0
    ∷ 0 ∷ 0 ∷ 0 ∷ 0 ∷ 0 ∷ 0 ∷ 0 ∷ 0 ∷ []

pub record ChainedEvent : Type 0 where
  pub transaction_id : Option ℕ
  pub payload : Text
  pub salt : Text
  pub prev_event_hash : Text
  pub leaf_hash : Text

-- A session: the rows that are committed, those and the ones of the open database transaction, newest
-- first, and the cached chain heads, `db.info["anchor_chain_heads"]`.
pub record ChainSession : Type 0 where
  pub committed : List ChainedEvent
  pub work : List ChainedEvent
  pub heads : Option ℕ → Option Text

abbrev pub same_chain : Option ℕ → Option ℕ → Bool
same_chain none none = true
same_chain (some a) (some b) = a == b
same_chain _ _ = false

-- The newest leaf of a chain.
unfoldable pub latest_leaf : Option ℕ → List ChainedEvent → Option Text
latest_leaf key [] = none
latest_leaf key (e ∷ es) =
    let rest = latest_leaf key es in
    if same_chain e.transaction_id key then some e.leaf_hash else rest

-- `_chain_head`: the cached one, or that of the stored rows. The query does not flush, so it sees no
-- row of the open transaction.
unfoldable pub chain_head : Option ℕ → ChainSession → Text
unfolding latest_leaf
chain_head key s = elim (s.heads key) [
  | some head ↦ head
  | none ↦ get_or (latest_leaf key s.committed) zero_hash
]

unfoldable pub put_head : Option ℕ → Text → (Option ℕ → Option Text) → Option ℕ → Option Text
put_head key head heads other = if same_chain key other then some head else heads other

abbrev pub no_heads : Option ℕ → Option Text
no_heads key = none

module _ (keccak : Keccak) (utf8 : Utf8) where
  -- `leaf_hash`; none is CanonicalEncodingError.
  unfoldable pub leaf_of : Text → Text → Text → Option Text
  leaf_of salt prev payload =
      if length salt == hash_size && length prev == hash_size
      then some (keccak.digest (leaf_prefix ++ (salt ++ (prev ++ utf8.bytes payload))))
      else none

  -- `record_anchor_event`; false is an exception, which leaves no event.
  unfoldable pub record_event : Option ℕ → Text → Text → ChainSession → Bool × ChainSession
  unfolding leaf_of chain_head put_head
  record_event key payload salt s =
      let prev = chain_head key s in
      elim (leaf_of salt prev payload) [
        | none ↦ (false, record s { heads = put_head key prev s.heads })
        | some leaf ↦ (
          true,
          record s {
            work =
                record {
                  transaction_id = key;
                  payload = payload;
                  salt = salt;
                  prev_event_hash = prev;
                  leaf_hash = leaf;
                }
                ∷ s.work;
            heads = put_head key leaf s.heads;
          },
        )
      ]

-- The end of a database transaction; `_reset_transaction_state` forgets the heads.
abbrev pub commit_chain : ChainSession → ChainSession
commit_chain s = record { committed = s.work; work = s.work; heads = no_heads }

abbrev pub rollback_chain : ChainSession → ChainSession
rollback_chain s = record { committed = s.committed; work = s.committed; heads = no_heads }
