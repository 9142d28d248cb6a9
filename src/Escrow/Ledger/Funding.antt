-- ===== src/Escrow/Ledger/Funding.antt =====
-- What a funding does to the balance held for an escrow: post_escrow_funding and
-- get_escrow_held_balance of app/services/ledger.py.
use vekro_backend.Base.{
  ℕ, ◌-◌, ◌≡◌, arith, List, Option, some, Text, inl, inr, true, text_eq, eqb_refl, pos, ◌+ℤ◌,
  lookup, lookup-insert_self, strip,
}
use vekro_backend.Model.Rows.{LedgerEntry, Escrow}
use vekro_backend.Session.{Session, Result-cases, ok}
use vekro_backend.Escrow.Ledger.{
  LedgerPostResult, normalized, entries_by_idempotency_key, replay_or_post, get_escrow_held_balance,
  post_escrow_funding, funding_movement, post_movement,
}
use vekro_backend.Escrow.Ledger.Balance.{check_movement-keeps}

new_posting :
    (escrow : Escrow) (key : Text) (tid : Option ℕ) (old : List LedgerEntry) (s : Session)
    (r : LedgerPostResult)
    → (replay_or_post tid (normalized (funding_movement escrow key)) old s).0 ≡ ok r
    → r.created_entries ≡ 2
    → get_escrow_held_balance escrow.id
        (replay_or_post tid (normalized (funding_movement escrow key)) old s).1.work.ledger_entries
      ≡ pos (escrow.amount_total - escrow.funded_amount)
        +ℤ get_escrow_held_balance escrow.id s.work.ledger_entries
unfolding replay_or_post get_escrow_held_balance strip text_eq
new_posting escrow key tid old s r h c = ground (arith, eqb_refl escrow.id)

-- A funding that reports success was posted anew: the balance held for the escrow grows by exactly
-- what was missing, and the stored escrow is funded to its whole amount.
pub funding_credits :
    (escrow : Escrow) (idempotency_key : Text) (s : Session)
    → (post_escrow_funding escrow idempotency_key s).0 ≡ ok true
    → (get_escrow_held_balance escrow.id
          (post_escrow_funding escrow idempotency_key s).1.work.ledger_entries
        ≡ pos (escrow.amount_total - escrow.funded_amount)
          +ℤ get_escrow_held_balance escrow.id s.work.ledger_entries)
      × (lookup escrow.transaction_id (post_escrow_funding escrow idempotency_key s).1.work.escrows
          ≡ some (record escrow { funded_amount = escrow.amount_total }))
unfolding post_escrow_funding post_movement
funding_credits escrow key s h =
    let m = normalized (funding_movement escrow key) in
    let tid = some escrow.transaction_id in
    let old = entries_by_idempotency_key m.idempotency_key s.work.ledger_entries in
    elim (Result-cases (replay_or_post tid m old s).0) [
      | inl (r, e) ↦ ground (
        arith,
        check_movement-keeps m s,
        new_posting escrow key tid old s r e,
        lookup-insert_self escrow.transaction_id
            (record escrow { funded_amount = escrow.amount_total })
            (replay_or_post tid m old s).1.work.escrows,
      )
      | inr (x, e) ↦ ground (arith, check_movement-keeps m s)
    ]
