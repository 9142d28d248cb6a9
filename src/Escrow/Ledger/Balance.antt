-- ===== src/Escrow/Ledger/Balance.antt =====
-- What a posting keeps: post_movement of app/services/ledger.py.
use vekro_backend.Base.{ℕ, ◌≡◌, arith, List, Option, refl, true, text_eq_refl, [], ◌∷◌, eqb_refl}
use vekro_backend.Model.Rows.{LedgerEntry}
use vekro_backend.Session.{Session, ok}
use vekro_backend.Escrow.Ledger.{
  LedgerMovement, LedgerPostResult, debit_total, credit_total, post_movement, normalized,
  entries_by_idempotency_key, replay_or_post, check_movement,
}

replay_or_post-balanced :
    (tid : Option ℕ) (m : LedgerMovement) (old : List LedgerEntry) (s : Session)
    → debit_total s.work.ledger_entries ≡ credit_total s.work.ledger_entries
    → debit_total (replay_or_post tid m old s).1.work.ledger_entries
      ≡ credit_total (replay_or_post tid m old s).1.work.ledger_entries
unfolding replay_or_post
replay_or_post-balanced tid m old s h = ground arith

pub check_movement-keeps : (m : LedgerMovement) (s : Session) → (check_movement m s).1 ≡ s
unfolding check_movement
check_movement-keeps m s = ground arith

-- Posting a movement, whether it is new, repeated or refused, keeps the total of all debits of the
-- ledger equal to the total of all credits.
pub post-balanced :
    (transaction_id : Option ℕ) (movement : LedgerMovement) (s : Session)
    → debit_total s.work.ledger_entries ≡ credit_total s.work.ledger_entries
    → debit_total (post_movement transaction_id movement s).1.work.ledger_entries
      ≡ credit_total (post_movement transaction_id movement s).1.work.ledger_entries
unfolding post_movement
post-balanced tid movement s h = ground (
  arith,
  check_movement-keeps (normalized movement) s,
  replay_or_post-balanced tid (normalized movement)
      (entries_by_idempotency_key (normalized movement).idempotency_key s.work.ledger_entries) s,
)

check_movement-same :
    (m : LedgerMovement) (s s' : Session) → (check_movement m s').0 ≡ (check_movement m s).0
unfolding check_movement
check_movement-same m s s' = ground arith

abbrev pub replayed : LedgerPostResult → LedgerPostResult
replayed r = record {
  entry_group_id = r.entry_group_id;
  created_entries = 0;
  was_idempotent_replay = true;
}

replay_twice :
    (tid : Option ℕ) (m : LedgerMovement) (old : List LedgerEntry) (s : Session)
    (r : LedgerPostResult)
    → entries_by_idempotency_key m.idempotency_key s.work.ledger_entries ≡ old
    → (replay_or_post tid m old s).0 ≡ ok r
    → replay_or_post tid m
        (entries_by_idempotency_key m.idempotency_key
          (replay_or_post tid m old s).1.work.ledger_entries)
        (replay_or_post tid m old s).1
      ≡ (ok (replayed r), (replay_or_post tid m old s).1)
unfolding replay_or_post entries_by_idempotency_key
replay_twice tid m [] s r e h = ground (arith, text_eq_refl m.idempotency_key, eqb_refl m.escrow_id)
replay_twice tid m (entry ∷ entries) s r e h = ground arith

-- Posting the same movement again, right after it was accepted, is answered as a replay of the same
-- entry group, creates no entry and changes nothing.
pub post_twice :
    (transaction_id : Option ℕ) (movement : LedgerMovement) (s : Session) (r : LedgerPostResult)
    → (post_movement transaction_id movement s).0 ≡ ok r
    → post_movement transaction_id movement (post_movement transaction_id movement s).1
      ≡ (ok (replayed r), (post_movement transaction_id movement s).1)
unfolding post_movement
post_twice tid movement s r h =
    let m = normalized movement in
    let old = entries_by_idempotency_key m.idempotency_key s.work.ledger_entries in
    ground (
      arith,
      check_movement-keeps m s,
      check_movement-keeps m (replay_or_post tid m old s).1,
      check_movement-same m s (replay_or_post tid m old s).1,
      replay_twice tid m old s r refl,
    )
