-- ===== src/Session/Rows.antt =====
-- Reading and writing single rows within a session.
use vekro_backend.Base.{
  ℕ, suc, ◌==◌, Bool, Option, List, [], ◌∷◌, first, lookup, insert, if◌then◌else◌,
}
use vekro_backend.Model.Rows.{Transaction, Dispute, Escrow, Notification, MoneyAuditEvent, Listing}
use vekro_backend.Model.Db.{Db, AnchorPayload, money_audit}
use vekro_backend.Session.Monad.{Env, Error, Action, or_raise, modify, ok, ◌>>◌}

-- `uuid.uuid4()`
abbrev pub new_id : Action ℕ
new_id s = (ok s.work.next_id, record s { work = record s.work { next_id = suc s.work.next_id } })

-- `db.get(Transaction, id)`, and the error of the caller where there is none.
abbrev pub get_transaction : ℕ → Error → Action Transaction
get_transaction id missing s = or_raise (lookup id s.work.transactions) missing s

abbrev pub get_listing : ℕ → Error → Action Listing
get_listing id missing s = or_raise (lookup id s.work.listings) missing s

-- The changed row is flushed: `updated_at` is set by the column's `onupdate`.
abbrev pub save_transaction : Env → Transaction → Action (Unit {0})
save_transaction env t = modify λ db. record db {
  transactions = insert t.id (record t { updated_at = env.now }) db.transactions;
}

abbrev pub save_escrow : Escrow → Action (Unit {0})
save_escrow escrow =
    modify λ db. record db { escrows = insert escrow.transaction_id escrow db.escrows }

abbrev pub of_transaction : ℕ → Dispute → Bool
of_transaction id dispute = dispute.transaction_id == id

-- latest_dispute of app/services/dispute_summary.py
abbrev pub latest_dispute : ℕ → Db → Option Dispute
latest_dispute transaction_id db = first (of_transaction transaction_id) db.disputes

unfoldable pub write_dispute : Dispute → List Dispute → List Dispute
write_dispute d [] = []
write_dispute d (e ∷ rows) = if e.id == d.id then d ∷ rows else e ∷ write_dispute d rows

abbrev pub save_dispute : Dispute → Action (Unit {0})
save_dispute d = modify λ db. record db { disputes = write_dispute d db.disputes }

abbrev pub add_dispute : Dispute → Action (Unit {0})
add_dispute d = modify λ db. record db { disputes = d ∷ db.disputes }

abbrev pub notify : Notification → Action (Unit {0})
notify n = modify λ db. record db { notifications = n ∷ db.notifications }

-- record_anchor_event of app/services/anchoring/recorder.py, without the hashes.
abbrev pub record_anchor_event : Option ℕ → AnchorPayload → Action (Unit {0})
record_anchor_event transaction_id payload = modify λ db. record db {
  anchor_events = record { transaction_id = transaction_id; payload = payload } ∷ db.anchor_events;
}

-- record_money_audit_event of app/services/audit.py: the audit row and its anchor event.
abbrev pub record_money_audit_event : MoneyAuditEvent → Action (Unit {0})
record_money_audit_event event = do
  modify λ db. record db { money_audit_events = event ∷ db.money_audit_events }
  record_anchor_event event.transaction_id (money_audit event)
