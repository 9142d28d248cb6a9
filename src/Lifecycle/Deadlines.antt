-- ===== src/Lifecycle/Deadlines.antt =====
-- The timeout windows and the deadlines that clients read (app/services/deadlines.py), and the
-- queries that find what is due (the `_get_due_...` functions of app/services/transaction.py).
pub mod Mirror
pub mod Tests
use vekro_backend.Base.{
  ℕ, ◌+◌, ◌-◌, ◌*◌, leb, Bool, true, false, ◌&&◌, Option, none, some, List, [], ◌∷◌, Table,
  if◌then◌else◌,
}
use vekro_backend.Model.Status.{TransactionStatus}
use vekro_backend.Model.Rows.{Transaction}
use vekro_backend.Lifecycle.Transitions.{in_status}

abbrev pub hour : ℕ
hour = 3600

abbrev pub at_door_inspection_window : ℕ
at_door_inspection_window = 1 * hour

abbrev pub no_dispatch_window : ℕ
no_dispatch_window = 48 * hour

abbrev pub hold_window : ℕ
hold_window = 24 * hour

abbrev pub return_send_window : ℕ
return_send_window = 3 * 24 * hour

abbrev pub return_receipt_window : ℕ
return_receipt_window = 3 * 24 * hour

pub record TransactionDeadlines : Type 0 where
  pub dispatch_by : Option ℕ
  pub inspect_by : Option ℕ
  pub hold_until : Option ℕ
  pub return_send_by : Option ℕ
  pub return_confirm_by : Option ℕ

abbrev pub no_deadlines : TransactionDeadlines
no_deadlines = record {
  dispatch_by = none;
  inspect_by = none;
  hold_until = none;
  return_send_by = none;
  return_confirm_by = none;
}

-- `_after`
abbrev pub after : Option ℕ → ℕ → Option ℕ
after none window = none
after (some start) window = some (start + window)

unfoldable pub deadlines_for : Transaction → TransactionDeadlines
deadlines_for t =
    let base : TransactionDeadlines = no_deadlines in
    if in_status TransactionStatus.locked t
    then record base { dispatch_by = after t.locked_at no_dispatch_window }
    else if in_status TransactionStatus.at_door_pending_inspection t
    then record base { inspect_by = after t.at_door_at at_door_inspection_window }
    else if in_status TransactionStatus.hold_24h t
    then record base { hold_until = after t.hold_started_at hold_window }
    else if in_status TransactionStatus.disputed_functional t
    then record base { return_send_by = after (some t.updated_at) return_send_window }
    else if in_status TransactionStatus.return_in_transit t
    then record base { return_confirm_by = after (some t.updated_at) return_receipt_window }
    else base

-- `column.is_not(None)` and `column <= cutoff`
abbrev pub reached : ℕ → Option ℕ → Bool
reached cutoff none = false
reached cutoff (some at) = leb at cutoff

-- The five rules of run_timeout_jobs.
pub data Rule : Type 0 where
  at_door no_dispatch hold_release return_not_sent return_not_received : Rule

-- The conditions of the five queries, with the cutoffs of run_timeout_jobs. A clock reading is a
-- count of seconds from the year 1, so taking a window off it does not stop at 0.
unfoldable pub is_due : ℕ → Rule → Transaction → Bool
is_due now at_door t =
    in_status TransactionStatus.at_door_pending_inspection t
    && reached (now - at_door_inspection_window) t.at_door_at
is_due now no_dispatch t =
    in_status TransactionStatus.locked t && reached (now - no_dispatch_window) t.locked_at
is_due now hold_release t =
    in_status TransactionStatus.hold_24h t && reached (now - hold_window) t.hold_started_at
is_due now return_not_sent t =
    in_status TransactionStatus.disputed_functional t && leb t.updated_at (now - return_send_window)
is_due now return_not_received t =
    in_status TransactionStatus.return_in_transit t
    && leb t.updated_at (now - return_receipt_window)

-- The rows that a query selects, in the order of the table.
unfoldable pub due_rows : ℕ → Rule → Table Transaction → List Transaction
unfolding is_due
due_rows now rule [] = []
due_rows now rule ((k, t) ∷ rows) =
    let rest = due_rows now rule rows in if is_due now rule t then t ∷ rest else rest
