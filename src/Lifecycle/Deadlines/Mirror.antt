-- ===== src/Lifecycle/Deadlines/Mirror.antt =====
-- The deadlines that clients read against the timeout jobs.
use vekro_backend.Base.{ℕ, ◌≤◌, ◌≡◌, ◌↔◌, true, Option, none, some, arith}
use vekro_backend.Model.Rows.{Transaction}
use vekro_backend.Lifecycle.Deadlines.{
  TransactionDeadlines, deadlines_for, Rule, at_door, no_dispatch, hold_release, return_not_sent,
  return_not_received, is_due, return_send_window,
}

-- The deadline that a rule acts on.
abbrev pub deadline_of : Rule → TransactionDeadlines → Option ℕ
deadline_of at_door d = d.inspect_by
deadline_of no_dispatch d = d.dispatch_by
deadline_of hold_release d = d.hold_until
deadline_of return_not_sent d = d.return_send_by
deadline_of return_not_received d = d.return_confirm_by

abbrev pub HasPassed : ℕ → Option ℕ → Type 0
HasPassed now none = ⊥
HasPassed now (some deadline) = deadline ≤ now

-- A timeout rule finds a transaction due at a time exactly if the deadline that clients read for
-- that rule is set and has passed by then, on any clock past its first three days.
pub deadlines_mirror :
    (now : ℕ) (rule : Rule) (t : Transaction)
    → return_send_window ≤ now
    → (is_due now rule t ≡ true) ↔ HasPassed now (deadline_of rule (deadlines_for t))
unfolding deadlines_for is_due
deadlines_mirror now at_door t h = ground arith
deadlines_mirror now _ t h = ground arith
