-- ===== src/Lifecycle/Sweep.antt =====
-- run_timeout_jobs of app/services/transaction.py: the timeout sweep over the due transactions.
pub mod Effects
pub mod DueRows
pub mod Counts
pub mod Laws
use Prim.Native.String.{String}
use vekro_backend.Base.{
  ℕ, ◌+◌, ltb, Bool, ◌||◌, Option, none, some, List, [], ◌∷◌, ◌++◌, map, Table, if◌then◌else◌,
}
use vekro_backend.Model.Status.{TransactionStatus, DisputeStatus, is_open_dispute, ActorType}
use vekro_backend.Model.Rows.{
  Transaction, Dispute, timeout_at_door_refund, timeout_refund, hold_release,
  dispute_timeout_release,
}
use vekro_backend.Model.Db.{escalated, auto_closed}
use vekro_backend.Session.{
  Env, Action, pure, gets, commit, save_transaction, save_dispute, latest_dispute, ◌>>=◌, ◌>>◌,
}
use vekro_backend.Escrow.Outbox.{system_actor, queue_refund_full, queue_release_full}
use vekro_backend.Lifecycle.Transitions.{by_system, transition_transaction, record_dispute_event}
use vekro_backend.Lifecycle.Notices.{
  step, create_timeout_notifications, create_dispute_auto_cancel_notifications,
  create_seller_received_timeout_notifications,
}
use vekro_backend.Lifecycle.Delivery.{apply_withheld_return_refund_flow, withheld_steps}
use vekro_backend.Lifecycle.Deadlines.{
  Rule, at_door, no_dispatch, return_not_sent, return_not_received, due_rows,
}
use vekro_backend.Lifecycle.Deadlines

-- `if dispute is not None and dispute.status in OPEN_DISPUTE_STATUSES`, where the buyer never sent
-- the item back.
unfoldable pub close_unsent : Env → Option Dispute → Action (Unit {0})
unfolding record_dispute_event
close_unsent env none = pure tt
close_unsent env (some d) =
    if is_open_dispute d.status
    then (do
      save_dispute (record d { status = DisputeStatus.canceled; resolved_at = some env.now })
      record_dispute_event env d auto_closed ActorType.system none)
    else pure tt

-- The same where the seller never confirmed the receipt.
unfoldable pub escalate_unreceived : Env → Option Dispute → Action (Unit {0})
unfolding record_dispute_event
escalate_unreceived env none = pure tt
escalate_unreceived env (some d) =
    if is_open_dispute d.status
    then (do
      save_dispute
          (record d { status = DisputeStatus.escalated_admin_review; escalated_at = some env.now })
      record_dispute_event env d (escalated "system" "seller_received_timeout_3d") ActorType.system
          none)
    else pure tt

unfoldable pub release_unsent : Env → Transaction → Action Transaction
release_unsent env t = do
  latest ← gets (latest_dispute t.id)
  close_unsent env latest
  queue_release_full env system_actor t
      (record { prefix = dispute_timeout_release; subject = t.id })

unfoldable pub review_unreceived : Env → Transaction → Action Transaction
review_unreceived env t = do
  latest ← gets (latest_dispute t.id)
  escalate_unreceived env latest
  pure t

-- What a rule does to a transaction that is due, but for the notifications.
unfoldable pub time_out : Env → Rule → Transaction → Action Transaction
unfolding apply_withheld_return_refund_flow transition_transaction
time_out env at_door t = do
  t1 ← apply_withheld_return_refund_flow env t (by_system "at_door_timeout_1h")
  queue_refund_full env system_actor t1 (record { prefix = timeout_at_door_refund; subject = t.id })
time_out env no_dispatch t = do
  t1 ←
      transition_transaction env t TransactionStatus.refunded_buyer
        (by_system "locked_no_dispatch_timeout_48h")
  queue_refund_full env system_actor
      (record t1 { refunded_at = some env.now; delivery_otp_hash = none; otp_failed_attempts = 0 })
      (record { prefix = timeout_refund; subject = t.id })
time_out env Deadlines.hold_release t = do
  t1 ←
      transition_transaction env t TransactionStatus.released
        (by_system "hold_24h_auto_release_24h")
  queue_release_full env system_actor
      (record t1 { released_at = some env.now; delivery_otp_hash = none; otp_failed_attempts = 0 })
      (record { prefix = hold_release; subject = t.id })
time_out env return_not_sent t = do
  t1 ←
      transition_transaction env t TransactionStatus.released
        (by_system "dispute_buyer_sent_back_timeout_3d")
  release_unsent env (record t1 { released_at = some env.now })
time_out env return_not_received t = do
  t1 ←
      transition_transaction env t TransactionStatus.escalated_admin_review
        (by_system "seller_received_timeout_3d")
  review_unreceived env t1

-- The notifications of a rule, on the transaction as it has become.
unfoldable pub tell_timeout : Env → Rule → Transaction → Action (Unit {0})
unfolding create_timeout_notifications create_dispute_auto_cancel_notifications
    create_seller_received_timeout_notifications
tell_timeout env at_door t =
    create_timeout_notifications t (withheld_steps env "system" "at_door_timeout_1h")
      "at_door_timeout_1h"
tell_timeout env no_dispatch t =
    create_timeout_notifications t
      (step env TransactionStatus.locked TransactionStatus.refunded_buyer "system"
          "locked_no_dispatch_timeout_48h"
        ∷ [])
      "locked_no_dispatch_timeout_48h"
tell_timeout env Deadlines.hold_release t =
    create_timeout_notifications t
      (step env TransactionStatus.hold_24h TransactionStatus.released "system"
          "hold_24h_auto_release_24h"
        ∷ [])
      "hold_24h_auto_release_24h"
tell_timeout env return_not_sent t = create_dispute_auto_cancel_notifications env t
tell_timeout env return_not_received t = create_seller_received_timeout_notifications env t

-- The end of a turn of a loop; the changed row is flushed.
unfoldable pub finish_timeout : Env → Rule → Transaction → Action (Unit {0})
unfolding tell_timeout
finish_timeout env rule t = do tell_timeout env rule t; save_transaction env t

-- One turn of a loop.
unfoldable pub sweep_row : Env → Rule × Transaction → Action (Unit {0})
sweep_row env (rule, t) = do t1 ← time_out env rule t; finish_timeout env rule t1

abbrev pub tagged : Rule → List Transaction → List (Rule × Transaction)
tagged rule [] = []
tagged rule (t ∷ ts) = (rule, t) ∷ tagged rule ts

-- The rules in the order of their loops.
abbrev pub all_rules : List Rule
all_rules =
    at_door ∷ no_dispatch ∷ Deadlines.hold_release ∷ return_not_sent ∷ return_not_received ∷ []

-- The rows that are due under each rule, read before any is changed.
unfoldable pub due_under : ℕ → List Rule → Table Transaction → List (Rule × Transaction)
due_under now [] table = []
due_under now (rule ∷ rules) table =
    tagged rule (due_rows now rule table) ++ due_under now rules table

abbrev pub all_due : ℕ → Table Transaction → List (Rule × Transaction)
all_due now table = due_under now all_rules table

pub record TimeoutSweepResult : Type 0 where
  pub at_door_timeout_count : ℕ
  pub no_dispatch_timeout_count : ℕ
  pub hold_auto_release_count : ℕ
  pub dispute_buyer_sent_back_timeout_count : ℕ
  pub dispute_seller_received_timeout_count : ℕ

abbrev pub no_counts : TimeoutSweepResult
no_counts = record {
  at_door_timeout_count = 0;
  no_dispatch_timeout_count = 0;
  hold_auto_release_count = 0;
  dispute_buyer_sent_back_timeout_count = 0;
  dispute_seller_received_timeout_count = 0;
}

-- `at_door_timeout_count += 1` and so on, at the end of a turn of the rule's loop
abbrev pub count_turn : Rule → TimeoutSweepResult → TimeoutSweepResult
count_turn at_door c = record c { at_door_timeout_count = c.at_door_timeout_count + 1 }
count_turn no_dispatch c = record c { no_dispatch_timeout_count = c.no_dispatch_timeout_count + 1 }
count_turn Deadlines.hold_release c = record c {
  hold_auto_release_count = c.hold_auto_release_count + 1;
}
count_turn return_not_sent c = record c {
  dispute_buyer_sent_back_timeout_count = c.dispute_buyer_sent_back_timeout_count + 1;
}
count_turn return_not_received c = record c {
  dispute_seller_received_timeout_count = c.dispute_seller_received_timeout_count + 1;
}

-- The loops, with the counters.
unfoldable pub sweep_rows :
    Env → List (Rule × Transaction) → TimeoutSweepResult → Action TimeoutSweepResult
sweep_rows env [] counts = pure counts
sweep_rows env ((rule, t) ∷ rows) counts = do
  sweep_row env (rule, t)
  sweep_rows env rows (count_turn rule counts)

-- `if at_door_timeout_count or ...`
abbrev pub is_any_counted : TimeoutSweepResult → Bool
is_any_counted c =
    ltb 0 c.at_door_timeout_count
    || (ltb 0 c.no_dispatch_timeout_count
        || (ltb 0 c.hold_auto_release_count
            || (ltb 0 c.dispute_buyer_sent_back_timeout_count
                || ltb 0 c.dispute_seller_received_timeout_count)))

-- One commit for all loops, if a counter is not 0.
abbrev pub commit_if_any : TimeoutSweepResult → Action (Unit {0})
commit_if_any counts = if is_any_counted counts then commit else pure tt

unfoldable pub run_sweep : Env → Table Transaction → Action TimeoutSweepResult
run_sweep env table = do
  counts ← sweep_rows env (all_due env.now table) no_counts
  commit_if_any counts
  pure counts

unfoldable pub run_timeout_jobs : Env → Action TimeoutSweepResult
run_timeout_jobs env = do table ← gets (λ db. db.transactions); run_sweep env table
