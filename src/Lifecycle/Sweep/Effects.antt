-- ===== src/Lifecycle/Sweep/Effects.antt =====
-- What one turn of the timeout sweep does.
use vekro_backend.Base.{ℕ, ◌≡◌, arith, true, false, Option, none, some, if◌then◌else◌, ap}
use vekro_backend.Model.Status.{TransactionStatus, is_open_dispute, DisputeStatus, ActorType}
use vekro_backend.Model.Rows.{
  Transaction, Dispute, Purpose, release, refund, timeout_at_door_refund, timeout_refund,
  hold_release, dispute_timeout_release,
}
use vekro_backend.Model.Db.{escalated, auto_closed}
use vekro_backend.Session.{
  Env, Session, pure, save_dispute, latest_dispute, Tentative, Tentative-bind, ◌>>◌, ok, value-then,
}
use vekro_backend.Escrow.Outbox.{system_actor, queue_release_full, queue_refund_full}
use vekro_backend.Escrow.Outbox.Frame.{enqueue-Keeps}
use vekro_backend.Lifecycle.Transitions.{
  by_system, transition_transaction, in_status, record_dispute_event,
}
use vekro_backend.Lifecycle.Moves.{
  Act, not_accepted, not_dispatched, not_reported, not_sent_back, not_received,
}
use vekro_backend.Lifecycle.Deadlines.{
  Rule, at_door, no_dispatch, return_not_sent, return_not_received, is_due,
}
use vekro_backend.Lifecycle.Deadlines
use vekro_backend.Lifecycle.Sweep.{
  close_unsent, escalate_unreceived, release_unsent, review_unreceived, time_out,
}
use vekro_backend.Lifecycle.Effects.{Moved, transition-Move, release-Moved, refund-Moved, Step-from}
use vekro_backend.Lifecycle.Effects.Delivery.{refused-Moved}

-- The status that a rule asks for.
abbrev pub status_before : Rule → TransactionStatus
status_before at_door = TransactionStatus.at_door_pending_inspection
status_before no_dispatch = TransactionStatus.locked
status_before Deadlines.hold_release = TransactionStatus.hold_24h
status_before return_not_sent = TransactionStatus.disputed_functional
status_before return_not_received = TransactionStatus.return_in_transit

pub due_status :
    (now : ℕ) (rule : Rule) (t : Transaction)
    → is_due now rule t ≡ true
    → in_status (status_before rule) t ≡ true
unfolding is_due
due_status now at_door t h = ground arith
due_status now _ t h = ground arith

close_unsent-Moved :
    (env : Env) (latest : Option Dispute) (t t1 : Transaction) (s s1 : Session)
    → Moved Act.time_out t s t1 s1
    → Tentative s (λ _ s2. Moved Act.time_out t s t1 s2) (close_unsent env latest s1)
unfolding close_unsent
close_unsent-Moved env none t t1 s s1 m = m
close_unsent-Moved env (some d) t t1 s s1 m =
    elim (is_open_dispute d.status)
      as (λ b.
        Tentative s (λ _ s2. Moved Act.time_out t s t1 s2)
          ((if b
              then (save_dispute
                    (record d { status = DisputeStatus.canceled; resolved_at = some env.now })
                  >> record_dispute_event env d auto_closed ActorType.system none)
              else pure tt)
            s1)) [ true ↦ m | false ↦ m ]

escalate_unreceived-Moved :
    (env : Env) (latest : Option Dispute) (t t1 : Transaction) (s s1 : Session)
    → Moved Act.time_out t s t1 s1
    → Tentative s (λ _ s2. Moved Act.time_out t s t1 s2) (escalate_unreceived env latest s1)
unfolding escalate_unreceived
escalate_unreceived-Moved env none t t1 s s1 m = m
escalate_unreceived-Moved env (some d) t t1 s s1 m =
    elim (is_open_dispute d.status)
      as (λ b.
        Tentative s (λ _ s2. Moved Act.time_out t s t1 s2)
          ((if b
              then (save_dispute (record d {
                status = DisputeStatus.escalated_admin_review;
                escalated_at = some env.now;
              })
                  >> record_dispute_event env d (escalated "system" "seller_received_timeout_3d")
                      ActorType.system none)
              else pure tt)
            s1)) [ true ↦ m | false ↦ m ]

pub time_out-Moved :
    (env : Env) (rule : Rule) (t : Transaction) (s : Session)
    → in_status (status_before rule) t ≡ true
    → Tentative s (Moved Act.time_out t s) (time_out env rule t s)
unfolding time_out release_unsent review_unreceived
time_out-Moved env at_door t s i =
    refused-Moved env (by_system "at_door_timeout_1h")
      (record { prefix = timeout_at_door_refund; subject = t.id }) t s i not_accepted
time_out-Moved env no_dispatch t s i =
    let to = TransactionStatus.refunded_buyer in
    let cause = by_system "locked_no_dispatch_timeout_48h" in
    refund-Moved env system_actor (record { prefix = timeout_refund; subject = t.id }) t
      (record t {
        status = to;
        refunded_at = some env.now;
        delivery_otp_hash = none;
        otp_failed_attempts = 0;
      })
      s (transition_transaction env t to cause s).1 (transition-Move env t to cause s)
      (Step-from TransactionStatus.locked _ t i not_dispatched)
time_out-Moved env Deadlines.hold_release t s i =
    let to = TransactionStatus.released in
    let cause = by_system "hold_24h_auto_release_24h" in
    release-Moved env system_actor (record { prefix = hold_release; subject = t.id }) t
      (record t {
        status = to;
        released_at = some env.now;
        delivery_otp_hash = none;
        otp_failed_attempts = 0;
      })
      s (transition_transaction env t to cause s).1 (transition-Move env t to cause s)
      (Step-from TransactionStatus.hold_24h _ t i not_reported)
time_out-Moved env return_not_sent t s i =
    let to = TransactionStatus.released in
    let cause = by_system "dispute_buyer_sent_back_timeout_3d" in
    let t1 : Transaction = record t { status = to; released_at = some env.now } in
    let s1 = (transition_transaction env t to cause s).1 in
    let purpose : Purpose = record { prefix = dispute_timeout_release; subject = t.id } in
    Tentative-bind (close_unsent env (latest_dispute t.id s1.work))
      (λ _. queue_release_full env system_actor t1 purpose) s s1
      (λ _ s2. Moved Act.time_out t s t1 s2) (Moved Act.time_out t s)
      (close_unsent-Moved env (latest_dispute t.id s1.work) t t1 s s1 (
        transition-Move env t to cause s,
        Step-from TransactionStatus.disputed_functional _ t i not_sent_back,
      ))
      (λ _ s2 m. release-Moved env system_actor purpose t t1 s s2 m.0 m.1)
time_out-Moved env return_not_received t s i =
    let to = TransactionStatus.escalated_admin_review in
    let cause = by_system "seller_received_timeout_3d" in
    let t1 : Transaction = record t { status = to } in
    let s1 = (transition_transaction env t to cause s).1 in
    Tentative-bind (escalate_unreceived env (latest_dispute t.id s1.work)) (λ _. pure t1) s s1
      (λ _ s2. Moved Act.time_out t s t1 s2) (Moved Act.time_out t s)
      (escalate_unreceived-Moved env (latest_dispute t.id s1.work) t t1 s s1 (
        transition-Move env t to cause s,
        Step-from TransactionStatus.return_in_transit _ t i not_received,
      ))
      (λ _ s2 m. m)

-- The status that a rule leaves.
abbrev pub status_after : Rule → TransactionStatus
status_after at_door = TransactionStatus.refunded_buyer
status_after no_dispatch = TransactionStatus.refunded_buyer
status_after Deadlines.hold_release = TransactionStatus.released
status_after return_not_sent = TransactionStatus.released
status_after return_not_received = TransactionStatus.escalated_admin_review

release-status :
    (env : Env) (t : Transaction) (purpose : Purpose) (s : Session) (t' : Transaction)
    → (queue_release_full env system_actor t purpose s).0 ≡ ok t'
    → t'.status ≡ t.status
unfolding queue_release_full
release-status env t purpose s t' h =
    ap (λ x. x.status)
      (enqueue-Keeps env system_actor t purpose release t.seller_id t.amount s t' h)

refund-status :
    (env : Env) (t : Transaction) (purpose : Purpose) (s : Session) (t' : Transaction)
    → (queue_refund_full env system_actor t purpose s).0 ≡ ok t'
    → t'.status ≡ t.status
unfolding queue_refund_full
refund-status env t purpose s t' h =
    ap (λ x. x.status) (enqueue-Keeps env system_actor t purpose refund t.buyer_id t.amount s t' h)

pub time_out-status :
    (env : Env) (rule : Rule) (t : Transaction) (s : Session) (t' : Transaction)
    → (time_out env rule t s).0 ≡ ok t'
    → t'.status ≡ status_after rule
unfolding time_out release_unsent review_unreceived
time_out-status env at_door t s t' h = refund-status env _ _ _ t' h
time_out-status env no_dispatch t s t' h = refund-status env _ _ _ t' h
time_out-status env Deadlines.hold_release t s t' h = release-status env _ _ _ t' h
time_out-status env return_not_sent t s t' h =
    let to = TransactionStatus.released in
    let t1 : Transaction = record t { status = to; released_at = some env.now } in
    let s1 =
      (transition_transaction env t to (by_system "dispute_buyer_sent_back_timeout_3d") s).1 in
    let purpose : Purpose = record { prefix = dispute_timeout_release; subject = t.id } in
    let last =
      value-then (close_unsent env (latest_dispute t.id s1.work))
        (λ _. queue_release_full env system_actor t1 purpose) s1 t' h in
    release-status env t1 purpose last.1 t' last.2
time_out-status env return_not_received t s t' h =
    let to = TransactionStatus.escalated_admin_review in
    let t1 : Transaction = record t { status = to } in
    let s1 = (transition_transaction env t to (by_system "seller_received_timeout_3d") s).1 in
    let last =
      value-then (escalate_unreceived env (latest_dispute t.id s1.work)) (λ _. pure t1) s1 t' h in
    ground (arith, last.2)
