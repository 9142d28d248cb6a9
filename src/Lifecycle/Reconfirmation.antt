-- ===== src/Lifecycle/Reconfirmation.antt =====
-- How a buyer answers a repair or a replacement: submit_buyer_reconfirmation of
-- app/services/transaction.py.
use Prim.Native.String.{String}
use vekro_backend.Base.{
  ℕ, ◌+◌, ltb, Bool, true, false, Option, none, some, [], ◌∷◌, ◌++◌, strip, get_or, Text,
  if◌then◌else◌,
}
use vekro_backend.Model.Status.{
  TransactionStatus, DisputeStatus, is_buyer, NotificationEventType, ActorType, is_dispute_status,
}
use vekro_backend.Model.Payload.{flag, count, history}
use vekro_backend.Model.Rows.{Transaction, Dispute, User, reconfirm_release}
use vekro_backend.Model.Db.{escalated, buyer_reconfirmation}
use vekro_backend.Session.{
  Env, Error, Action, pure, gets, commit, save_transaction, save_dispute, latest_dispute, ◌>>=◌,
  ◌>>◌,
}
use vekro_backend.Escrow.Outbox.{system_actor, queue_release_full}
use vekro_backend.Lifecycle.Transitions.{
  by_user, transition_transaction, record_dispute_event, guarded_transaction, in_status,
  owned_by_buyer,
}
use vekro_backend.Lifecycle.Notices.{step, subject, told, notify_parties}

-- `_get_reconfirm_rejection_count`; a value that is no number of rejections counts as none.
abbrev pub reconfirm_rejection_count : Option Dispute → ℕ
reconfirm_rejection_count none = 0
reconfirm_rejection_count (some d) = get_or d.evidence.buyer_reconfirm_rejection_count 0

abbrev pub buyer_reconfirmation_retry_limit : ℕ
buyer_reconfirmation_retry_limit = 1

-- The three outcomes of a reconfirmation.
pub data Verdict : Type 0 where
  accept retry escalate : Verdict

abbrev pub verdict_of : Bool → ℕ → Verdict
verdict_of true prior_rejections = accept
verdict_of false prior_rejections =
    if ltb prior_rejections buyer_reconfirmation_retry_limit then retry else escalate

unfoldable pub reconfirm_transaction : Env → User → Verdict → Transaction → Action Transaction
unfolding transition_transaction
reconfirm_transaction env buyer accept t = do
  t1 ←
      transition_transaction env t TransactionStatus.resolved_release
        (by_user buyer.id "buyer_reconfirmed_accepted")
  queue_release_full env system_actor (record t1 { released_at = some env.now })
      (record { prefix = reconfirm_release; subject = t.id })
reconfirm_transaction env buyer retry t =
    transition_transaction env t TransactionStatus.return_received
      (by_user buyer.id "buyer_reconfirmed_rejected")
reconfirm_transaction env buyer escalate t =
    transition_transaction env t TransactionStatus.escalated_admin_review
      (by_user buyer.id "reconfirm_retry_limit")

-- `_set_reconfirm_rejection_count`
abbrev pub set_reconfirm_rejection_count : ℕ → Dispute → Dispute
set_reconfirm_rejection_count n d = record d {
  evidence = record (d.evidence) { buyer_reconfirm_rejection_count = some n };
}

unfoldable pub reconfirm_dispute : Env → Verdict → ℕ → Dispute → Dispute
reconfirm_dispute env accept prior d = record d {
  status = DisputeStatus.resolved_release;
  resolved_at = some env.now;
}
reconfirm_dispute env retry prior d = record (set_reconfirm_rejection_count (prior + 1) d) {
  status = DisputeStatus.return_received;
}
reconfirm_dispute env escalate prior d = record (set_reconfirm_rejection_count (prior + 1) d) {
  status = DisputeStatus.escalated_admin_review;
  escalated_at = some env.now;
}

-- `if dispute is not None and notes`
abbrev pub note_reconfirmation : Option Text → Dispute → Dispute
note_reconfirmation (some (c ∷ cs)) d = record d {
  evidence = record (d.evidence) { buyer_reconfirm_notes = some (strip (c ∷ cs)) };
}
note_reconfirmation _ d = d

-- The second event of a case that the retry limit sends to support.
unfoldable pub escalate_over_limit : Env → Dispute → Action (Unit {0})
unfolding record_dispute_event
escalate_over_limit env d =
    if is_dispute_status d.status DisputeStatus.escalated_admin_review
    then record_dispute_event env d (escalated "system" "reconfirm_retry_limit") ActorType.system
        none
    else pure tt

-- The dispute with the buyer's answer written down.
unfoldable pub reconfirmed_dispute : Env → Bool → Option Text → Dispute → Dispute
unfolding reconfirm_dispute
reconfirmed_dispute env accepted notes d =
    let prior = reconfirm_rejection_count (some d) in
    note_reconfirmation notes (reconfirm_dispute env (verdict_of accepted prior) prior d)

unfoldable pub settle_dispute_by_buyer :
    Env → User → Bool → Option Text → Option Dispute → Action (Unit {0})
unfolding record_dispute_event reconfirmed_dispute
settle_dispute_by_buyer env buyer accepted notes none = pure tt
settle_dispute_by_buyer env buyer accepted notes (some d) = do
  let d1 : Dispute = reconfirmed_dispute env accepted notes d
  save_dispute d1
  record_dispute_event env d1 (buyer_reconfirmation accepted (reconfirm_rejection_count (some d1)))
      ActorType.user (some buyer.id)
  escalate_over_limit env d1

abbrev pub verdict_status : Verdict → TransactionStatus
verdict_status accept = TransactionStatus.resolved_release
verdict_status retry = TransactionStatus.return_received
verdict_status escalate = TransactionStatus.escalated_admin_review

abbrev pub verdict_reason : Verdict → String
verdict_reason accept = "buyer_reconfirmation_accepted"
verdict_reason retry = "buyer_reconfirmation_rejected_retry"
verdict_reason escalate = "buyer_reconfirmation_rejected_escalated"

-- `_create_buyer_reconfirmation_notifications`
unfoldable pub create_buyer_reconfirmation_notifications :
    Env → Transaction → Bool → ℕ → Action (Unit {0})
unfolding notify_parties
create_buyer_reconfirmation_notifications env t accepted prior_rejections =
    let verdict = verdict_of accepted prior_rejections in
    let payload =
      subject t
      ++ ("accepted", flag accepted)
        ∷ ("prior_rejections", count prior_rejections)
        ∷ (
          "transition_history",
          history (
              step env TransactionStatus.awaiting_buyer_reconfirmation (verdict_status verdict)
                "buyer" (verdict_reason verdict)
              ∷ []),
        )
        ∷ [] in
    notify_parties t NotificationEventType.dispute_updated
      (told "Buyer reconfirmation recorded" "Your reconfirmation response has been recorded."
        payload)
      (told "Buyer reconfirmation update"
        "Buyer reconfirmation response has updated the dispute state." payload)

unfoldable pub conclude_reconfirmation : Env → Bool → ℕ → Transaction → Action Transaction
unfolding create_buyer_reconfirmation_notifications
conclude_reconfirmation env accepted prior t = do
  create_buyer_reconfirmation_notifications env t accepted prior
  save_transaction env t
  commit
  pure t

unfoldable pub finish_reconfirmation :
    Env → User → Bool → Option Text → Option Dispute → Transaction → Action Transaction
finish_reconfirmation env buyer accepted notes latest t = do
  settle_dispute_by_buyer env buyer accepted notes latest
  conclude_reconfirmation env accepted (reconfirm_rejection_count latest) t

unfoldable pub reconfirm_checked :
    Env → User → Bool → Option Text → Transaction → Action Transaction
reconfirm_checked env buyer accepted notes t = do
  latest ← gets (latest_dispute t.id)
  t1 ← reconfirm_transaction env buyer (verdict_of accepted (reconfirm_rejection_count latest)) t
  finish_reconfirmation env buyer accepted notes latest t1

unfoldable pub submit_buyer_reconfirmation :
    Env → ℕ → User → Bool → Option Text → Action Transaction
submit_buyer_reconfirmation env transaction_id buyer accepted notes = do
  t ←
      guarded_transaction (is_buyer buyer.role) transaction_id Error.not_found_for_buyer_action
        (owned_by_buyer buyer) Error.buyer_action_forbidden
        (in_status TransactionStatus.awaiting_buyer_reconfirmation) Error.buyer_action_invalid_state
  reconfirm_checked env buyer accepted notes t
