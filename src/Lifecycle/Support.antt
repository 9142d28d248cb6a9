-- ===== src/Lifecycle/Support.antt =====
-- Vekro support: escalate_dispute of app/services/dispute_escalation.py and
-- force_resolve_dispute_case of app/services/dispute.py.
use Prim.Native.String.{String}
use vekro_backend.Base.{
  ℕ, ◌==◌, Bool, true, false, not, Option, none, some, [], ◌∷◌, ◌++◌, is_empty, strip, first, Text,
  if◌then◌else◌,
}
use vekro_backend.Model.Status.{
  TransactionStatus, DisputeStatus, is_dispute_status, AdminDecision, NotificationEventType,
  ActorType,
}
use vekro_backend.Model.Payload.{word, uuid, text, status, dispute_status, history}
use vekro_backend.Model.Rows.{
  Transaction, Dispute, User, admin_refund, admin_release, admin_split_release, admin_split_refund,
}
use vekro_backend.Model.Db.{escalated, decision}
use vekro_backend.Session.{
  Env, Error, Result, Action, ok, err, pure, gets, or_raise, require, commit, get_transaction,
  save_transaction, save_dispute, latest_dispute, record_anchor_event, record_money_audit_event,
  ◌>>=◌, ◌>>◌,
}
use vekro_backend.Escrow.Outbox.{Actor, queue_refund_full, queue_release_full}
use vekro_backend.Escrow.Split.{queue_split_payout, split_amounts}
use vekro_backend.Lifecycle.Transitions.{
  Cause, by_user, transition_transaction, record_dispute_event, in_status,
}
use vekro_backend.Lifecycle.Notices.{step, subject, told, notify_parties}

-- OPEN_CASE
abbrev pub is_open_case : TransactionStatus → Bool
is_open_case TransactionStatus.disputed_functional = true
is_open_case TransactionStatus.return_in_transit = true
is_open_case TransactionStatus.return_received = true
is_open_case TransactionStatus.awaiting_buyer_reconfirmation = true
is_open_case _ = false

pub data Party : Type 0 where
  the_buyer the_seller : Party

abbrev pub party_name : Party → String
party_name the_buyer = "buyer"
party_name the_seller = "seller"

-- The role of the caller; `none` is a stranger.
abbrev pub party_of : User → Transaction → Option Party
party_of user t =
    if user.id == t.buyer_id
    then some the_buyer
    else if user.id == t.seller_id
    then some the_seller
    else none

-- What the recipient is told, by who asked.
abbrev escalation_message : Party → Party → String
escalation_message the_buyer the_buyer =
    "You asked Vekro support to review this case. The money stays in escrow until they decide."
escalation_message the_seller the_seller =
    "You asked Vekro support to review this case. The money stays in escrow until they decide."
escalation_message the_seller the_buyer =
    "The buyer asked Vekro support to review this case. The money stays in escrow until they decide."
escalation_message the_buyer the_seller =
    "The seller asked Vekro support to review this case. The money stays in escrow until they decide."

-- The notifications at the end of escalate_dispute.
unfoldable pub create_escalation_notifications :
    Env → Transaction → TransactionStatus → Party → Action (Unit {0})
unfolding notify_parties
create_escalation_notifications env t previous role =
    let payload =
      subject t
      ++ ("escalated_by", word (party_name role))
        ∷ (
          "transition_history",
          history (
              step env previous TransactionStatus.escalated_admin_review (party_name role)
                "party_escalated"
              ∷ []),
        )
        ∷ [] in
    notify_parties t NotificationEventType.dispute_updated
      (told "Sent to Vekro support" (escalation_message the_buyer role)
        (payload ++ ("recipient", word "buyer") ∷ []))
      (told "Sent to Vekro support" (escalation_message the_seller role)
        (payload ++ ("recipient", word "seller") ∷ []))

unfoldable pub finish_escalation :
    Env → User → TransactionStatus → Party → Dispute → Transaction → Action Transaction
unfolding record_dispute_event create_escalation_notifications
finish_escalation env user previous role d t = do
  let d1 : Dispute = record d {
    status = DisputeStatus.escalated_admin_review;
    escalated_at = some env.now;
  }
  save_dispute d1
  record_dispute_event env d1 (escalated (party_name role) "party_escalated") ActorType.user
      (some user.id)
  create_escalation_notifications env t previous role
  save_transaction env t
  commit
  pure t

unfoldable pub escalate_case : Env → User → Party → Transaction → Dispute → Action Transaction
unfolding transition_transaction
escalate_case env user role t d = do
  t1 ←
      transition_transaction env t TransactionStatus.escalated_admin_review
        (by_user user.id "party_escalated")
  finish_escalation env user t.status role d t1

unfoldable pub escalate_checked : Env → User → Transaction → Party → Action Transaction
escalate_checked env user t role = do
  require (is_open_case t.status) Error.escalation_invalid_state
  latest ← gets (latest_dispute t.id)
  d ← or_raise latest Error.escalation_invalid_state
  escalate_case env user role t d

unfoldable pub escalate_as_party : Env → User → Transaction → Action Transaction
escalate_as_party env user t = do
  role ← or_raise (party_of user t) Error.escalation_forbidden
  escalate_checked env user t role

unfoldable pub escalate_dispute : Env → ℕ → User → Action Transaction
escalate_dispute env transaction_id user = do
  t ← get_transaction transaction_id Error.escalation_not_found
  escalate_as_party env user t

-- What a decision queued: the release and the refund of the admin_decision event.
pub record Payouts : Type 0 where
  pub transaction : Transaction
  pub split_ratio : Option ℕ
  pub release_amount : Option ℕ
  pub refund_amount : Option ℕ
  pub status : DisputeStatus

abbrev pub by_admin : Option ℕ → Cause
by_admin id = record {
  actor_type = ActorType.admin;
  actor_id = id;
  reason = "admin_decision";
  door_rejection_reason = none;
}

abbrev pub admin_actor : Option ℕ → Actor
admin_actor id = record { actor_type = ActorType.admin; actor_id = id }

-- `(seller_share or Decimal("0.5")).quantize(Decimal("0.0001"))`: a share of zero counts as none.
abbrev pub chosen_ratio : Option ℕ → ℕ
chosen_ratio none = 5000
chosen_ratio (some share) = if share == 0 then 5000 else share

-- A split that the custody cannot pay is reported as the case's own error.
abbrev pub as_case_error : Error → Error
as_case_error Error.split_payout_unsupported = Error.dispute_split_unsupported
as_case_error e = e

abbrev pub as_dispute_error : {A : Type 0} → Result A → Result A
as_dispute_error (err e) = err (as_case_error e)
as_dispute_error (ok a) = ok a

unfoldable pub split_for_case : Env → Option ℕ → ℕ → ℕ → Transaction → Action Transaction
split_for_case env actor_id dispute_id ratio t s =
    let (r, s') =
      queue_split_payout env (admin_actor actor_id) t
        (record { prefix = admin_split_release; subject = dispute_id })
        (record { prefix = admin_split_refund; subject = dispute_id }) ratio s in
    (as_dispute_error r, s')

abbrev pub refund_decided : Transaction → Transaction → Action Payouts
refund_decided t t1 = pure (record {
  transaction = t1;
  split_ratio = none;
  release_amount = none;
  refund_amount = some t.amount;
  status = DisputeStatus.resolved_refund;
})

abbrev pub release_decided : Transaction → Transaction → Action Payouts
release_decided t t1 = pure (record {
  transaction = t1;
  split_ratio = none;
  release_amount = some t.amount;
  refund_amount = none;
  status = DisputeStatus.resolved_release;
})

unfoldable pub split_decided : Env → Option ℕ → Transaction → ℕ → Transaction → Action Payouts
unfolding transition_transaction
split_decided env actor_id t ratio t1 = do
  t2 ← transition_transaction env t1 TransactionStatus.resolved_split (by_admin actor_id)
  let amounts = split_amounts t.amount ratio
  pure (record {
    transaction = record t2 { released_at = some env.now; refunded_at = some env.now };
    split_ratio = some ratio;
    release_amount = some amounts.0;
    refund_amount = some amounts.1;
    status = DisputeStatus.resolved_split;
  })

-- The branch of a decision.
unfoldable pub decide_case :
    Env → Option ℕ → AdminDecision → Option ℕ → ℕ → Transaction → Action Payouts
unfolding transition_transaction split_decided
decide_case env actor_id AdminDecision.refund seller_share dispute_id t = do
  t1 ← transition_transaction env t TransactionStatus.resolved_refund (by_admin actor_id)
  t2 ←
      queue_refund_full env (admin_actor actor_id) (record t1 { refunded_at = some env.now })
        (record { prefix = admin_refund; subject = dispute_id })
  refund_decided t t2
decide_case env actor_id AdminDecision.release seller_share dispute_id t = do
  t1 ← transition_transaction env t TransactionStatus.resolved_release (by_admin actor_id)
  t2 ←
      queue_release_full env (admin_actor actor_id) (record t1 { released_at = some env.now })
        (record { prefix = admin_release; subject = dispute_id })
  release_decided t t2
decide_case env actor_id AdminDecision.split seller_share dispute_id t = do
  let ratio = chosen_ratio seller_share
  t1 ← split_for_case env actor_id dispute_id ratio t
  split_decided env actor_id t ratio t1

abbrev pub decided_dispute : Env → Option ℕ → AdminDecision → Text → Payouts → Dispute → Dispute
decided_dispute env actor_id choice reason payouts d = record d {
  status = payouts.status;
  split_ratio = payouts.split_ratio;
  admin_decision = some choice;
  admin_reason = some reason;
  decided_by_user_id = actor_id;
  resolved_at = some env.now;
}

abbrev pub decision_word : AdminDecision → String
decision_word AdminDecision.refund = "refund"
decision_word AdminDecision.release = "release"
decision_word AdminDecision.split = "split"

abbrev pub audit_action : AdminDecision → String
audit_action AdminDecision.refund = "admin_force_resolve_refund"
audit_action AdminDecision.release = "admin_force_resolve_release"
audit_action AdminDecision.split = "admin_force_resolve_split"

abbrev decision_message : AdminDecision → String
decision_message AdminDecision.refund = "Dispute was resolved by admin as refund."
decision_message AdminDecision.release = "Dispute was resolved by admin as release."
decision_message AdminDecision.split = "Dispute was resolved by admin as split."

-- `_create_admin_decision_notifications`
unfoldable pub create_admin_decision_notifications :
    Transaction
    → Dispute
    → AdminDecision
    → Text
    → TransactionStatus
    → DisputeStatus
    → Action (Unit {0})
unfolding notify_parties
create_admin_decision_notifications t d choice reason prior_status prior_dispute_status =
    let payload =
      ("decision", word (decision_word choice))
      ∷ ("reason", text (some reason))
      ∷ ("dispute_id", uuid d.id)
      ∷ ("transaction_from", status prior_status)
      ∷ ("transaction_to", status t.status)
      ∷ ("dispute_from", dispute_status prior_dispute_status)
      ∷ ("dispute_to", dispute_status d.status)
      ∷ [] in
    let notice = told "Admin dispute decision" (decision_message choice) payload in
    notify_parties t NotificationEventType.admin_decision notice notice

abbrev pub has_id : ℕ → Dispute → Bool
has_id id d = d.id == id

-- What is written down of a decision, and its end.
unfoldable pub finish_decision :
    Env
    → AdminDecision
    → Text
    → Option ℕ
    → Dispute
    → TransactionStatus
    → Payouts
    → Action Transaction
unfolding create_admin_decision_notifications
finish_decision env choice reason actor_id d prior_status payouts = do
  let d1 : Dispute = decided_dispute env actor_id choice reason payouts d
  save_dispute d1
  record_anchor_event (some d.transaction_id) (
      decision d.id choice actor_id payouts.split_ratio payouts.release_amount
        payouts.refund_amount)
  record_money_audit_event (record {
    action = audit_action choice;
    actor_type = ActorType.admin;
    actor_id = actor_id;
    transaction_id = some payouts.transaction.id;
    escrow_id = none;
    attempt_id = none;
    amount = some payouts.transaction.amount;
  })
  create_admin_decision_notifications payouts.transaction d1 choice reason prior_status d.status
  save_transaction env payouts.transaction
  commit
  pure payouts.transaction

unfoldable pub resolve_case :
    Env → AdminDecision → Text → Option ℕ → Option ℕ → Dispute → Transaction → Action Transaction
resolve_case env choice reason actor_id seller_share d t = do
  payouts ←
      decide_case env actor_id choice seller_share d.id
        (record t { released_at = none; refunded_at = none })
  finish_decision env choice reason actor_id d t.status payouts

-- The case and its transaction, both under review.
unfoldable pub reviewed_case : ℕ → Text → Action (Dispute × Transaction)
reviewed_case dispute_id reason = do
  require (not (is_empty (strip reason))) Error.decision_reason_required
  found ← gets (λ db. first (has_id dispute_id) db.disputes)
  d ← or_raise found Error.dispute_case_not_found
  t ← get_transaction d.transaction_id Error.dispute_case_not_found
  require (is_dispute_status d.status DisputeStatus.escalated_admin_review)
      Error.dispute_case_invalid_state
  require (in_status TransactionStatus.escalated_admin_review t) Error.dispute_case_invalid_state
  pure (d, t)

unfoldable pub force_resolve_dispute_case :
    Env → ℕ → AdminDecision → Text → Option ℕ → Option ℕ → Action Transaction
force_resolve_dispute_case env dispute_id choice reason actor_id seller_share = do
  (d, t) ← reviewed_case dispute_id reason
  resolve_case env choice (strip reason) actor_id seller_share d t
