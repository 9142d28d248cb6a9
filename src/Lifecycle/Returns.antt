-- ===== src/Lifecycle/Returns.antt =====
-- Return cases: report_functional_issue, mark_buyer_sent_back and mark_seller_received of
-- app/services/transaction.py, and the words of the seller's resolution actions.
use Prim.Native.String.{String}
use vekro_backend.Base.{
  ℕ, Bool, true, false, Option, none, some, List, [], ◌∷◌, ◌++◌, codes, any, text_eq, strip,
  normalize_word, map, Text, if◌then◌else◌,
}
use vekro_backend.Model.Status.{
  TransactionStatus, DisputeStatus, DisputeType, SellerResolutionAction, refund_issued,
  repair_shipped, replacement_shipped, is_buyer, is_seller, NotificationEventType, ActorType,
  is_dispute_status,
}
use vekro_backend.Model.Payload.{uuid, word, dispute_status, dispute_type, text, history}
use vekro_backend.Model.Rows.{Transaction, Dispute, Evidence, User}
use vekro_backend.Model.Db.{DisputeEvent, opened, escalated, return_sent, return_received}
use vekro_backend.Session.{
  Env, Error, Action, pure, gets, or_raise, require, commit, new_id, get_listing, save_transaction,
  add_dispute, latest_dispute, ◌>>=◌, ◌>>◌,
}
use vekro_backend.Lifecycle.Transitions.{
  by_user, transition_transaction, record_dispute_event, guarded_transaction, in_status,
  owned_by_seller, owned_by_buyer,
}
use vekro_backend.Lifecycle.Notices.{
  step, subject, told, notify_parties, create_dispute_buyer_sent_back_notifications,
  create_seller_received_notifications,
}

-- FUNCTIONAL_ISSUE_CATEGORIES
abbrev pub functional_issue_categories : List Text
functional_issue_categories =
    codes "not_working"
    ∷ codes "damaged_on_arrival"
    ∷ codes "missing_parts"
    ∷ codes "not_as_described"
    ∷ codes "other"
    ∷ []

-- `_normalize_functional_issue_category`
unfoldable pub normalize_functional_issue_category : Text → Action Text
unfolding normalize_word
normalize_functional_issue_category category = do
  require (any (text_eq (normalize_word category)) functional_issue_categories)
      Error.transaction_validation_error
  pure (normalize_word category)

abbrev pub is_other : Text → Bool
is_other category = text_eq category (codes "other")

abbrev pub opening_status : Text → DisputeStatus
opening_status category =
    if is_other category then DisputeStatus.escalated_admin_review else DisputeStatus.open_case

abbrev pub route_of : Text → String
route_of category = if is_other category then "admin_escalation" else "seller_resolution"

-- The dispute that a report opens. `evidence` is what the buyer's request holds.
abbrev pub reported_dispute : Env → ℕ → Transaction → User → Text → Text → Evidence → Dispute
reported_dispute env id t buyer category description evidence = record {
  id = id;
  transaction_id = t.id;
  opened_by_user_id = buyer.id;
  dispute_type = DisputeType.functional;
  status = opening_status category;
  reason = category;
  description = strip description;
  seller_resolution_action = none;
  admin_decision = none;
  split_ratio = none;
  evidence = evidence;
  seller_resolution_notes = none;
  admin_reason = none;
  decided_by_user_id = none;
  escalated_at = if is_other category then some env.now else none;
  resolved_at = none;
}

-- `_create_dispute_opened_notifications`
unfoldable pub create_dispute_opened_notifications :
    Env → Transaction → Dispute → Text → String → Action (Unit {0})
unfolding notify_parties
create_dispute_opened_notifications env t d category route =
    let payload =
      subject t
      ++ ("dispute_id", uuid d.id)
        ∷ ("dispute_type", dispute_type d.dispute_type)
        ∷ ("dispute_status", dispute_status d.status)
        ∷ ("category", text (some category))
        ∷ ("route", word route)
        ∷ (
          "transition_history",
          history (
              step env TransactionStatus.hold_24h TransactionStatus.disputed_functional "buyer"
                "functional_issue_reported"
              ∷ []),
        )
        ∷ [] in
    notify_parties t NotificationEventType.dispute_opened
      (told "Functional issue reported" "Your functional issue report has been recorded." payload)
      (told "Functional issue opened"
        "Buyer reported a functional issue and dispute flow has started." payload)

-- The second dispute event of a report, for a case that goes to support at once.
unfoldable pub escalate_other : Env → Dispute → Action (Unit {0})
unfolding record_dispute_event
escalate_other env d =
    if is_dispute_status d.status DisputeStatus.escalated_admin_review
    then record_dispute_event env d (escalated "system" "other_category") ActorType.system none
    else pure tt

-- The dispute is added and its opening recorded.
unfoldable pub open_case : Env → User → Text → Dispute → Transaction → Action Transaction
unfolding transition_transaction record_dispute_event
open_case env buyer category d t = do
  t1 ←
      transition_transaction env t TransactionStatus.disputed_functional
        (by_user buyer.id "functional_issue_reported")
  add_dispute d
  record_dispute_event env d (opened category (route_of category)) ActorType.user (some buyer.id)
  escalate_other env d
  pure t1

unfoldable pub finish_report : Env → Text → Dispute → Transaction → Action Transaction
unfolding create_dispute_opened_notifications
finish_report env category d t = do
  create_dispute_opened_notifications env t d category (route_of category)
  save_transaction env t
  commit
  pure t

unfoldable pub report_as : Env → User → Text → Evidence → Transaction → Text → Action Transaction
report_as env buyer description evidence t category = do
  id ← new_id
  let d : Dispute = reported_dispute env id t buyer category description evidence
  t1 ← open_case env buyer category d t
  finish_report env category d t1

-- The category of a report on an item that is under warranty.
unfoldable pub reported_category : Text → Transaction → Action Text
unfolding normalize_functional_issue_category
reported_category category t = do
  listing ← get_listing t.listing_id Error.listing_not_found
  require listing.is_serialized Error.buyer_action_invalid_state
  normalize_functional_issue_category category

unfoldable pub report_checked :
    Env → User → Text → Text → Evidence → Transaction → Action Transaction
report_checked env buyer category description evidence t = do
  normalized ← reported_category category t
  report_as env buyer description evidence t normalized

unfoldable pub report_functional_issue :
    Env → ℕ → User → Text → Text → Evidence → Action Transaction
report_functional_issue env transaction_id buyer category description evidence = do
  t ←
      guarded_transaction (is_buyer buyer.role) transaction_id Error.not_found_for_buyer_action
        (owned_by_buyer buyer) Error.buyer_action_forbidden (in_status TransactionStatus.hold_24h)
        Error.buyer_action_invalid_state
  report_checked env buyer category description evidence t

-- `if dispute is not None: record_dispute_event(...)`
unfoldable pub record_on_latest :
    Env → ℕ → DisputeEvent → ActorType → Option ℕ → Option Dispute → Action (Unit {0})
unfolding record_dispute_event
record_on_latest env transaction_id event actor_type actor_id none = pure tt
record_on_latest env transaction_id event actor_type actor_id (some d) =
    record_dispute_event env d event actor_type actor_id

unfoldable pub finish_send_back : Env → Transaction → Action Transaction
unfolding create_dispute_buyer_sent_back_notifications
finish_send_back env t = do
  create_dispute_buyer_sent_back_notifications env t "buyer" "buyer_sent_back"
  save_transaction env t
  commit
  pure t

unfoldable pub send_back_checked : Env → User → Transaction → Action Transaction
unfolding transition_transaction
send_back_checked env buyer t = do
  t1 ←
      transition_transaction env t TransactionStatus.return_in_transit
        (by_user buyer.id "buyer_sent_back")
  sent_back ← gets (latest_dispute t.id)
  record_on_latest env t.id return_sent ActorType.user (some buyer.id) sent_back
  finish_send_back env t1

unfoldable pub mark_buyer_sent_back : Env → ℕ → User → Action Transaction
unfolding send_back_checked
mark_buyer_sent_back env transaction_id buyer = do
  t ←
      guarded_transaction (is_buyer buyer.role) transaction_id Error.not_found_for_buyer_action
        (owned_by_buyer buyer) Error.buyer_action_forbidden
        (in_status TransactionStatus.disputed_functional) Error.buyer_action_invalid_state
  send_back_checked env buyer t

unfoldable pub finish_receipt : Env → Transaction → Action Transaction
unfolding create_seller_received_notifications
finish_receipt env t = do
  create_seller_received_notifications env t
  save_transaction env t
  commit
  pure t

unfoldable pub receive_checked : Env → User → Transaction → Action Transaction
unfolding transition_transaction
receive_checked env seller t = do
  t1 ←
      transition_transaction env t TransactionStatus.return_received
        (by_user seller.id "seller_received")
  received ← gets (latest_dispute t.id)
  record_on_latest env t.id return_received ActorType.user (some seller.id) received
  finish_receipt env t1

unfoldable pub mark_seller_received : Env → ℕ → User → Action Transaction
unfolding receive_checked
mark_seller_received env transaction_id seller = do
  t ←
      guarded_transaction (is_seller seller.role) transaction_id Error.not_found_for_dispatch
        (owned_by_seller seller) Error.dispatch_forbidden
        (in_status TransactionStatus.return_in_transit) Error.dispatch_invalid_state
  receive_checked env seller t

abbrev pub action_text : SellerResolutionAction → Text
action_text refund_issued = codes "refund_issued"
action_text repair_shipped = codes "repair_shipped"
action_text replacement_shipped = codes "replacement_shipped"

abbrev pub action_reason : SellerResolutionAction → String
action_reason refund_issued = "seller_resolution_refund_issued"
action_reason repair_shipped = "seller_resolution_repair_shipped"
action_reason replacement_shipped = "seller_resolution_replacement_shipped"

abbrev pub is_refund : SellerResolutionAction → Bool
is_refund refund_issued = true
is_refund _ = false

-- SELLER_RESOLUTION_ACTION_MAP
unfoldable pub action_of : Text → Option SellerResolutionAction
action_of s =
    if text_eq s (action_text refund_issued)
    then some refund_issued
    else if text_eq s (action_text repair_shipped)
    then some repair_shipped
    else if text_eq s (action_text replacement_shipped)
    then some replacement_shipped
    else none

-- `_normalize_seller_resolution_action`
unfoldable pub normalize_seller_resolution_action : Text → Action SellerResolutionAction
unfolding normalize_word action_of
normalize_seller_resolution_action action s =
    or_raise (action_of (normalize_word action)) Error.transaction_validation_error s

-- Whether the listing's policy allows the action: no list, or an empty one, allows any.
unfoldable pub policy_allows : Option (List Text) → SellerResolutionAction → Bool
unfolding normalize_word
policy_allows none action = true
policy_allows (some []) action = true
policy_allows (some (a ∷ more)) action =
    any (text_eq (action_text action)) (map normalize_word (a ∷ more))
