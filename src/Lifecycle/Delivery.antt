-- ===== src/Lifecycle/Delivery.antt =====
-- Dispatch, arrival and the delivery code: dispatch_transaction, mark_transaction_arrived,
-- confirm_buyer_delivery_otp and withhold_buyer_delivery_otp of app/services/transaction.py.
pub mod Secret
use Prim.Native.String.{String}
use vekro_backend.Base.{
  ℕ, ◌+◌, ◌==◌, Bool, false, Option, none, some, List, [], ◌∷◌, codes, any, text_eq, strip,
  non_empty, get_or, lookup, Text, if◌then◌else◌,
}
use vekro_backend.Model.Status.{TransactionStatus, is_buyer, is_seller}
use vekro_backend.Model.Payload.{TransitionStep}
use vekro_backend.Model.Rows.{Transaction, Listing, User, tx_release, tx_refund}
use vekro_backend.Session.{
  Env, Error, Action, pure, raise, gets, require, commit, get_listing, save_transaction, ◌>>=◌,
  ◌>>◌,
}
use vekro_backend.Escrow.Outbox.{system_actor, queue_release_full, queue_refund_full}
use vekro_backend.Lifecycle.Transitions.{
  Cause, by_user, transition_transaction, guarded_transaction, in_status, owned_by_seller,
  owned_by_buyer,
}
use vekro_backend.Lifecycle.Notices.{
  step, create_dispatched_notifications, create_arrival_notifications,
  create_otp_given_notifications, create_otp_withheld_notifications,
}

unfoldable pub dispatch_checked : Env → User → Transaction → Action Transaction
unfolding transition_transaction create_dispatched_notifications
dispatch_checked env seller t = do
  t1 ←
      transition_transaction env t TransactionStatus.out_for_delivery
        (by_user seller.id "seller_dispatched")
  let t2 : Transaction = record t1 { dispatched_at = some env.now }
  create_dispatched_notifications t2
  save_transaction env t2
  commit
  pure t2

unfoldable pub dispatch_transaction : Env → ℕ → User → Action Transaction
unfolding dispatch_checked
dispatch_transaction env transaction_id seller = do
  t ←
      guarded_transaction (is_seller seller.role) transaction_id Error.not_found_for_dispatch
        (owned_by_seller seller) Error.dispatch_forbidden (in_status TransactionStatus.locked)
        Error.dispatch_invalid_state
  dispatch_checked env seller t

unfoldable pub arrive_checked : Env → User → Transaction → Action Transaction
unfolding transition_transaction create_arrival_notifications
arrive_checked env seller t = do
  let delivery_otp = env.generated_otp
  t1 ←
      transition_transaction env t TransactionStatus.at_door_pending_inspection
        (by_user seller.id "seller_arrived")
  let t2 : Transaction = record t1 {
    at_door_at = some env.now;
    delivery_otp_hash = some (env.hmac delivery_otp);
    otp_failed_attempts = 0;
  }
  create_arrival_notifications t2 delivery_otp
  save_transaction env t2
  commit
  pure t2

unfoldable pub mark_transaction_arrived : Env → ℕ → User → Action Transaction
unfolding arrive_checked
mark_transaction_arrived env transaction_id seller = do
  t ←
      guarded_transaction (is_seller seller.role) transaction_id Error.not_found_for_arrival
        (owned_by_seller seller) Error.arrival_forbidden
        (in_status TransactionStatus.out_for_delivery) Error.arrival_invalid_state
  arrive_checked env seller t

-- `_verify_delivery_otp`
abbrev pub verify_delivery_otp : Env → Text → Option ℕ → Bool
verify_delivery_otp env otp_code none = false
verify_delivery_otp env otp_code (some otp_hash) = env.hmac otp_code == otp_hash

-- A wrong code is counted, and the count is committed before the exception.
unfoldable pub reject_otp : Env → Transaction → Action Transaction
reject_otp env t = do
  save_transaction env (record t { otp_failed_attempts = t.otp_failed_attempts + 1 })
  commit
  raise Error.invalid_otp

unfoldable pub hold_item : Env → User → Transaction → Action Transaction
unfolding transition_transaction
hold_item env buyer t = do
  t1 ← transition_transaction env t TransactionStatus.hold_24h (by_user buyer.id "otp_confirmed")
  pure (record t1 { hold_started_at = some env.now; released_at = none })

unfoldable pub release_item : Env → User → Transaction → Action Transaction
unfolding transition_transaction
release_item env buyer t = do
  t1 ← transition_transaction env t TransactionStatus.released (by_user buyer.id "otp_confirmed")
  queue_release_full env system_actor
      (record t1 { released_at = some env.now; hold_started_at = none })
      (record { prefix = tx_release; subject = t.id })

-- A serialized item is held for a day; any other is paid out at once.
unfoldable pub hold_or_release : Env → User → Listing → Transaction → Action Transaction
hold_or_release env buyer listing t s =
    if listing.is_serialized then hold_item env buyer t s else release_item env buyer t s

unfoldable pub finish_otp : Env → Transaction → Action Transaction
unfolding create_otp_given_notifications
finish_otp env t = do
  let t1 : Transaction = record t { delivery_otp_hash = none; otp_failed_attempts = 0 }
  create_otp_given_notifications t1
  save_transaction env t1
  commit
  pure t1

unfoldable pub accept_otp : Env → User → Listing → Transaction → Action Transaction
unfolding finish_otp
accept_otp env buyer listing t = do t1 ← hold_or_release env buyer listing t; finish_otp env t1

unfoldable pub check_code : Env → User → Text → Transaction → Listing → Action Transaction
check_code env buyer otp_code t listing =
    if verify_delivery_otp env otp_code t.delivery_otp_hash
    then accept_otp env buyer listing t
    else reject_otp env t

unfoldable pub confirm_checked : Env → User → Text → Transaction → Action Transaction
confirm_checked env buyer otp_code t = do
  listing ← get_listing t.listing_id Error.listing_not_found
  check_code env buyer otp_code t listing

unfoldable pub confirm_buyer_delivery_otp : Env → ℕ → User → Text → Action Transaction
unfolding confirm_checked
confirm_buyer_delivery_otp env transaction_id buyer otp_code = do
  t ←
      guarded_transaction (is_buyer buyer.role) transaction_id Error.not_found_for_buyer_action
        (owned_by_buyer buyer) Error.buyer_action_forbidden
        (in_status TransactionStatus.at_door_pending_inspection) Error.buyer_action_invalid_state
  confirm_checked env buyer otp_code t

-- The keys of DOOR_REJECT_REASON_LABELS
abbrev pub door_reject_reasons : List Text
door_reject_reasons =
    codes "damaged"
    ∷ codes "wrong_item"
    ∷ codes "not_as_described"
    ∷ codes "missing_parts"
    ∷ codes "other"
    ∷ []

abbrev pub declared_reasons : Option Listing → Option (List Text)
declared_reasons none = none
declared_reasons (some listing) = listing.door_reject_reasons

-- An empty list counts as none declared; a declared list always allows "other".
abbrev pub allowed_reasons : Option (List Text) → List Text
allowed_reasons none = door_reject_reasons
allowed_reasons (some []) = door_reject_reasons
allowed_reasons (some (r ∷ rs)) = codes "other" ∷ r ∷ rs

-- `_validated_door_reason`
unfoldable pub validated_door_reason : Option Listing → Option Text → Action (Option Text)
validated_door_reason listing none = pure none
validated_door_reason listing (some reason) = do
  require (any (text_eq reason) (allowed_reasons (declared_reasons listing)))
      Error.transaction_validation_error
  pure (some reason)

abbrev pub withheld_steps : Env → String → String → List TransitionStep
withheld_steps env initiated_by reason =
    step env TransactionStatus.at_door_pending_inspection TransactionStatus.return_in_transit
      initiated_by reason
    ∷ step env TransactionStatus.return_in_transit TransactionStatus.returned_to_seller initiated_by
        reason
    ∷ step env TransactionStatus.returned_to_seller TransactionStatus.refunded_buyer initiated_by
        reason
    ∷ []

-- `_apply_withheld_return_refund_flow`: three transitions in one go. The cause names the actor.
unfoldable pub apply_withheld_return_refund_flow : Env → Transaction → Cause → Action Transaction
unfolding transition_transaction
apply_withheld_return_refund_flow env t cause = do
  let c : Cause = record cause { door_rejection_reason = t.door_rejection_reason }
  t1 ← transition_transaction env t TransactionStatus.return_in_transit c
  t2 ← transition_transaction env t1 TransactionStatus.returned_to_seller c
  t3 ← transition_transaction env t2 TransactionStatus.refunded_buyer c
  pure (record t3 { refunded_at = some env.now; delivery_otp_hash = none; otp_failed_attempts = 0 })

-- `(note or "").strip() or None`
abbrev pub door_note : Option Text → Option Text
door_note note = non_empty (strip (get_or note []))

-- The whole move of a refusal: the item goes back and the refund is queued.
unfoldable pub refuse_item : Env → User → Transaction → Action Transaction
unfolding apply_withheld_return_refund_flow
refuse_item env buyer t = do
  t1 ← apply_withheld_return_refund_flow env t (by_user buyer.id "otp_withheld")
  queue_refund_full env system_actor t1 (record { prefix = tx_refund; subject = t.id })

unfoldable pub finish_refusal : Env → Transaction → Action Transaction
unfolding create_otp_withheld_notifications
finish_refusal env t = do
  create_otp_withheld_notifications t (withheld_steps env "buyer" "otp_withheld") "buyer"
      "otp_withheld"
  save_transaction env t
  commit
  pure t

unfoldable pub withhold_for :
    Env → User → Option Text → Transaction → Option Text → Action Transaction
withhold_for env buyer note t door_reason = do
  t1 ←
      refuse_item env buyer
        (record t { door_rejection_reason = door_reason; door_rejection_note = door_note note })
  finish_refusal env t1

unfoldable pub withhold_checked :
    Env → User → Option Text → Option Text → Transaction → Action Transaction
withhold_checked env buyer reason note t = do
  listing ← gets (λ db. lookup t.listing_id db.listings)
  door_reason ← validated_door_reason listing reason
  withhold_for env buyer note t door_reason

unfoldable pub withhold_buyer_delivery_otp :
    Env → ℕ → User → Option Text → Option Text → Action Transaction
unfolding withhold_checked
withhold_buyer_delivery_otp env transaction_id buyer reason note = do
  t ←
      guarded_transaction (is_buyer buyer.role) transaction_id Error.not_found_for_buyer_action
        (owned_by_buyer buyer) Error.buyer_action_forbidden
        (in_status TransactionStatus.at_door_pending_inspection) Error.buyer_action_invalid_state
  withhold_checked env buyer reason note t
