-- ===== src/Lifecycle/Resolution.antt =====
-- How a seller answers a returned item: apply_seller_resolution_action of
-- app/services/transaction.py.
use vekro_backend.Base.{ℕ, Option, none, some, [], ◌∷◌, ◌++◌, strip, Text, if◌then◌else◌}
use vekro_backend.Model.Status.{
  TransactionStatus, DisputeStatus, SellerResolutionAction, is_seller, NotificationEventType,
  ActorType,
}
use vekro_backend.Model.Payload.{moment, text, history}
use vekro_backend.Model.Rows.{Transaction, Dispute, User, seller_refund}
use vekro_backend.Model.Db.{seller_resolution}
use vekro_backend.Session.{
  Env, Error, Action, pure, gets, require, commit, get_listing, save_transaction, save_dispute,
  latest_dispute, ◌>>=◌, ◌>>◌,
}
use vekro_backend.Escrow.Outbox.{system_actor, queue_refund_full}
use vekro_backend.Lifecycle.Transitions.{
  by_user, transition_transaction, record_dispute_event, guarded_transaction, in_status,
  owned_by_seller,
}
use vekro_backend.Lifecycle.Notices.{step, subject, told, notify_parties}
use vekro_backend.Lifecycle.Returns.{
  action_text, action_reason, is_refund, normalize_seller_resolution_action, policy_allows,
}

-- `_create_seller_resolution_notifications`
unfoldable pub create_seller_resolution_notifications :
    Env → Transaction → SellerResolutionAction → Action (Unit {0})
unfolding notify_parties
create_seller_resolution_notifications env t action =
    let payload =
      subject t
      ++ ("action", text (some (action_text action)))
        ∷ (
          "transition_history",
          history (
              step env TransactionStatus.return_received t.status "seller" (action_reason action)
              ∷ []),
        )
        ∷ ("refunded_at", moment t.refunded_at)
        ∷ ("released_at", moment t.released_at)
        ∷ [] in
    notify_parties t NotificationEventType.dispute_updated
      (told "Seller resolution submitted" "Seller submitted a dispute resolution action." payload)
      (told "Resolution action recorded" "Your dispute resolution action has been recorded."
        payload)

unfoldable pub apply_action : Env → User → SellerResolutionAction → Transaction → Action Transaction
unfolding transition_transaction
apply_action env seller action t =
    if is_refund action
    then (do
      t1 ←
          transition_transaction env t TransactionStatus.refunded_buyer
            (by_user seller.id (action_reason action))
      queue_refund_full env system_actor (record t1 { refunded_at = some env.now })
          (record { prefix = seller_refund; subject = t.id }))
    else transition_transaction env t TransactionStatus.awaiting_buyer_reconfirmation
        (by_user seller.id (action_reason action))

abbrev pub resolved_by_seller : Env → SellerResolutionAction → Option Text → Dispute → Dispute
resolved_by_seller env action notes d =
    let noted : Dispute = record d {
      seller_resolution_action = some action;
      seller_resolution_notes = elim notes [
        | none ↦ none
        | some [] ↦ none
        | some (c ∷ cs) ↦ some (strip (c ∷ cs))
      ];
    } in
    if is_refund action
    then record noted { status = DisputeStatus.resolved_refund; resolved_at = some env.now }
    else record noted { status = DisputeStatus.awaiting_buyer_reconfirmation }

unfoldable pub settle_dispute_by_seller :
    Env → User → SellerResolutionAction → Option Text → Option Dispute → Action (Unit {0})
unfolding record_dispute_event
settle_dispute_by_seller env seller action notes none = pure tt
settle_dispute_by_seller env seller action notes (some d) = do
  save_dispute (resolved_by_seller env action notes d)
  record_dispute_event env d (seller_resolution action) ActorType.user (some seller.id)

unfoldable pub conclude_resolution : Env → SellerResolutionAction → Transaction → Action Transaction
unfolding create_seller_resolution_notifications
conclude_resolution env selected t = do
  create_seller_resolution_notifications env t selected
  save_transaction env t
  commit
  pure t

unfoldable pub finish_resolution :
    Env → User → SellerResolutionAction → Option Text → Transaction → Action Transaction
finish_resolution env seller selected notes t = do
  latest ← gets (latest_dispute t.id)
  settle_dispute_by_seller env seller selected notes latest
  conclude_resolution env selected t

unfoldable pub resolve_with :
    Env → User → Option Text → Transaction → SellerResolutionAction → Action Transaction
resolve_with env seller notes t selected = do
  t1 ← apply_action env seller selected t
  finish_resolution env seller selected notes t1

-- What the seller asked for, if the listing's policy allows it.
unfoldable pub allowed_action : Text → Transaction → Action SellerResolutionAction
unfolding normalize_seller_resolution_action policy_allows
allowed_action action t = do
  listing ← get_listing t.listing_id Error.listing_not_found
  selected ← normalize_seller_resolution_action action
  require (policy_allows listing.allowed_seller_actions selected) Error.transaction_validation_error
  pure selected

unfoldable pub resolve_checked : Env → User → Text → Option Text → Transaction → Action Transaction
resolve_checked env seller action notes t = do
  selected ← allowed_action action t
  resolve_with env seller notes t selected

unfoldable pub apply_seller_resolution_action :
    Env → ℕ → User → Text → Option Text → Action Transaction
apply_seller_resolution_action env transaction_id seller action notes = do
  t ←
      guarded_transaction (is_seller seller.role) transaction_id Error.not_found_for_dispatch
        (owned_by_seller seller) Error.dispatch_forbidden
        (in_status TransactionStatus.return_received) Error.dispatch_invalid_state
  resolve_checked env seller action notes t
