-- ===== src/Lifecycle/Closure.antt =====
-- Closing a resolved case: submit_buyer_resolution_confirmation and
-- submit_seller_resolution_confirmation of app/services/transaction.py.
use Prim.Native.String.{String}
use vekro_backend.Base.{
  ℕ, Bool, true, false, Option, some, [], ◌∷◌, ◌++◌, get_or, or_else, if◌then◌else◌,
}
use vekro_backend.Model.Status.{
  TransactionStatus, is_buyer, is_seller, NotificationEventType, ActorType,
}
use vekro_backend.Model.Payload.{word, flag, history}
use vekro_backend.Model.Rows.{Transaction, Dispute, User}
use vekro_backend.Model.Db.{resolution_confirmed}
use vekro_backend.Session.{
  Env, Error, Action, pure, gets, or_raise, commit, save_dispute, latest_dispute, ◌>>=◌, ◌>>◌,
}
use vekro_backend.Lifecycle.Transitions.{
  record_dispute_event, guarded_transaction, owned_by_seller, owned_by_buyer,
}
use vekro_backend.Lifecycle.Notices.{step, subject, told, notify_parties}

abbrev pub is_resolved : Transaction → Bool
is_resolved t = resolved t.status
  where
    resolved : TransactionStatus → Bool
    resolved TransactionStatus.resolved_release = true
    resolved TransactionStatus.resolved_refund = true
    resolved TransactionStatus.resolved_split = true
    resolved _ = false

-- `bool(evidence.get(key, False))`
abbrev pub flag_of : Option Bool → Bool
flag_of o = get_or o false

abbrev pub buyer_flag : Dispute → Bool
buyer_flag d = flag_of d.evidence.buyer_confirmed_resolved

abbrev pub seller_flag : Dispute → Bool
seller_flag d = flag_of d.evidence.seller_confirmed_resolved

-- The dispute with both flags written, and closed if `closed`.
abbrev pub confirmed_dispute : Env → Bool → Bool → Bool → Dispute → Dispute
confirmed_dispute env buyer_confirmed seller_confirmed closed d =
    let noted : Dispute = record d {
      evidence = record (d.evidence) {
        buyer_confirmed_resolved = some buyer_confirmed;
        seller_confirmed_resolved = some seller_confirmed;
      };
    } in
    if closed then record noted { resolved_at = or_else d.resolved_at (some env.now) } else noted

-- `_create_mutual_confirmation_notifications`
unfoldable pub create_mutual_confirmation_notifications :
    Env → Transaction → String → Bool → Bool → Bool → Action (Unit {0})
unfolding notify_parties
create_mutual_confirmation_notifications env t actor buyer_confirmed seller_confirmed closed =
    let payload =
      subject t
      ++ ("actor", word actor)
        ∷ ("buyer_confirmed_resolved", flag buyer_confirmed)
        ∷ ("seller_confirmed_resolved", flag seller_confirmed)
        ∷ ("closed", flag closed)
        ∷ (
          "transition_history",
          history (
              step env TransactionStatus.resolved_release t.status actor
                "mutual_confirmation_update"
              ∷ []),
        )
        ∷ [] in
    notify_parties t NotificationEventType.dispute_updated
      (told "Resolution confirmation updated" "Mutual resolution confirmation status was updated."
        payload)
      (told "Resolution confirmation updated" "Mutual resolution confirmation status was updated."
        payload)

unfoldable pub buyer_closes_case : Env → User → Transaction → Dispute → Action Transaction
unfolding record_dispute_event create_mutual_confirmation_notifications
buyer_closes_case env buyer t d = do
  let closed = seller_flag d
  save_dispute (confirmed_dispute env true closed closed d)
  record_dispute_event env d (resolution_confirmed "buyer" true closed closed) ActorType.user
      (some buyer.id)
  create_mutual_confirmation_notifications env t "buyer" true closed closed
  commit
  pure t

unfoldable pub buyer_closes : Env → User → Transaction → Action Transaction
buyer_closes env buyer t = do
  latest ← gets (latest_dispute t.id)
  d ← or_raise latest Error.transaction_validation_error
  buyer_closes_case env buyer t d

unfoldable pub submit_buyer_resolution_confirmation : Env → ℕ → User → Action Transaction
submit_buyer_resolution_confirmation env transaction_id buyer = do
  t ←
      guarded_transaction (is_buyer buyer.role) transaction_id Error.not_found_for_buyer_action
        (owned_by_buyer buyer) Error.buyer_action_forbidden is_resolved
        Error.buyer_action_invalid_state
  buyer_closes env buyer t

unfoldable pub seller_closes_case : Env → User → Transaction → Dispute → Action Transaction
unfolding record_dispute_event create_mutual_confirmation_notifications
seller_closes_case env seller t d = do
  let closed = buyer_flag d
  save_dispute (confirmed_dispute env closed true closed d)
  record_dispute_event env d (resolution_confirmed "seller" closed true closed) ActorType.user
      (some seller.id)
  create_mutual_confirmation_notifications env t "seller" closed true closed
  commit
  pure t

unfoldable pub seller_closes : Env → User → Transaction → Action Transaction
seller_closes env seller t = do
  latest ← gets (latest_dispute t.id)
  d ← or_raise latest Error.transaction_validation_error
  seller_closes_case env seller t d

unfoldable pub submit_seller_resolution_confirmation : Env → ℕ → User → Action Transaction
submit_seller_resolution_confirmation env transaction_id seller = do
  t ←
      guarded_transaction (is_seller seller.role) transaction_id Error.not_found_for_dispatch
        (owned_by_seller seller) Error.dispatch_forbidden is_resolved Error.dispatch_invalid_state
  seller_closes env seller t
