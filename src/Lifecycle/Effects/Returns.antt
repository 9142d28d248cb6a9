-- ===== src/Lifecycle/Effects/Returns.antt =====
-- The effects of the two steps of a return: mark_buyer_sent_back and mark_seller_received.
use vekro_backend.Base.{ℕ, refl, Option, some, none}
use vekro_backend.Model.Status.{TransactionStatus, is_seller, is_buyer, ActorType}
use vekro_backend.Model.Rows.{Transaction, User, Dispute}
use vekro_backend.Model.Db.{DisputeEvent, return_sent, return_received}
use vekro_backend.Session.{Env, Session, Outcome, Outcome-bind_later, latest_dispute}
use vekro_backend.Lifecycle.Transitions.{
  transition_transaction, by_user, owned_by_seller, owned_by_buyer,
}
use vekro_backend.Lifecycle.Returns.{
  record_on_latest, finish_send_back, send_back_checked, mark_buyer_sent_back, finish_receipt,
  receive_checked, mark_seller_received,
}
use vekro_backend.Lifecycle.Moves.{Act, sent_back, received}
use vekro_backend.Lifecycle.Effects.{Moved, Changed, transition-Move, stored, guard-then, Step-from}

-- A dispute event moves no transaction.
record_on_latest-Moved :
    {act : Act} (env : Env) (event : DisputeEvent) (actor_type : ActorType) (actor_id : Option ℕ)
    (t t1 : Transaction) (s s1 : Session) (latest : Option Dispute)
    → Moved act t s t1 s1
    → Outcome s
        (λ _ s2. Moved act t s t1 s2)
        (record_on_latest env t.id event actor_type actor_id latest s1)
unfolding record_on_latest
record_on_latest-Moved {act = act} env event actor_type actor_id t t1 s s1 none m = m
record_on_latest-Moved {act = act} env event actor_type actor_id t t1 s s1 (some d) m = m

pub send_back-Changed :
    (env : Env) (id : ℕ) (buyer : User) (s : Session)
    → Outcome s (Changed Act.send_back env id s) (mark_buyer_sent_back env id buyer s)
unfolding mark_buyer_sent_back send_back_checked finish_send_back
send_back-Changed env id buyer s =
    guard-then (is_buyer buyer.role) id _ (owned_by_buyer buyer) _ _ _ (send_back_checked env buyer)
      s (Changed Act.send_back env id s)
      (λ t found _ i.
        let cause = by_user buyer.id "buyer_sent_back" in
        let to = TransactionStatus.return_in_transit in
        let t1 : Transaction = record t { status = to } in
        let s1 = (transition_transaction env t to cause s).1 in
        Outcome-bind_later
          (record_on_latest env t.id return_sent ActorType.user (some buyer.id)
            (latest_dispute t.id s1.work))
          (λ _. finish_send_back env t1) s s1 (λ _ s2. Moved Act.send_back t s t1 s2)
          (Changed Act.send_back env id s)
          (record_on_latest-Moved env return_sent ActorType.user (some buyer.id) t t1 s s1
            (latest_dispute t.id s1.work)
            (
              transition-Move env t to cause s,
              Step-from TransactionStatus.disputed_functional _ t i sent_back,
            ))
          (λ _ s2 m. (t, found, m.1, (m.0.0, m.0.1, refl, stored t t1 _ s s2 m.0))))

pub receive-Changed :
    (env : Env) (id : ℕ) (seller : User) (s : Session)
    → Outcome s (Changed Act.receive env id s) (mark_seller_received env id seller s)
unfolding mark_seller_received receive_checked finish_receipt
receive-Changed env id seller s =
    guard-then (is_seller seller.role) id _ (owned_by_seller seller) _ _ _
      (receive_checked env seller) s (Changed Act.receive env id s)
      (λ t found _ i.
        let cause = by_user seller.id "seller_received" in
        let to = TransactionStatus.return_received in
        let t1 : Transaction = record t { status = to } in
        let s1 = (transition_transaction env t to cause s).1 in
        Outcome-bind_later
          (record_on_latest env t.id return_received ActorType.user (some seller.id)
            (latest_dispute t.id s1.work))
          (λ _. finish_receipt env t1) s s1 (λ _ s2. Moved Act.receive t s t1 s2)
          (Changed Act.receive env id s)
          (record_on_latest-Moved env return_received ActorType.user (some seller.id) t t1 s s1
            (latest_dispute t.id s1.work)
            (
              transition-Move env t to cause s,
              Step-from TransactionStatus.return_in_transit _ t i received,
            ))
          (λ _ s2 m. (t, found, m.1, (m.0.0, m.0.1, refl, stored t t1 _ s s2 m.0))))
