-- ===== src/Lifecycle/Effects/Delivery.antt =====
-- The effects of the delivery requests.
use vekro_backend.Base.{
  ℕ, ◌≡◌, inl, inr, refl, any, text_eq, subst, sym, Option, some, none, lookup, Text, if◌then◌else◌,
  true, false,
}
use vekro_backend.Model.Status.{TransactionStatus, is_seller, is_buyer}
use vekro_backend.Model.Rows.{Transaction, User, Listing, Purpose, tx_release, tx_refund}
use vekro_backend.Session.{
  Env, Error, Session, get_listing, or_raise, require, pure, ◌>>=◌, ◌>>◌, Outcome, Outcome-bind,
  Tentative, Tentative-Outcome,
}
use vekro_backend.Escrow.Outbox.{system_actor, queue_refund_full}
use vekro_backend.Lifecycle.Transitions.{
  Cause, transition_transaction, in_status, by_user, owned_by_seller, owned_by_buyer,
}
use vekro_backend.Lifecycle.Delivery.{
  dispatch_transaction, dispatch_checked, arrive_checked, confirm_checked, withhold_checked,
  mark_transaction_arrived, confirm_buyer_delivery_otp, withhold_buyer_delivery_otp,
  hold_or_release, hold_item, release_item, refuse_item, finish_refusal, withhold_for,
  validated_door_reason, allowed_reasons, declared_reasons, door_note, finish_otp, reject_otp,
  check_code, verify_delivery_otp, accept_otp, apply_withheld_return_refund_flow,
}
use vekro_backend.Lifecycle.Moves.{Act, Step, dispatched, arrived, held, delivered, refused}
use vekro_backend.Lifecycle.Effects.{
  Changed, Move-trans, transition-Move, release-after, refund-Moved, Moved, stored, guard-then,
  Step-from,
}

pub dispatch-Changed :
    (env : Env) (id : ℕ) (seller : User) (s : Session)
    → Outcome s (Changed Act.dispatch env id s) (dispatch_transaction env id seller s)
unfolding dispatch_transaction
dispatch-Changed env id seller s =
    guard-then (is_seller seller.role) id _ (owned_by_seller seller) _ _ _
      (dispatch_checked env seller) s (Changed Act.dispatch env id s)
      (λ t found _ i.
        let m =
          transition-Move env t TransactionStatus.out_for_delivery
            (by_user seller.id "seller_dispatched") s in
        (t, found, Step-from TransactionStatus.locked _ t i dispatched, (m.0, m.1, refl, refl)))

pub arrive-Changed :
    (env : Env) (id : ℕ) (seller : User) (s : Session)
    → Outcome s (Changed Act.arrive env id s) (mark_transaction_arrived env id seller s)
unfolding mark_transaction_arrived
arrive-Changed env id seller s =
    guard-then (is_seller seller.role) id _ (owned_by_seller seller) _ _ _
      (arrive_checked env seller) s (Changed Act.arrive env id s)
      (λ t found _ i.
        let m =
          transition-Move env t TransactionStatus.at_door_pending_inspection
            (by_user seller.id "seller_arrived") s in
        (
          t,
          found,
          Step-from TransactionStatus.out_for_delivery _ t i arrived,
          (m.0, m.1, refl, refl),
        ))

abbrev pub IsAtDoor : Transaction → Type 0
IsAtDoor t = in_status TransactionStatus.at_door_pending_inspection t ≡ true

hold_item-Moved :
    (env : Env) (buyer : User) (t : Transaction) (s : Session)
    → IsAtDoor t
    → Outcome s (Moved Act.give_code t s) (hold_item env buyer t s)
unfolding hold_item
hold_item-Moved env buyer t s i =
    let m = transition-Move env t TransactionStatus.hold_24h (by_user buyer.id "otp_confirmed") s in
    (m, Step-from TransactionStatus.at_door_pending_inspection _ t i held)

release_item-Moved :
    (env : Env) (buyer : User) (t : Transaction) (s : Session)
    → IsAtDoor t
    → Outcome s (Moved Act.give_code t s) (release_item env buyer t s)
unfolding release_item
release_item-Moved env buyer t s i =
    let cause = by_user buyer.id "otp_confirmed" in
    release-after env system_actor (record { prefix = tx_release; subject = t.id }) t
      (record t {
        status = TransactionStatus.released;
        released_at = some env.now;
        hold_started_at = none;
      })
      s (transition_transaction env t TransactionStatus.released cause s).1
      (transition-Move env t TransactionStatus.released cause s)
      (Step-from TransactionStatus.at_door_pending_inspection _ t i delivered)

hold_or_release-Moved :
    (env : Env) (buyer : User) (listing : Listing) (t : Transaction) (s : Session)
    → IsAtDoor t
    → Outcome s (Moved Act.give_code t s) (hold_or_release env buyer listing t s)
unfolding hold_or_release
hold_or_release-Moved env buyer listing t s i =
    elim listing.is_serialized
      as (λ b.
        Outcome s (Moved Act.give_code t s)
          (if b then hold_item env buyer t s else release_item env buyer t s)) [
            | true ↦ hold_item-Moved env buyer t s i
            | false ↦ release_item-Moved env buyer t s i
          ]

accept_otp-Changed :
    (env : Env) (id : ℕ) (buyer : User) (listing : Listing) (t : Transaction) (s : Session)
    → lookup id s.work.transactions ≡ some t
    → IsAtDoor t
    → Outcome s (Changed Act.give_code env id s) (accept_otp env buyer listing t s)
unfolding accept_otp
accept_otp-Changed env id buyer listing t s found i =
    Outcome-bind (hold_or_release env buyer listing t) (finish_otp env) s (Moved Act.give_code t s)
      (Changed Act.give_code env id s) (hold_or_release-Moved env buyer listing t s i)
      (λ t1 s1 m. (t, found, m.1, (m.0.0, m.0.1, refl, stored t t1 _ s s1 m.0)))

reject_otp-Failed :
    (env : Env) (id : ℕ) (t : Transaction) (s : Session)
    → lookup id s.work.transactions ≡ some t
    → Outcome s (Changed Act.give_code env id s) (reject_otp env t s)
unfolding reject_otp
reject_otp-Failed env id t s found = inr (refl, (id, env.now, t, found, refl))

check_code-Changed :
    (env : Env) (id : ℕ) (buyer : User) (otp_code : Text) (t : Transaction) (s : Session)
    → lookup id s.work.transactions ≡ some t
    → IsAtDoor t
    → (listing : Listing) (s1 : Session) → s1 ≡ s
    → Outcome s (Changed Act.give_code env id s) (check_code env buyer otp_code t listing s1)
unfolding check_code
check_code-Changed env id buyer otp_code t s found i listing s1 same =
    subst
      (λ x. Outcome s (Changed Act.give_code env id s) (check_code env buyer otp_code t listing x))
      (sym same)
      (elim (verify_delivery_otp env otp_code t.delivery_otp_hash)
        as (λ b.
          Outcome s (Changed Act.give_code env id s)
            ((if b then accept_otp env buyer listing t else reject_otp env t) s)) [
              | true ↦ accept_otp-Changed env id buyer listing t s found i
              | false ↦ reject_otp-Failed env id t s found
            ])

listing-read :
    (id : ℕ) (missing : Error) (s : Session) → Outcome s (λ _ s1. s1 ≡ s) (get_listing id missing s)
listing-read id missing s =
    elim (lookup id s.work.listings) as (λ o. Outcome s (λ _ s1. s1 ≡ s) (or_raise o missing s)) [
      | none ↦ inl refl
      | some listing ↦ refl
    ]

pub confirm-Changed :
    (env : Env) (id : ℕ) (buyer : User) (otp_code : Text) (s : Session)
    → Outcome s
        (Changed Act.give_code env id s)
        (confirm_buyer_delivery_otp env id buyer otp_code s)
unfolding confirm_buyer_delivery_otp
confirm-Changed env id buyer otp_code s =
    guard-then (is_buyer buyer.role) id _ (owned_by_buyer buyer) _ _ _
      (confirm_checked env buyer otp_code) s (Changed Act.give_code env id s)
      (λ t found _ i.
        Outcome-bind (get_listing t.listing_id Error.listing_not_found)
          (check_code env buyer otp_code t) s (λ _ s1. s1 ≡ s) (Changed Act.give_code env id s)
          (listing-read t.listing_id Error.listing_not_found s)
          (check_code-Changed env id buyer otp_code t s found i))

-- The three moves of a refused delivery.
pub refused-Moved :
    {act : Act} (env : Env) (cause : Cause) (purpose : Purpose) (t : Transaction) (s : Session)
    → IsAtDoor t
    → Step act TransactionStatus.at_door_pending_inspection TransactionStatus.refunded_buyer
    → Tentative s (Moved act t s) (
        (apply_withheld_return_refund_flow env t cause >>= λ t1.
        queue_refund_full env system_actor t1 purpose)
          s)
unfolding apply_withheld_return_refund_flow
refused-Moved {act = act} env cause purpose t s i step =
    let c : Cause = record cause { door_rejection_reason = t.door_rejection_reason } in
    let t1 : Transaction = record t { status = TransactionStatus.return_in_transit } in
    let s1 = (transition_transaction env t TransactionStatus.return_in_transit c s).1 in
    let t2 : Transaction = record t { status = TransactionStatus.returned_to_seller } in
    let s2 = (transition_transaction env t1 TransactionStatus.returned_to_seller c s1).1 in
    let t3 : Transaction = record t { status = TransactionStatus.refunded_buyer } in
    let s3 = (transition_transaction env t2 TransactionStatus.refunded_buyer c s2).1 in
    refund-Moved env system_actor purpose t
      (record t3 { refunded_at = some env.now; delivery_otp_hash = none; otp_failed_attempts = 0 })
      s s3
      (Move-trans t t2 t3 s s2 s3
        (Move-trans t t1 t2 s s1 s2 (transition-Move env t TransactionStatus.return_in_transit c s)
          (transition-Move env t1 TransactionStatus.returned_to_seller c s1))
        (transition-Move env t2 TransactionStatus.refunded_buyer c s2))
      (Step-from TransactionStatus.at_door_pending_inspection _ t i step)

refuse_item-Moved :
    (env : Env) (buyer : User) (t : Transaction) (s : Session)
    → IsAtDoor t
    → Outcome s (Moved Act.withhold_code t s) (refuse_item env buyer t s)
unfolding refuse_item
refuse_item-Moved env buyer t s i =
    Tentative-Outcome s (Moved Act.withhold_code t s) (refuse_item env buyer t s) (
      refused-Moved env (by_user buyer.id "otp_withheld")
        (record { prefix = tx_refund; subject = t.id }) t s i refused)

door_reason-read :
    (listing : Option Listing) (reason : Option Text) (s : Session)
    → Outcome s (λ _ s1. s1 ≡ s) (validated_door_reason listing reason s)
unfolding validated_door_reason
door_reason-read listing none s = refl
door_reason-read listing (some reason) s =
    elim (any (text_eq reason) (allowed_reasons (declared_reasons listing)))
      as (λ b.
        Outcome s (λ _ s1. s1 ≡ s)
          ((require b Error.transaction_validation_error >> pure (some reason)) s)) [
            | true ↦ refl
            | false ↦ inl refl
          ]

withhold_for-Changed :
    (env : Env) (id : ℕ) (buyer : User) (note : Option Text) (t : Transaction)
    (door_reason : Option Text) (s : Session)
    → lookup id s.work.transactions ≡ some t
    → IsAtDoor t
    → Outcome s (Changed Act.withhold_code env id s) (withhold_for env buyer note t door_reason s)
unfolding withhold_for finish_refusal
withhold_for-Changed env id buyer note t door_reason s found i =
    let t1 : Transaction = record t {
      door_rejection_reason = door_reason;
      door_rejection_note = door_note note;
    } in
    Outcome-bind (refuse_item env buyer t1) (finish_refusal env) s (Moved Act.withhold_code t1 s)
      (Changed Act.withhold_code env id s) (refuse_item-Moved env buyer t1 s i)
      (λ t2 s2 m. (t, found, m.1, (m.0.0, m.0.1, refl, stored t1 t2 _ s s2 m.0)))

pub withhold-Changed :
    (env : Env) (id : ℕ) (buyer : User) (reason note : Option Text) (s : Session)
    → Outcome s
        (Changed Act.withhold_code env id s)
        (withhold_buyer_delivery_otp env id buyer reason note s)
unfolding withhold_buyer_delivery_otp withhold_checked
withhold-Changed env id buyer reason note s =
    guard-then (is_buyer buyer.role) id _ (owned_by_buyer buyer) _ _ _
      (withhold_checked env buyer reason note) s (Changed Act.withhold_code env id s)
      (λ t found _ i.
        Outcome-bind (validated_door_reason (lookup t.listing_id s.work.listings) reason)
          (withhold_for env buyer note t) s (λ _ s1. s1 ≡ s) (Changed Act.withhold_code env id s)
          (door_reason-read (lookup t.listing_id s.work.listings) reason s)
          (λ door_reason s1 same.
            subst
              (λ x.
                Outcome s (Changed Act.withhold_code env id s)
                  (withhold_for env buyer note t door_reason x))
              (sym same) (withhold_for-Changed env id buyer note t door_reason s found i)))
