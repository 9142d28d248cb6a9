-- ===== src/Lifecycle/Notices.antt =====
-- The `_create_..._notifications` functions of app/services/transaction.py: one notification for the
-- buyer and one for the seller.
use Prim.Native.String.{String}
use vekro_backend.Base.{ℕ, some, List, [], ◌∷◌, ◌++◌, Text}
use vekro_backend.Model.Status.{TransactionStatus, NotificationEventType}
use vekro_backend.Model.Payload.{
  TransitionStep, Payload, uuid, moment, word, code, text, status, history,
}
use vekro_backend.Model.Rows.{
  Transaction, Notification, Message, plain, delivery_code_message, rejection_message,
}
use vekro_backend.Session.{Env, Action, notify, ◌>>◌}

abbrev pub subject : Transaction → Payload
subject t = ("transaction_id", uuid t.id) ∷ ("listing_id", uuid t.listing_id) ∷ []

abbrev pub step : Env → TransactionStatus → TransactionStatus → String → String → TransitionStep
step env from to initiated_by reason = record {
  from_status = from;
  to_status = to;
  at = env.now;
  initiated_by = initiated_by;
  reason = reason;
}

-- What one party is told.
pub record Notice : Type 0 where
  pub title : String
  pub message : Message
  pub payload : Payload

abbrev pub addressed : Transaction → ℕ → NotificationEventType → Notice → Notification
addressed t user_id event notice = record {
  user_id = user_id;
  transaction_id = t.id;
  event_type = event;
  title = notice.title;
  message = notice.message;
  payload = notice.payload;
}

unfoldable pub notify_parties :
    Transaction → NotificationEventType → Notice → Notice → Action (Unit {0})
notify_parties t event to_buyer to_seller = do
  notify (addressed t t.buyer_id event to_buyer)
  notify (addressed t t.seller_id event to_seller)

abbrev pub told : String → String → Payload → Notice
told title message payload = record { title = title; message = plain message; payload = payload }

unfoldable pub create_locked_notifications : Transaction → Payload → Action (Unit {0})
unfolding notify_parties
create_locked_notifications t details =
    let payload = subject t ++ details ++ ("locked_at", moment t.locked_at) ∷ [] in
    notify_parties t NotificationEventType.transaction_locked
      (told "Payment confirmed" "Your payment has been confirmed and the transaction is now locked."
        payload)
      (told "Buyer payment confirmed"
        "Buyer payment has been confirmed and the transaction is now locked." payload)

unfoldable pub create_dispatched_notifications : Transaction → Action (Unit {0})
unfolding notify_parties
create_dispatched_notifications t =
    let payload = subject t ++ ("dispatched_at", moment t.dispatched_at) ∷ [] in
    notify_parties t NotificationEventType.transaction_dispatched
      (told "Seller dispatched transaction"
        "Your transaction has been dispatched and is out for delivery." payload)
      (told "Dispatch confirmed"
        "You have dispatched this transaction and it is now out for delivery." payload)

-- The code goes to the buyer alone.
unfoldable pub create_arrival_notifications : Transaction → Text → Action (Unit {0})
unfolding notify_parties
create_arrival_notifications t delivery_otp =
    let payload = subject t ++ ("at_door_at", moment t.at_door_at) ∷ [] in
    notify_parties t NotificationEventType.delivery_arrived
      (record {
        title = "Delivery arrived";
        message = delivery_code_message delivery_otp;
        payload = payload ++ ("delivery_code", code delivery_otp) ∷ [];
      })
      (told "Arrival confirmed" "Delivery arrival has been recorded and inspection is now pending."
        payload)

unfoldable pub create_otp_given_notifications : Transaction → Action (Unit {0})
unfolding notify_parties
create_otp_given_notifications t =
    let payload =
      subject t
      ++ ("hold_started_at", moment t.hold_started_at)
        ∷ ("released_at", moment t.released_at)
        ∷ ("from", status TransactionStatus.at_door_pending_inspection)
        ∷ ("to", status t.status)
        ∷ [] in
    notify_parties t NotificationEventType.otp_given
      (told "OTP confirmed" "OTP confirmed successfully and transaction moved to next stage."
        payload)
      (told "Buyer confirmed OTP" "Buyer OTP is confirmed and transaction moved to next stage."
        payload)

unfoldable pub create_otp_withheld_notifications :
    Transaction → List TransitionStep → String → String → Action (Unit {0})
unfolding notify_parties
create_otp_withheld_notifications t steps initiated_by reason =
    let payload =
      subject t
      ++ ("initiated_by", word initiated_by)
        ∷ ("reason", word reason)
        ∷ ("transition_history", history steps)
        ∷ ("refunded_at", moment t.refunded_at)
        ∷ [] in
    notify_parties t NotificationEventType.otp_withheld
      (told "OTP withheld" "OTP was withheld and the transaction moved to buyer refund resolution."
        payload)
      (record {
        title = "Buyer withheld OTP";
        message = rejection_message t.door_rejection_reason t.door_rejection_note;
        payload =
            payload
            ++ ("door_rejection_reason", text t.door_rejection_reason)
              ∷ ("door_rejection_note", text t.door_rejection_note)
              ∷ [];
      })

unfoldable pub create_timeout_notifications :
    Transaction → List TransitionStep → String → Action (Unit {0})
unfolding notify_parties
create_timeout_notifications t steps reason =
    let payload =
      subject t
      ++ ("reason", word reason)
        ∷ ("transition_history", history steps)
        ∷ ("refunded_at", moment t.refunded_at)
        ∷ [] in
    notify_parties t NotificationEventType.system_timeout
      (told "System timeout transition"
        "A timeout rule executed and updated your transaction workflow." payload)
      (told "System timeout transition"
        "A timeout rule executed and updated this transaction workflow." payload)

-- The four notices on a return case differ by their texts and by the one step that they report.
unfoldable pub create_return_notifications :
    Transaction
    → NotificationEventType
    → Payload
    → TransitionStep
    → String
    → String
    → String
    → String
    → Action (Unit {0})
unfolding notify_parties
create_return_notifications t event extra last buyer_title buyer_message seller_title
      seller_message =
    let payload =
      subject t
      ++ ("reason", word last.reason)
        ∷ ("initiated_by", word last.initiated_by)
        ∷ ("transition_history", history (last ∷ []))
        ∷ extra in
    notify_parties t event (told buyer_title buyer_message payload)
      (told seller_title seller_message payload)

unfoldable pub create_dispute_buyer_sent_back_notifications :
    Env → Transaction → String → String → Action (Unit {0})
unfolding create_return_notifications
create_dispute_buyer_sent_back_notifications env t initiated_by reason =
    create_return_notifications t NotificationEventType.dispute_updated []
      (step env TransactionStatus.disputed_functional TransactionStatus.return_in_transit
        initiated_by reason)
      "Buyer marked item sent back"
      "Return shipment has been marked and dispute moved to return in transit."
      "Buyer initiated return shipment"
      "Buyer marked the item as sent back and dispute moved to return in transit."

unfoldable pub create_dispute_auto_cancel_notifications : Env → Transaction → Action (Unit {0})
unfolding create_return_notifications
create_dispute_auto_cancel_notifications env t =
    create_return_notifications t NotificationEventType.system_timeout
      (("released_at", moment t.released_at) ∷ [])
      (step env TransactionStatus.disputed_functional TransactionStatus.released "system"
        "dispute_buyer_sent_back_timeout_3d")
      "Dispute auto-canceled"
      "Dispute timed out without buyer sent-back confirmation and escrow was released."
      "Dispute auto-canceled"
      "Dispute timed out without buyer sent-back confirmation and escrow was released."

unfoldable pub create_seller_received_notifications : Env → Transaction → Action (Unit {0})
unfolding create_return_notifications
create_seller_received_notifications env t =
    create_return_notifications t NotificationEventType.dispute_updated []
      (step env TransactionStatus.return_in_transit TransactionStatus.return_received "seller"
        "seller_received")
      "Seller confirmed return receipt" "Seller has confirmed receiving the returned item."
      "Return receipt confirmed"
      "You confirmed return receipt and dispute moved to return received."

unfoldable pub create_seller_received_timeout_notifications : Env → Transaction → Action (Unit {0})
unfolding create_return_notifications
create_seller_received_timeout_notifications env t =
    create_return_notifications t NotificationEventType.system_timeout
      (("escalated_at", moment (some env.now)) ∷ [])
      (step env TransactionStatus.return_in_transit TransactionStatus.escalated_admin_review
        "system" "seller_received_timeout_3d")
      "Dispute auto-escalated"
      "Seller did not confirm return receipt in time; dispute escalated for admin review."
      "Dispute auto-escalated"
      "Return receipt was not confirmed in time; dispute escalated for admin review."
