-- ===== src/Lifecycle/Moves.antt =====
-- The moves between the statuses of a transaction, written down independently of the handlers: what
-- each act may do to a transaction.
use vekro_backend.Base.{Bool, true, false, ◌≡◌, refl}
use vekro_backend.Model.Status.{TransactionStatus}
use vekro_backend.Model.Status.TransactionStatus.{
  awaiting_payment, locked, out_for_delivery, at_door_pending_inspection, hold_24h,
  disputed_functional, return_in_transit, return_received, awaiting_buyer_reconfirmation,
  escalated_admin_review, released, refunded_buyer, resolved_release, resolved_refund,
  resolved_split,
}

-- What is asked of the service. Closing a case moves no transaction.
pub data Act : Type 0 where
  pay dispatch arrive give_code withhold_code report send_back receive answer reconfirm close
        escalate decide time_out :
      Act

-- What an act may do: nothing, or one move. A refused delivery goes through the return to the refund
-- at once.
pub data Step : Act → TransactionStatus → TransactionStatus → Type 0 where
  stay : {act : Act} {a : TransactionStatus} → Step act a a
  paid : Step Act.pay awaiting_payment locked
  dispatched : Step Act.dispatch locked out_for_delivery
  arrived : Step Act.arrive out_for_delivery at_door_pending_inspection
  held : Step Act.give_code at_door_pending_inspection hold_24h
  delivered : Step Act.give_code at_door_pending_inspection released
  refused : Step Act.withhold_code at_door_pending_inspection refunded_buyer
  reported : Step Act.report hold_24h disputed_functional
  sent_back : Step Act.send_back disputed_functional return_in_transit
  received : Step Act.receive return_in_transit return_received
  refunded : Step Act.answer return_received refunded_buyer
  offered : Step Act.answer return_received awaiting_buyer_reconfirmation
  accepted : Step Act.reconfirm awaiting_buyer_reconfirmation resolved_release
  rejected : Step Act.reconfirm awaiting_buyer_reconfirmation return_received
  given_up : Step Act.reconfirm awaiting_buyer_reconfirmation escalated_admin_review
  disputed_escalated : Step Act.escalate disputed_functional escalated_admin_review
  in_transit_escalated : Step Act.escalate return_in_transit escalated_admin_review
  received_escalated : Step Act.escalate return_received escalated_admin_review
  offered_escalated : Step Act.escalate awaiting_buyer_reconfirmation escalated_admin_review
  decided_refund : Step Act.decide escalated_admin_review resolved_refund
  decided_release : Step Act.decide escalated_admin_review resolved_release
  decided_split : Step Act.decide escalated_admin_review resolved_split
  not_accepted : Step Act.time_out at_door_pending_inspection refunded_buyer
  not_dispatched : Step Act.time_out locked refunded_buyer
  not_reported : Step Act.time_out hold_24h released
  not_sent_back : Step Act.time_out disputed_functional released
  not_received : Step Act.time_out return_in_transit escalated_admin_review

-- No act has two moves in a row.
pub Step-trans :
    {act : Act} {a b c : TransactionStatus} → Step act a b → Step act b c → Step act a c
Step-trans stay q = q
Step-trans paid stay = paid
Step-trans dispatched stay = dispatched
Step-trans arrived stay = arrived
Step-trans held stay = held
Step-trans delivered stay = delivered
Step-trans refused stay = refused
Step-trans reported stay = reported
Step-trans sent_back stay = sent_back
Step-trans received stay = received
Step-trans refunded stay = refunded
Step-trans offered stay = offered
Step-trans accepted stay = accepted
Step-trans rejected stay = rejected
Step-trans given_up stay = given_up
Step-trans disputed_escalated stay = disputed_escalated
Step-trans in_transit_escalated stay = in_transit_escalated
Step-trans received_escalated stay = received_escalated
Step-trans offered_escalated stay = offered_escalated
Step-trans decided_refund stay = decided_refund
Step-trans decided_release stay = decided_release
Step-trans decided_split stay = decided_split
Step-trans not_accepted stay = not_accepted
Step-trans not_dispatched stay = not_dispatched
Step-trans not_reported stay = not_reported
Step-trans not_sent_back stay = not_sent_back
Step-trans not_received stay = not_received

-- The money is paid out or back.
abbrev pub is_settled : TransactionStatus → Bool
is_settled released = true
is_settled refunded_buyer = true
is_settled resolved_release = true
is_settled resolved_refund = true
is_settled resolved_split = true
is_settled _ = false

pub Step-settled :
    {act : Act} {a b : TransactionStatus} → Step act a b → is_settled a ≡ true → b ≡ a
Step-settled stay h = refl
Step-settled _ h = cc
