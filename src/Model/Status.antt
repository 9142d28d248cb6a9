-- ===== src/Model/Status.antt =====
-- The enumerations of app/models (transaction.py, dispute.py, collection_attempt.py, user.py,
-- ledger_entry.py, notification.py) and the actors of app/services/audit.py.
use vekro_backend.Base.{Bool, true, false, holds}

pub data TransactionStatus : Type 0 where
  initiated awaiting_payment locked out_for_delivery dispatched at_door_pending_inspection hold_24h
        disputed_functional return_in_transit return_received awaiting_buyer_reconfirmation
        escalated_admin_review returned_to_seller released refunded_buyer resolved_release
        resolved_refund resolved_split :
      TransactionStatus

unfoldable pub TransactionStatus-discrete : Discrete TransactionStatus
TransactionStatus-discrete = hlevel

abbrev pub is_status : TransactionStatus → TransactionStatus → Bool
is_status a b = holds (TransactionStatus-discrete a b)

pub data TransactionPayoutStatus : Type 0 where
  not_required pending succeeded failed_definite unknown : TransactionPayoutStatus

unfoldable pub TransactionPayoutStatus-discrete : Discrete TransactionPayoutStatus
TransactionPayoutStatus-discrete = hlevel

abbrev pub is_payout_status : TransactionPayoutStatus → TransactionPayoutStatus → Bool
is_payout_status a b = holds (TransactionPayoutStatus-discrete a b)

pub data AttemptOutcome : Type 0 where
  succeeded failed_definite unknown : AttemptOutcome

pub data DisputeType : Type 0 where
  physical functional : DisputeType

pub data DisputeStatus : Type 0 where
  open_case buyer_sent_back return_received awaiting_buyer_reconfirmation escalated_admin_review
        resolved_release resolved_refund resolved_split canceled :
      DisputeStatus

unfoldable pub DisputeStatus-discrete : Discrete DisputeStatus
DisputeStatus-discrete = hlevel

abbrev pub is_dispute_status : DisputeStatus → DisputeStatus → Bool
is_dispute_status a b = holds (DisputeStatus-discrete a b)

-- OPEN_DISPUTE_STATUSES of app/services/dispute_summary.py
abbrev pub is_open_dispute : DisputeStatus → Bool
is_open_dispute DisputeStatus.open_case = true
is_open_dispute DisputeStatus.buyer_sent_back = true
is_open_dispute DisputeStatus.return_received = true
is_open_dispute DisputeStatus.awaiting_buyer_reconfirmation = true
is_open_dispute _ = false

pub data SellerResolutionAction : Type 0 where
  refund_issued repair_shipped replacement_shipped : SellerResolutionAction

unfoldable pub SellerResolutionAction-discrete : Discrete SellerResolutionAction
SellerResolutionAction-discrete = hlevel

pub data AdminDecision : Type 0 where
  refund release split : AdminDecision

pub data UserRole : Type 0 where
  buyer seller admin : UserRole

abbrev pub is_buyer : UserRole → Bool
is_buyer buyer = true
is_buyer _ = false

abbrev pub is_seller : UserRole → Bool
is_seller seller = true
is_seller _ = false

pub data LedgerEntrySide : Type 0 where
  debit credit : LedgerEntrySide

pub data CustodyProvider : Type 0 where
  econfirm simulated : CustodyProvider

abbrev pub is_econfirm : CustodyProvider → Bool
is_econfirm econfirm = true
is_econfirm simulated = false

pub data NotificationEventType : Type 0 where
  transaction_created transaction_locked transaction_dispatched delivery_arrived otp_given
        otp_withheld dispute_opened dispute_updated admin_decision system_timeout :
      NotificationEventType

pub data ActorType : Type 0 where
  user admin system provider : ActorType

pub data PaymentPromptStatus : Type 0 where
  pending succeeded failed failed_to_initiate : PaymentPromptStatus

pub data PaymentFailureReason : Type 0 where
  insufficient_funds cancelled timeout wrong_pin provider_error : PaymentFailureReason
