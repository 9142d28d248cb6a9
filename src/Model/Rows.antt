-- ===== src/Model/Rows.antt =====
-- The rows that the services read and write (app/models). Money is in cents, times are in seconds,
-- identifiers are numbers, and texts are their code points. Columns that no service here reads or
-- writes are left out.
use Prim.Native.String.{String}
use vekro_backend.Base.{ℕ, Bool, Option, List, Text}
use vekro_backend.Model.Status.{
  TransactionStatus, TransactionPayoutStatus, AttemptOutcome, DisputeType, DisputeStatus,
  SellerResolutionAction, AdminDecision, UserRole, LedgerEntrySide, CustodyProvider,
  NotificationEventType, ActorType, PaymentPromptStatus, PaymentFailureReason,
}
use vekro_backend.Model.Payload.{Payload}
use vekro_backend.Rails.Health.{RailName}

pub record User : Type 0 where
  pub id : ℕ
  pub role : UserRole
  pub phone : Text
  pub mpesa_phone : Option Text
  pub is_active : Bool

-- `dispute_policy` is a JSON object; of it only these two lists are read. `none` is a missing key
-- or a value that is no list.
pub record Listing : Type 0 where
  pub id : ℕ
  pub seller_id : ℕ
  pub price : ℕ
  pub is_serialized : Bool
  pub allowed_seller_actions : Option (List Text)
  pub door_reject_reasons : Option (List Text)
  pub archived_at : Option ℕ

pub record Transaction : Type 0 where
  pub id : ℕ
  pub listing_id : ℕ
  pub buyer_id : ℕ
  pub seller_id : ℕ
  pub amount : ℕ
  pub status : TransactionStatus
  pub payout_status : TransactionPayoutStatus
  pub locked_at : Option ℕ
  pub dispatched_at : Option ℕ
  pub at_door_at : Option ℕ
  pub delivery_otp_hash : Option ℕ
  pub otp_failed_attempts : ℕ
  pub hold_started_at : Option ℕ
  pub door_rejection_reason : Option Text
  pub door_rejection_note : Option Text
  pub released_at : Option ℕ
  pub refunded_at : Option ℕ
  pub custody_provider : CustodyProvider
  pub updated_at : ℕ

-- `evidence` is a JSON object; of it only these keys are read. `none` is a missing key.
pub record Evidence : Type 0 where
  pub buyer_reconfirm_rejection_count : Option ℕ
  pub buyer_reconfirm_notes : Option Text
  pub buyer_confirmed_resolved : Option Bool
  pub seller_confirmed_resolved : Option Bool

pub record Dispute : Type 0 where
  pub id : ℕ
  pub transaction_id : ℕ
  pub opened_by_user_id : ℕ
  pub dispute_type : DisputeType
  pub status : DisputeStatus
  pub reason : Text
  pub description : Text
  pub seller_resolution_action : Option SellerResolutionAction
  pub admin_decision : Option AdminDecision
  -- in ten-thousandths
  pub split_ratio : Option ℕ
  pub evidence : Evidence
  pub seller_resolution_notes : Option Text
  pub admin_reason : Option Text
  pub decided_by_user_id : Option ℕ
  pub escalated_at : Option ℕ
  pub resolved_at : Option ℕ

pub record Escrow : Type 0 where
  pub id : ℕ
  pub transaction_id : ℕ
  pub buyer_id : ℕ
  pub seller_id : ℕ
  pub amount_total : ℕ
  pub funded_amount : ℕ
  pub released_amount : ℕ
  pub refunded_amount : ℕ
  pub custody_provider : CustodyProvider
  pub econfirm_transaction_id : Option Text
  -- encrypted
  pub econfirm_confirmation_code : Option Text

pub data PayoutKind : Type 0 where
  release refund : PayoutKind

-- The prefix of a payout's purpose; the whole text is the prefix, a colon and an identifier.
pub data PurposePrefix : Type 0 where
  tx_release tx_refund seller_refund reconfirm_release timeout_at_door_refund timeout_refund
        hold_release dispute_timeout_release admin_refund admin_release admin_split_release
        admin_split_refund :
      PurposePrefix

unfoldable pub PurposePrefix-discrete : Discrete PurposePrefix
PurposePrefix-discrete = hlevel

pub record Purpose : Type 0 where
  pub prefix : PurposePrefix
  pub subject : ℕ

pub record PayoutAttempt : Type 0 where
  pub id : ℕ
  pub escrow_id : ℕ
  pub purpose : Purpose
  pub rail_name : RailName
  pub provider_reference : Option Text
  pub amount : ℕ
  pub outcome : AttemptOutcome
  -- of `request_snapshot`
  pub payout_kind : PayoutKind
  pub destination_phone : Text
  -- of `response_snapshot`
  pub raw_status : Option Text
  pub failure_code : Option Text
  pub failure_reason : Option Text
  pub attempted_at : ℕ

pub record LedgerEntry : Type 0 where
  pub id : ℕ
  pub escrow_id : ℕ
  pub entry_group_id : ℕ
  pub idempotency_key : Text
  pub account_code : Text
  pub side : LedgerEntrySide
  pub amount : ℕ
  pub currency : Text

-- What the recipient is told. The code is the only part that varies with a secret.
pub data Message : Type 0 where
  plain : String → Message
  delivery_code_message : Text → Message
  rejection_message : Option Text → Option Text → Message

pub record Notification : Type 0 where
  pub user_id : ℕ
  pub transaction_id : ℕ
  pub event_type : NotificationEventType
  pub title : String
  pub message : Message
  pub payload : Payload

pub record MoneyAuditEvent : Type 0 where
  pub action : String
  pub actor_type : ActorType
  pub actor_id : Option ℕ
  pub transaction_id : Option ℕ
  pub escrow_id : Option ℕ
  pub attempt_id : Option ℕ
  pub amount : Option ℕ

pub record PaymentPrompt : Type 0 where
  pub transaction_id : ℕ
  pub status : PaymentPromptStatus
  pub failure_reason : Option PaymentFailureReason
  pub sent_at : ℕ
  pub resolved_at : Option ℕ
