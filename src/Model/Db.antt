-- ===== src/Model/Db.antt =====
-- The database: its tables, and the events of its anchor log (app/services/anchoring/payloads.py).
-- Tables that are read newest first (`order_by(created_at.desc())`) are lists in that order.
use Prim.Native.String.{String}
use vekro_backend.Base.{ℕ, Bool, Option, List, Text, Table}
use vekro_backend.Model.Status.{TransactionStatus, ActorType, AdminDecision, SellerResolutionAction}
use vekro_backend.Model.Rows.{
  User, Listing, Transaction, Dispute, Escrow, PayoutAttempt, LedgerEntry, Notification,
  MoneyAuditEvent, PaymentPrompt,
}
use vekro_backend.Rails.Health.{HealthTable}

-- The facts of a dispute event, by its type. Free text is bound by its hash and left out here.
pub data DisputeEvent : Type 0 where
  opened : Text → String → DisputeEvent
  escalated : String → String → DisputeEvent
  return_sent return_received auto_closed : DisputeEvent
  seller_resolution : SellerResolutionAction → DisputeEvent
  buyer_reconfirmation : Bool → ℕ → DisputeEvent
  resolution_confirmed : String → Bool → Bool → Bool → DisputeEvent

-- An anchor event of a transaction, with what its payload binds.
pub record Transition : Type 0 where
  pub from_status : TransactionStatus
  pub to_status : TransactionStatus
  pub actor_type : ActorType
  pub actor_id : Option ℕ
  pub reason : String
  pub at : ℕ
  pub door_rejection_reason : Option Text

pub data AnchorPayload : Type 0 where
  transition : Transition → AnchorPayload
  dispute : ℕ → DisputeEvent → ActorType → Option ℕ → ℕ → AnchorPayload
  decision : ℕ → AdminDecision → Option ℕ → Option ℕ → Option ℕ → Option ℕ → AnchorPayload
  money_audit : MoneyAuditEvent → AnchorPayload
  ledger_entry : LedgerEntry → AnchorPayload

pub record AnchorEvent : Type 0 where
  pub transaction_id : Option ℕ
  pub payload : AnchorPayload

pub record Db : Type 0 where
  pub users : Table User
  pub listings : Table Listing
  pub transactions : Table Transaction
  -- newest first
  pub disputes : List Dispute
  -- by the unique column `transaction_id`
  pub escrows : Table Escrow
  -- newest first
  pub payout_attempts : List PayoutAttempt
  pub ledger_entries : List LedgerEntry
  pub rail_health : HealthTable
  -- newest first
  pub payment_prompts : List PaymentPrompt
  pub notifications : List Notification
  pub money_audit_events : List MoneyAuditEvent
  -- newest first
  pub anchor_events : List AnchorEvent
  -- Stands for `uuid4`: an identifier that no row has yet.
  pub next_id : ℕ
