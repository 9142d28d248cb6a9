-- ===== src/Model/Payload.antt =====
-- The JSON payloads of notifications: the dictionaries that the services build.
use Prim.Native.String.{String}
use vekro_backend.Base.{ℕ, Bool, Option, List, Text}
use vekro_backend.Model.Status.{TransactionStatus, DisputeStatus, DisputeType}

-- An entry of a `transition_history`.
pub record TransitionStep : Type 0 where
  pub from_status : TransactionStatus
  pub to_status : TransactionStatus
  pub at : ℕ
  pub initiated_by : String
  pub reason : String

-- The `alert_key` of the payout reconciliation, whose text is `payout-unknown:` and an attempt, or
-- `payout-mismatch:`, a transaction and its status.
pub data AlertKey : Type 0 where
  payout_unknown : ℕ → AlertKey
  payout_mismatch : ℕ → TransactionStatus → AlertKey

pub data Fact : Type 0 where
  uuid : ℕ → Fact
  money : ℕ → Fact
  moment : Option ℕ → Fact
  word : String → Fact
  flag : Bool → Fact
  count : ℕ → Fact
  code : Text → Fact
  text : Option Text → Fact
  status : TransactionStatus → Fact
  dispute_status : DisputeStatus → Fact
  dispute_type : DisputeType → Fact
  history : List TransitionStep → Fact
  alert_key : AlertKey → Fact

abbrev pub Payload : Type 0
Payload = List (String × Fact)
