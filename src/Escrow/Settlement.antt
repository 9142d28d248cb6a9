-- ===== src/Escrow/Settlement.antt =====
-- What the payout executor does with the answer of a rail (app/services/escrow_service.py): it records
-- the outcome of the attempt, and pays a success from the money in escrow. A `provider_name` is the
-- rail's name in every attempt of the outbox, and the currency is the default one.
use vekro_backend.Base.{
  ℕ, ◌+◌, ◌==◌, ltb, Bool, Option, none, some, List, [], ◌∷◌, ◌++◌, codes, or_text, Text,
  if◌then◌else◌,
}
use Prim.Native.String.{String}
use vekro_backend.Model.Status.{AttemptOutcome, ActorType, is_payout_status}
use vekro_backend.Model.Rows.{
  Transaction, Escrow, PayoutAttempt, PayoutKind, release, refund, Purpose,
}
use vekro_backend.Rails.Health.{RailName}
use vekro_backend.Rails.Breaker.{default_policy, record_rail_failure, record_rail_success}
use vekro_backend.Session.{
  Env, Action, pure, modify, commit, save_transaction, save_escrow, record_money_audit_event, ◌>>=◌,
  ◌>>◌,
}
use vekro_backend.Escrow.Outbox.{refresh_transaction_payout_status}
use vekro_backend.Escrow.Ledger.{
  LedgerMovement, LedgerPostResult, post_movement, escrow_held_account, kes,
}

pub record PayoutRequest : Type 0 where
  pub escrow_reference : Text
  pub amount : ℕ
  pub destination_phone : Text
  pub purpose : Purpose
  pub confirmation_code : Option Text

pub record PayoutResult : Type 0 where
  pub outcome : AttemptOutcome
  pub provider_reference : Text
  pub raw_status : Option Text
  pub message : Option Text

-- A rail answers, or raises one of the errors that the executor catches, with its text.
pub data Reply : Type 0 where
  answered : PayoutResult → Reply
  refused : Text → Reply

-- The adapters of the payout rails, by name, and `_decrypt_econfirm_code`. A request is told the
-- attempt that it is made for, so that equal requests may have different answers; `none` is an
-- exception of the inquiry, which the executor does not catch, and of the decryption.
pub record PayoutRails : Type 0 where
  pub request_payout : ℕ → RailName → PayoutRequest → Reply
  pub get_payout_status : RailName → Text → Option PayoutResult
  pub decrypt_code : Text → Option Text

unfoldable pub write_attempt : PayoutAttempt → List PayoutAttempt → List PayoutAttempt
write_attempt a [] = []
write_attempt a (b ∷ rows) = if b.id == a.id then a ∷ rows else b ∷ write_attempt a rows

abbrev pub save_attempt : PayoutAttempt → Action (Unit {0})
save_attempt a = modify λ db. record db { payout_attempts = write_attempt a db.payout_attempts }

abbrev pub outcome_text : AttemptOutcome → Text
outcome_text AttemptOutcome.succeeded = codes "succeeded"
outcome_text AttemptOutcome.failed_definite = codes "failed_definite"
outcome_text AttemptOutcome.unknown = codes "unknown"

-- `_failure_code`
abbrev pub failure_code : AttemptOutcome → Option Text → Option Text
failure_code AttemptOutcome.succeeded raw_status = none
failure_code outcome raw_status = or_text raw_status (some (outcome_text outcome))

-- `_failure_reason`
abbrev pub failure_reason : AttemptOutcome → Option Text → Option Text
failure_reason AttemptOutcome.succeeded message = none
failure_reason outcome message = message

abbrev pub kind_action : PayoutKind → AttemptOutcome → String
kind_action release AttemptOutcome.succeeded = "payout_release_succeeded"
kind_action release AttemptOutcome.failed_definite = "payout_release_failed_definite"
kind_action release AttemptOutcome.unknown = "payout_release_unknown"
kind_action refund AttemptOutcome.succeeded = "payout_refund_succeeded"
kind_action refund AttemptOutcome.failed_definite = "payout_refund_failed_definite"
kind_action refund AttemptOutcome.unknown = "payout_refund_unknown"

-- `_audit_payout_attempt`
abbrev pub audit_payout_attempt : PayoutAttempt → Transaction → Action (Unit {0})
audit_payout_attempt a t = record_money_audit_event (record {
  action = kind_action a.payout_kind a.outcome;
  actor_type = ActorType.system;
  actor_id = none;
  transaction_id = some t.id;
  escrow_id = some a.escrow_id;
  attempt_id = some a.id;
  amount = some a.amount;
})

-- `db.add(transaction)`: a row that did not change is not written, so its updated_at stays.
abbrev pub save_refreshed : Env → Transaction → Transaction → Action (Unit {0})
save_refreshed env t t1 =
    if is_payout_status t.payout_status t1.payout_status then pure tt else save_transaction env t1

-- The end of a round, which tells by which counter it counts.
unfoldable pub finish_attempt : Env → PayoutAttempt → Transaction → Action AttemptOutcome
finish_attempt env a t = do
  audit_payout_attempt a t
  t1 ← refresh_transaction_payout_status env t
  save_refreshed env t t1
  pure a.outcome

abbrev pub failed_attempt : Env → AttemptOutcome → Text → Text → PayoutAttempt → PayoutAttempt
failed_attempt env outcome code reason a = record a {
  outcome = outcome;
  failure_code = some code;
  failure_reason = some reason;
  attempted_at = env.now;
}

-- An attempt without its escrow or its transaction.
abbrev pub give_up : Env → Text → Text → PayoutAttempt → Action AttemptOutcome
give_up env code reason a = do
  save_attempt (failed_attempt env AttemptOutcome.failed_definite code reason a)
  pure AttemptOutcome.failed_definite

-- An attempt that stays open.
unfoldable pub hold_attempt :
    Env → Text → Text → PayoutAttempt → Transaction → Action AttemptOutcome
hold_attempt env code reason a t = do
  let held : PayoutAttempt = failed_attempt env AttemptOutcome.unknown code reason a
  save_attempt held
  finish_attempt env held t

abbrev pub fail_rail : Env → PayoutAttempt → Action (Unit {0})
fail_rail env a = modify λ db. record db {
  rail_health =
      record_rail_failure default_policy env.now a.rail_name (some a.rail_name) a.failure_code
        a.failure_reason db.rail_health;
}

abbrev pub succeed_rail : Env → PayoutAttempt → Action (Unit {0})
succeed_rail env a = modify λ db. record db {
  rail_health = record_rail_success env.now a.rail_name (some a.rail_name) db.rail_health;
}

-- A request that raised, with the failure of the rail.
unfoldable pub refuse_attempt : Env → Text → PayoutAttempt → Transaction → Action AttemptOutcome
refuse_attempt env reason a t = do
  let held : PayoutAttempt =
      failed_attempt env AttemptOutcome.unknown (codes "rail_request_error") reason a
  save_attempt held
  fail_rail env held
  finish_attempt env held t

abbrev pub payable_account : PayoutKind → Text
payable_account release = codes "SELLER_PAYABLE"
payable_account refund = codes "BUYER_REFUNDABLE"

abbrev pub payout_movement : Env → Escrow → PayoutAttempt → LedgerMovement
payout_movement env escrow a = record {
  escrow_id = escrow.id;
  idempotency_key = codes "outbox:" ++ env.uuid_text a.id;
  amount = a.amount;
  debit_account_code = payable_account a.payout_kind;
  credit_account_code = escrow_held_account;
  currency = kes;
}

abbrev pub paid_escrow : PayoutAttempt → Escrow → Escrow
paid_escrow a escrow = elim a.payout_kind [
  | release ↦ record escrow { released_amount = escrow.released_amount + a.amount }
  | refund ↦ record escrow { refunded_amount = escrow.refunded_amount + a.amount }
]

-- A posting that is new is committed by `post_movement` itself; only then the escrow's amount
-- changes.
unfoldable pub mark_paid : PayoutAttempt → Escrow → LedgerPostResult → Action (Unit {0})
mark_paid a escrow result =
    if result.created_entries == 2 then (do commit; save_escrow (paid_escrow a escrow)) else pure tt

unfoldable pub settle_funded : Env → PayoutAttempt → Escrow → Transaction → Action AttemptOutcome
settle_funded env a escrow t = do
  result ← post_movement (some escrow.transaction_id) (payout_movement env escrow a)
  mark_paid a escrow result
  finish_attempt env a t

-- `available_balance < attempt.amount`
abbrev pub lacks_balance : Escrow → ℕ → Bool
lacks_balance escrow amount =
    ltb escrow.funded_amount (escrow.released_amount + escrow.refunded_amount + amount)

abbrev pub insufficient_reason : Text
insufficient_reason = codes "Escrow funded balance is insufficient for payout settlement."

unfoldable pub settle_success : Env → PayoutAttempt → Escrow → Transaction → Action AttemptOutcome
settle_success env a escrow t =
    if lacks_balance escrow a.amount
    then hold_attempt env (codes "insufficient_funded_balance") insufficient_reason a t
    else settle_funded env a escrow t

-- The attempt as the rail's answer changes it.
abbrev pub answered_attempt : Env → PayoutResult → PayoutAttempt → PayoutAttempt
answered_attempt env result a = record a {
  provider_reference = or_text (some result.provider_reference) a.provider_reference;
  raw_status = result.raw_status;
  outcome = result.outcome;
  failure_code = failure_code result.outcome result.raw_status;
  failure_reason = failure_reason result.outcome result.message;
  attempted_at = env.now;
}

unfoldable pub settle_by :
    Env → AttemptOutcome → PayoutAttempt → Escrow → Transaction → Action AttemptOutcome
settle_by env AttemptOutcome.succeeded a escrow t = do
  succeed_rail env a
  settle_success env a escrow t
settle_by env AttemptOutcome.failed_definite a escrow t = do fail_rail env a; finish_attempt env a t
settle_by env AttemptOutcome.unknown a escrow t = do fail_rail env a; finish_attempt env a t

unfoldable pub record_answer :
    Env → PayoutAttempt → Escrow → Transaction → PayoutResult → Action AttemptOutcome
record_answer env a escrow t result = do
  save_attempt (answered_attempt env result a)
  settle_by env result.outcome (answered_attempt env result a) escrow t
