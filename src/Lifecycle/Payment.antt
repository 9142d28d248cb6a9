-- ===== src/Lifecycle/Payment.antt =====
-- Payment confirmation: confirm_payment_callback and lock_transaction_after_custody_funding of
-- app/services/transaction.py, and resolve_open_prompt of app/services/payment_prompts.py.
use Prim.Native.String.{String}
use vekro_backend.Base.{
  ℕ, ◌==◌, Bool, true, false, not, ◌||◌, Option, none, some, List, [], ◌∷◌, ◌++◌, codes, lookup,
  Text, if◌then◌else◌,
}
use vekro_backend.Model.Status.{
  TransactionStatus, is_econfirm, ActorType, PaymentPromptStatus, PaymentFailureReason,
}
use vekro_backend.Model.Payload.{Payload, count, text, word}
use vekro_backend.Model.Rows.{Transaction, Escrow, PaymentPrompt}
use vekro_backend.Session.{
  Env, Error, Action, pure, gets, modify, commit, get_transaction, save_transaction,
  record_money_audit_event, ◌>>=◌, ◌>>◌,
}
use vekro_backend.Escrow.Outbox.{ensure_escrow}
use vekro_backend.Escrow.Ledger.{post_escrow_funding}
use vekro_backend.Lifecycle.Transitions.{transition_transaction, by_provider, by_system, in_status}
use vekro_backend.Lifecycle.Notices.{create_locked_notifications}

-- The fields of PaymentCallbackRequest that are read. A result code of 0 is success; a negative
-- code, which no provider documents, would be a failure like any other unlisted code.
pub record PaymentCallback : Type 0 where
  pub transaction_id : ℕ
  pub result_code : ℕ
  pub result_desc : Option Text
  pub checkout_request_id : Option Text
  pub merchant_request_id : Option Text
  pub provider_reference : Option Text

pub record PaymentCallbackResult : Type 0 where
  pub transaction : Transaction
  pub transitioned : Bool
  pub duplicate : Bool

-- FAILURE_REASON_BY_RESULT_CODE
unfoldable pub failure_reason_for : ℕ → PaymentFailureReason
failure_reason_for result_code =
    if result_code == 1
    then PaymentFailureReason.insufficient_funds
    else if result_code == 1032
    then PaymentFailureReason.cancelled
    else if result_code == 1037
    then PaymentFailureReason.timeout
    else if result_code == 2001
    then PaymentFailureReason.wrong_pin
    else PaymentFailureReason.provider_error

abbrev pub is_pending_prompt : PaymentPromptStatus → Bool
is_pending_prompt PaymentPromptStatus.pending = true
is_pending_prompt _ = false

unfoldable pub resolved_prompt : ℕ → ℕ → PaymentPrompt → PaymentPrompt
unfolding failure_reason_for
resolved_prompt now result_code prompt =
    if result_code == 0
    then record prompt { status = PaymentPromptStatus.succeeded; resolved_at = some now }
    else record prompt {
      status = PaymentPromptStatus.failed;
      failure_reason = some (failure_reason_for result_code);
      resolved_at = some now;
    }

-- `resolve_open_prompt` on the prompts, newest first: the latest prompt of the transaction is
-- resolved if it is pending.
unfoldable pub resolve_open_prompt : ℕ → ℕ → ℕ → List PaymentPrompt → List PaymentPrompt
unfolding resolved_prompt
resolve_open_prompt now transaction_id result_code [] = []
resolve_open_prompt now transaction_id result_code (prompt ∷ prompts) =
    let rest = resolve_open_prompt now transaction_id result_code prompts in
    if prompt.transaction_id == transaction_id
    then if is_pending_prompt prompt.status
      then resolved_prompt now result_code prompt ∷ prompts
      else prompt ∷ prompts
    else prompt ∷ rest

abbrev pub resolve_prompt : Env → ℕ → ℕ → Action (Unit {0})
resolve_prompt env transaction_id result_code = modify λ db. record db {
  payment_prompts = resolve_open_prompt env.now transaction_id result_code db.payment_prompts;
}

unfoldable pub audit_callback_funding : Transaction → Escrow → Bool → Action (Unit {0})
audit_callback_funding t escrow true = record_money_audit_event (record {
  action = "callback_funding_recorded";
  actor_type = ActorType.provider;
  actor_id = none;
  transaction_id = some t.id;
  escrow_id = some escrow.id;
  attempt_id = none;
  amount = some escrow.amount_total;
})
audit_callback_funding t escrow false = pure tt

unfoldable pub fund_by_callback : Env → Transaction → Escrow → Action (Unit {0})
fund_by_callback env t escrow = do
  posted ← post_escrow_funding escrow (codes "callback-funding:" ++ env.uuid_text t.id)
  audit_callback_funding t escrow posted

-- The part of `_record_simulated_callback_funding` behind its tests.
unfoldable pub record_callback_funding : Env → Transaction → Action (Unit {0})
record_callback_funding env t = do escrow ← ensure_escrow t; fund_by_callback env t escrow

-- `_record_simulated_callback_funding`
unfoldable pub record_simulated_callback_funding : Env → Transaction → Action (Unit {0})
record_simulated_callback_funding env t =
    if is_econfirm t.custody_provider || env.production || not env.ledger_ready
    then pure tt
    else record_callback_funding env t

abbrev pub callback_details : PaymentCallback → Payload
callback_details payload =
    ("result_code", count payload.result_code)
    ∷ ("result_desc", text payload.result_desc)
    ∷ ("checkout_request_id", text payload.checkout_request_id)
    ∷ ("merchant_request_id", text payload.merchant_request_id)
    ∷ ("provider_reference", text payload.provider_reference)
    ∷ []

abbrev pub ignored : Transaction → PaymentCallbackResult
ignored t = record { transaction = t; transitioned = false; duplicate = false }

-- A failed payment: the prompt learns why, while the transaction still waits for payment.
unfoldable pub callback_failed : Env → PaymentCallback → Transaction → Action PaymentCallbackResult
unfolding resolve_open_prompt
callback_failed env payload t =
    if in_status TransactionStatus.awaiting_payment t
    then (do resolve_prompt env t.id payload.result_code; commit; pure (ignored t))
    else pure (ignored t)

unfoldable pub finish_lock : Env → PaymentCallback → Transaction → Action PaymentCallbackResult
unfolding create_locked_notifications
finish_lock env payload t = do
  create_locked_notifications t (callback_details payload)
  save_transaction env t
  commit
  pure (record { transaction = t; transitioned = true; duplicate = false })

unfoldable pub callback_locks : Env → PaymentCallback → Transaction → Action PaymentCallbackResult
unfolding transition_transaction
callback_locks env payload t = do
  t1 ←
      transition_transaction env t TransactionStatus.locked
        (by_provider "payment_callback_confirmed")
  let t2 : Transaction = record t1 { locked_at = some env.now }
  resolve_prompt env t.id 0
  record_simulated_callback_funding env t2
  finish_lock env payload t2

-- What a callback does to a transaction that is paid through the simulated custody.
unfoldable pub confirm_simulated :
    Env → PaymentCallback → Transaction → Action PaymentCallbackResult
confirm_simulated env payload t =
    if not (payload.result_code == 0)
    then callback_failed env payload t
    else if in_status TransactionStatus.locked t
    then pure (record { transaction = t; transitioned = false; duplicate = true })
    else if not (in_status TransactionStatus.awaiting_payment t)
    then pure (ignored t)
    else callback_locks env payload t

unfoldable pub confirm_found : Env → PaymentCallback → Transaction → Action PaymentCallbackResult
confirm_found env payload t =
    if is_econfirm t.custody_provider then pure (ignored t) else confirm_simulated env payload t

-- `confirm_payment_callback`
unfoldable pub confirm_payment_callback : Env → PaymentCallback → Action PaymentCallbackResult
confirm_payment_callback env payload = do
  t ← get_transaction payload.transaction_id Error.not_found_for_callback
  confirm_found env payload t

unfoldable pub custody_locks : Env → Option Text → String → Transaction → Action Bool
unfolding transition_transaction resolve_open_prompt create_locked_notifications
custody_locks env provider_reference rail_name t = do
  t1 ← transition_transaction env t TransactionStatus.locked (by_system "custody_funding_confirmed")
  let t2 : Transaction = record t1 { locked_at = some env.now }
  save_transaction env t2
  resolve_prompt env t.id 0
  create_locked_notifications t2
      (("provider_reference", text provider_reference) ∷ ("rail_name", word rail_name) ∷ [])
  pure true

-- `if transaction is None or transaction.status != AWAITING_PAYMENT: return False`
unfoldable pub lock_if_awaiting : Env → Option Text → String → Option Transaction → Action Bool
unfolding custody_locks
lock_if_awaiting env provider_reference rail_name none = pure false
lock_if_awaiting env provider_reference rail_name (some t) =
    if in_status TransactionStatus.awaiting_payment t
    then custody_locks env provider_reference rail_name t
    else pure false

-- `lock_transaction_after_custody_funding`; its caller commits.
unfoldable pub lock_transaction_after_custody_funding : Env → ℕ → Option Text → String → Action Bool
unfolding lock_if_awaiting
lock_transaction_after_custody_funding env transaction_id provider_reference rail_name = do
  found ← gets (λ db. lookup transaction_id db.transactions)
  lock_if_awaiting env provider_reference rail_name found
