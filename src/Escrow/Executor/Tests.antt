-- ===== src/Escrow/Executor/Tests.antt =====
-- Runs of the payout executor on two attempts.
use vekro_backend.Base.{
  ℕ, ◌≡◌, refl, arith, true, false, Option, none, some, [], ◌∷◌, codes, length, lookup, insert,
  strip, text_eq, Text,
}
use vekro_backend.Model.Status.{
  AttemptOutcome, CustodyProvider, TransactionStatus, TransactionPayoutStatus,
  TransactionPayoutStatus-discrete,
}
use vekro_backend.Model.Rows.{Transaction, Escrow, PayoutAttempt, release, tx_release}
use vekro_backend.Model.Db.{Db}
use vekro_backend.Model.Phone.{normalize_phone}
use vekro_backend.Rails.Health.{RailName}
use vekro_backend.Rails.Registry.{get_payout_rail}
use vekro_backend.Session.{Env, request}
use vekro_backend.Escrow.Outbox.{refresh_transaction_payout_status, resolve_destination_phone}
use vekro_backend.Escrow.Ledger.{
  post_movement, check_movement, entries_by_idempotency_key, replay_or_post,
}
use vekro_backend.Escrow.Settlement.{
  PayoutRails, answered, record_answer, settle_by, settle_success, settle_funded, mark_paid,
  finish_attempt, write_attempt,
}
use vekro_backend.Escrow.Executor.{
  run_payout_executor_once, run_claimed, execute_all, execute_attempt, execute_for, execute_found,
  phone_for, pay_to, call_rail, request_with, take_reply, claim, escrow_by_id,
}
use vekro_backend.Escrow.Executor.Bounds.{IsSound, executor-IsSound}

abbrev pub test_env : Env
test_env = record {
  now = 90000;
  hmac = λ _. 0;
  uuid_text = λ id. id ∷ [];
  generated_otp = codes "4711";
  production = false;
  registry = record {
    capabilities = record {
      holds_funds_structurally = false;
      supports_split_payout = false;
      supports_partial_release = false;
    };
    collection_rails = λ _. true;
    payout_rails = λ _. true;
    collection_priority = RailName.simulated ∷ [];
    payout_priority = RailName.simulated ∷ [];
    live_payouts_enabled = false;
  };
  outbox_ready = true;
  ledger_ready = true;
}

-- A rail that always pays.
abbrev paying : PayoutRails
paying = record {
  request_payout = λ id rail r. answered (record {
    outcome = AttemptOutcome.succeeded;
    provider_reference = codes "ref";
    raw_status = none;
    message = none;
  });
  get_payout_status = λ rail reference. none;
  decrypt_code = λ code. none;
}

abbrev pub sold : ℕ → Transaction
sold id = record {
  id = id;
  listing_id = 5;
  buyer_id = 10;
  seller_id = 20;
  amount = 500;
  status = TransactionStatus.released;
  payout_status = TransactionPayoutStatus.pending;
  locked_at = none;
  dispatched_at = none;
  at_door_at = none;
  delivery_otp_hash = none;
  otp_failed_attempts = 0;
  hold_started_at = none;
  door_rejection_reason = none;
  door_rejection_note = none;
  released_at = none;
  refunded_at = none;
  custody_provider = CustodyProvider.simulated;
  updated_at = 80000;
}

abbrev funded : ℕ → ℕ → Escrow
funded id transaction_id = record {
  id = id;
  transaction_id = transaction_id;
  buyer_id = 10;
  seller_id = 20;
  amount_total = 500;
  funded_amount = 500;
  released_amount = 0;
  refunded_amount = 0;
  custody_provider = CustodyProvider.simulated;
  econfirm_transaction_id = none;
  econfirm_confirmation_code = none;
}

abbrev pub attempt_to : ℕ → ℕ → Text → PayoutAttempt
attempt_to id escrow_id phone = record {
  id = id;
  escrow_id = escrow_id;
  purpose = record { prefix = tx_release; subject = id };
  rail_name = RailName.simulated;
  provider_reference = none;
  amount = 500;
  outcome = AttemptOutcome.unknown;
  payout_kind = release;
  destination_phone = phone;
  raw_status = none;
  failure_code = none;
  failure_reason = none;
  attempted_at = 80000;
}

-- Two funded escrows and an attempt for each, the older one last. No user is stored, so an attempt
-- without a phone number raises.
abbrev pub outbox : Text → Db
outbox phone = record {
  users = [];
  listings = [];
  transactions = (1, sold 1) ∷ (2, sold 2) ∷ [];
  disputes = [];
  escrows = (1, funded 61 1) ∷ (2, funded 62 2) ∷ [];
  payout_attempts = attempt_to 72 62 phone ∷ attempt_to 71 61 (codes "0712345678") ∷ [];
  ledger_entries = [];
  rail_health = λ _. none;
  payment_prompts = [];
  notifications = [];
  money_audit_events = [];
  anchor_events = [];
  next_id = 100;
}

abbrev released_of : Option Escrow → ℕ
released_of none = 0
released_of (some escrow) = escrow.released_amount

-- What is released of the two escrows, and the entries of the ledger.
abbrev amounts : Db → ℕ × ℕ × ℕ
amounts db =
    (released_of (lookup 1 db.escrows), released_of (lookup 2 db.escrows), length db.ledger_entries)

executor-IsSound_example :
    IsSound (request (run_payout_executor_once test_env paying 25) (outbox (codes "0712345678"))).1
executor-IsSound_example =
    executor-IsSound test_env paying 25 (outbox (codes "0712345678"))
      ((omega arith, (omega arith, tt)), refl)

both_paid :
    amounts (request (run_payout_executor_once test_env paying 25) (outbox (codes "0712345678"))).1
    ≡ (500, 500, 4)
unfolding run_payout_executor_once run_claimed execute_all execute_attempt execute_for execute_found
    phone_for pay_to call_rail request_with take_reply record_answer settle_by settle_success
    settle_funded mark_paid TransactionPayoutStatus-discrete finish_attempt claim escrow_by_id
    write_attempt post_movement check_movement entries_by_idempotency_key replay_or_post lookup
    insert strip text_eq get_payout_rail refresh_transaction_payout_status normalize_phone
both_paid = refl

-- The second attempt raises after the ledger has committed the first: the first escrow's payout is
-- in the ledger, and its released amount is lost.
release_lost :
    amounts (request (run_payout_executor_once test_env paying 25) (outbox [])).1 ≡ (0, 0, 2)
unfolding run_payout_executor_once run_claimed execute_all execute_attempt execute_for execute_found
    phone_for pay_to call_rail request_with take_reply record_answer settle_by settle_success
    settle_funded mark_paid TransactionPayoutStatus-discrete finish_attempt claim escrow_by_id
    write_attempt post_movement check_movement entries_by_idempotency_key replay_or_post lookup
    insert strip text_eq get_payout_rail refresh_transaction_payout_status normalize_phone
    resolve_destination_phone
release_lost = refl
