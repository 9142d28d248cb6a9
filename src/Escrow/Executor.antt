-- ===== src/Escrow/Executor.antt =====
-- The payout executor: run_payout_executor_once of app/services/escrow_service.py. The adapters of
-- the rails and the decryption of the eConfirm code are parameters. One executor runs at a time, so
-- the row locks of the query are left out.
pub mod Bounds
pub mod Tests
use vekro_backend.Base.{
  ℕ, ◌+◌, ◌==◌, Bool, true, false, not, ◌&&◌, ◌||◌, Option, none, some, List, [], ◌∷◌, ◌++◌,
  reverse, keep, codes, text_eq, is_empty, strip, lower_char, map, lookup, Table, Text, length,
  take, if◌then◌else◌,
}
use vekro_backend.Model.Status.{AttemptOutcome, is_econfirm}
use vekro_backend.Model.Rows.{Transaction, Escrow, PayoutAttempt, release, refund}
use vekro_backend.Model.Phone.{normalize_phone}
use vekro_backend.Rails.Health.{RailName, simulated, loop, pesapal, intasend, econfirm}
use vekro_backend.Rails.Registry.{get_payout_rail}
use vekro_backend.Session.{Env, Error, Action, pure, gets, or_raise, commit, ◌>>=◌, ◌>>◌}
use vekro_backend.Escrow.Outbox.{is_unknown, resolve_destination_phone}
use vekro_backend.Escrow.Settlement.{
  PayoutResult, Reply, PayoutRails, give_up, hold_attempt, refuse_attempt, record_answer, answered,
  refused,
}

-- `provider_reference.split(":")`
unfoldable pub split_colons : Text → List Text
split_colons [] = [] ∷ []
split_colons (c ∷ cs) =
    let rest = split_colons cs in
    if c == b':'
    then [] ∷ rest
    else elim rest [ [] ↦ (c ∷ []) ∷ [] | part ∷ parts ↦ (c ∷ part) ∷ parts ]

abbrev pub scenario_of : List Text → Text
scenario_of (a ∷ b ∷ c ∷ d ∷ _) = if text_eq a (codes "sim") then map lower_char (strip c) else []
scenario_of _ = []

-- `_scenario_from_provider_reference`
abbrev pub scenario_from_provider_reference : Text → Text
scenario_from_provider_reference reference = scenario_of (split_colons reference)

abbrev pub is_out_of_order : Option Text → Bool
is_out_of_order none = false
is_out_of_order (some raw_status) =
    text_eq raw_status (codes "out_of_order_pending")
    || text_eq raw_status (codes "settled_after_out_of_order")

-- `_resolve_payout_status_with_inquiry`
unfoldable pub resolve_payout_status_with_inquiry :
    PayoutRails → PayoutAttempt → Text → Option PayoutResult
unfolding split_colons text_eq strip
resolve_payout_status_with_inquiry rails a reference =
    if text_eq (scenario_from_provider_reference reference) (codes "out_of_order")
      && is_out_of_order a.raw_status
    then some (record {
      outcome = AttemptOutcome.succeeded;
      provider_reference = reference;
      raw_status = some (codes "settled_after_out_of_order");
      message = some (codes "Simulated rail reconciled previously out-of-order flow.");
    })
    else rails.get_payout_status a.rail_name reference

-- `escrow_reference`
abbrev pub reference_of : Env → Escrow → Text
reference_of env escrow = elim escrow.econfirm_transaction_id [
  | some (c ∷ cs) ↦ if is_econfirm escrow.custody_provider then c ∷ cs else env.uuid_text escrow.id
  | _ ↦ env.uuid_text escrow.id
]

abbrev pub phone_error : Text
phone_error = codes "Phone number must contain 7-15 digits and optional leading +."

-- `rail.request_payout(PayoutRequest(...))`: the request normalises the phone number or raises.
abbrev pub requested :
    Env → PayoutRails → PayoutAttempt → Escrow → Option Text → Option Text → Reply
requested env rails a escrow code none = refused phone_error
requested env rails a escrow code (some phone) = rails.request_payout a.id a.rail_name (record {
  escrow_reference = reference_of env escrow;
  amount = a.amount;
  destination_phone = phone;
  purpose = a.purpose;
  confirmation_code = code;
})

unfoldable pub take_reply :
    Env → PayoutAttempt → Escrow → Transaction → Reply → Action AttemptOutcome
take_reply env a escrow t (answered result) = record_answer env a escrow t result
take_reply env a escrow t (refused reason) = refuse_attempt env reason a t

-- `if escrow.econfirm_confirmation_code`: an empty text counts as none. The outer `none` is a code
-- that cannot be decrypted.
abbrev pub confirmation_code : PayoutRails → Escrow → Option (Option Text)
confirmation_code rails escrow = elim escrow.econfirm_confirmation_code [
  | some (c ∷ cs) ↦ elim (rails.decrypt_code (c ∷ cs)) [
    | none ↦ none
    | some code ↦ some (some code)
  ]
  | _ ↦ some none
]

abbrev pub decrypt_reason : Text
decrypt_reason =
    codes "Could not decrypt the eConfirm confirmation code; check ECONFIRM_CODE_ENCRYPTION_KEY."

unfoldable pub request_with :
    Env
    → PayoutRails
    → PayoutAttempt
    → Escrow
    → Transaction
    → Text
    → Option (Option Text)
    → Action AttemptOutcome
request_with env rails a escrow t phone none =
    hold_attempt env (codes "confirmation_code_decrypt_failed") decrypt_reason a t
request_with env rails a escrow t phone (some code) =
    take_reply env a escrow t (requested env rails a escrow code (normalize_phone phone))

unfoldable pub inquire :
    Env → PayoutRails → PayoutAttempt → Escrow → Transaction → Text → Action AttemptOutcome
inquire env rails a escrow t reference = do
  result ←
      or_raise (resolve_payout_status_with_inquiry rails a reference) Error.payout_inquiry_failed
  record_answer env a escrow t result

-- `if attempt.provider_reference`
unfoldable pub call_rail :
    Env → PayoutRails → PayoutAttempt → Escrow → Transaction → Text → Action AttemptOutcome
call_rail env rails a escrow t phone = elim a.provider_reference [
  | some (c ∷ cs) ↦ inquire env rails a escrow t (c ∷ cs)
  | _ ↦ request_with env rails a escrow t phone (confirmation_code rails escrow)
]

abbrev pub rail_text : RailName → Text
rail_text simulated = codes "simulated"
rail_text loop = codes "loop"
rail_text pesapal = codes "pesapal"
rail_text intasend = codes "intasend"
rail_text econfirm = codes "econfirm"

-- The text of the RuntimeError of `get_payout_rail`.
abbrev pub rail_error : Env → RailName → Text
rail_error env name =
    if not (env.registry.payout_rails name)
    then codes "Payout rail '" ++ (rail_text name ++ codes "' is not available at runtime.")
    else codes
        "Live payouts are blocked. Set ENVIRONMENT=production and ALLOW_LIVE_PAYOUTS=true to enable non-simulated payout rails."

unfoldable pub pay_to :
    Env → PayoutRails → PayoutAttempt → Escrow → Transaction → Text → Action AttemptOutcome
pay_to env rails a escrow t phone =
    if get_payout_rail env.registry a.rail_name
    then call_rail env rails a escrow t phone
    else hold_attempt env (codes "rail_unavailable") (rail_error env a.rail_name) a t

-- `_resolve_destination_phone_for_transaction`, where the attempt names no phone.
unfoldable pub phone_for : PayoutAttempt → Transaction → Action Text
phone_for a t =
    if is_empty (strip a.destination_phone)
    then resolve_destination_phone
        (elim a.payout_kind [ release ↦ t.seller_id | refund ↦ t.buyer_id ])
    else pure (strip a.destination_phone)

unfoldable pub execute_found :
    Env → PayoutRails → PayoutAttempt → Escrow → Option Transaction → Action AttemptOutcome
execute_found env rails a escrow none =
    give_up env (codes "transaction_missing")
      (codes "Transaction for payout attempt was not found.") a
execute_found env rails a escrow (some t) = do
  phone ← phone_for a t
  pay_to env rails a escrow t phone

unfoldable pub execute_for :
    Env → PayoutRails → PayoutAttempt → Option Escrow → Action AttemptOutcome
execute_for env rails a none =
    give_up env (codes "escrow_missing") (codes "Escrow for payout attempt was not found.") a
execute_for env rails a (some escrow) = do
  found ← gets (λ db. lookup escrow.transaction_id db.transactions)
  execute_found env rails a escrow found

-- `db.get(Escrow, id)`
unfoldable pub escrow_by_id : ℕ → Table Escrow → Option Escrow
escrow_by_id id [] = none
escrow_by_id id ((_, escrow) ∷ rows) =
    let rest = escrow_by_id id rows in if escrow.id == id then some escrow else rest

-- One round of the loop.
unfoldable pub execute_attempt : Env → PayoutRails → PayoutAttempt → Action AttemptOutcome
execute_attempt env rails a = do
  found ← gets (λ db. escrow_by_id a.escrow_id db.escrows)
  execute_for env rails a found

pub record PayoutExecutorRunResult : Type 0 where
  pub claimed : ℕ
  pub processed : ℕ
  pub succeeded : ℕ
  pub failed_definite : ℕ
  pub unknown : ℕ

abbrev pub count_outcome : AttemptOutcome → PayoutExecutorRunResult → PayoutExecutorRunResult
count_outcome AttemptOutcome.succeeded r = record r {
  processed = r.processed + 1;
  succeeded = r.succeeded + 1;
}
count_outcome AttemptOutcome.failed_definite r = record r {
  processed = r.processed + 1;
  failed_definite = r.failed_definite + 1;
}
count_outcome AttemptOutcome.unknown r = record r {
  processed = r.processed + 1;
  unknown = r.unknown + 1;
}

-- The loop; the counters are those of the rounds before.
unfoldable pub execute_all :
    Env
    → PayoutRails
    → List PayoutAttempt
    → PayoutExecutorRunResult
    → Action PayoutExecutorRunResult
execute_all env rails [] counts = pure counts
execute_all env rails (a ∷ more) counts = do
  outcome ← execute_attempt env rails a
  execute_all env rails more (count_outcome outcome counts)

abbrev pub is_open_attempt : PayoutAttempt → Bool
is_open_attempt a = is_unknown a.outcome

-- The open attempts that a run claims, oldest first.
unfoldable pub claim : ℕ → List PayoutAttempt → List PayoutAttempt
claim batch_size attempts = take batch_size (reverse (keep is_open_attempt attempts))

abbrev pub no_counts : ℕ → PayoutExecutorRunResult
no_counts n = record { claimed = n; processed = 0; succeeded = 0; failed_definite = 0; unknown = 0 }

unfoldable pub run_claimed : Env → PayoutRails → List PayoutAttempt → Action PayoutExecutorRunResult
run_claimed env rails [] = pure (no_counts 0)
run_claimed env rails (a ∷ more) = do
  result ← execute_all env rails (a ∷ more) (no_counts (length (a ∷ more)))
  commit
  pure result

-- `run_payout_executor_once`; a batch size of 0 or less claims nothing.
unfoldable pub run_payout_executor_once : Env → PayoutRails → ℕ → Action PayoutExecutorRunResult
run_payout_executor_once env rails batch_size =
    if env.outbox_ready
    then (do
      claimed ← gets (λ db. claim batch_size db.payout_attempts)
      run_claimed env rails claimed)
    else pure (no_counts 0)
