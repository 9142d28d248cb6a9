-- ===== src/Escrow/Outbox.antt =====
-- EscrowService of app/services/escrow_service.py: queueing payouts, and the payout status of a
-- transaction. A call returns the transaction as it has changed it in memory.
pub mod Frame
use Prim.Native.String.{String}
use vekro_backend.Base.{
  ℕ, ◌==◌, ltb, Bool, true, false, not, ◌&&◌, ◌||◌, Option, none, some, List, [], ◌∷◌, holds, any,
  all, first, get_or, or_text, is_empty, strip, lookup, if◌then◌else◌, Text,
}
use vekro_backend.Model.Status.{
  TransactionPayoutStatus, AttemptOutcome, is_econfirm, CustodyProvider, ActorType,
}
use vekro_backend.Model.Rows.{
  Transaction, Escrow, PayoutAttempt, PayoutKind, release, refund, Purpose, PurposePrefix,
  PurposePrefix-discrete, User,
}
use vekro_backend.Model.Db.{Db}
use vekro_backend.Rails.Health.{RailName}
use vekro_backend.Rails.Registry.{select_payout_rail_for_routing}
use vekro_backend.Session.{
  Env, Error, Result, ok, err, Session, Action, pure, raise, gets, or_raise, require, modify, ◌>>=◌,
  ◌>>◌, escrow_service_error, new_id, save_escrow, record_money_audit_event,
}

-- `_normalize_amount`: an amount is a number of cents, so only its sign is left to test.
abbrev pub normalize_amount : ℕ → Action ℕ
normalize_amount amount = do require (ltb 0 amount) escrow_service_error; pure amount

abbrev pub same_purpose : Purpose → Purpose → Bool
same_purpose p q = holds (PurposePrefix-discrete p.prefix q.prefix) && p.subject == q.subject

abbrev pub is_failed : AttemptOutcome → Bool
is_failed AttemptOutcome.failed_definite = true
is_failed _ = false

abbrev pub is_succeeded : AttemptOutcome → Bool
is_succeeded AttemptOutcome.succeeded = true
is_succeeded _ = false

abbrev pub is_unknown : AttemptOutcome → Bool
is_unknown AttemptOutcome.unknown = true
is_unknown _ = false

abbrev pub has_reference : PayoutAttempt → Bool
has_reference attempt = elim attempt.provider_reference [ none ↦ false | some _ ↦ true ]

-- The rows of the query for an attempt that is still good.
abbrev pub is_live_attempt : ℕ → Purpose → PayoutAttempt → Bool
is_live_attempt escrow_id purpose attempt =
    attempt.escrow_id == escrow_id
    && same_purpose attempt.purpose purpose
    && not (is_failed attempt.outcome)

-- `latest_by_purpose`: of each purpose the first attempt, in a list that is newest first.
unfoldable pub latest_by_purpose : List Purpose → List PayoutAttempt → List PayoutAttempt
latest_by_purpose seen [] = []
latest_by_purpose seen (attempt ∷ attempts) =
    let older = latest_by_purpose seen attempts in
    let others = attempt ∷ latest_by_purpose (attempt.purpose ∷ seen) attempts in
    if any (same_purpose attempt.purpose) seen then older else others

abbrev pub is_pending : PayoutAttempt → Bool
is_pending a = is_unknown a.outcome && not (has_reference a)

abbrev pub is_unresolved : PayoutAttempt → Bool
is_unresolved a = is_unknown a.outcome && has_reference a

abbrev pub attempt_failed : PayoutAttempt → Bool
attempt_failed a = is_failed a.outcome

abbrev pub attempt_succeeded : PayoutAttempt → Bool
attempt_succeeded a = is_succeeded a.outcome

-- The ladder of tests at the end of `refresh_transaction_payout_status`.
unfoldable pub payout_status_of : List PayoutAttempt → TransactionPayoutStatus
payout_status_of [] = TransactionPayoutStatus.not_required
payout_status_of (a ∷ more) =
    if any is_pending (a ∷ more)
    then TransactionPayoutStatus.pending
    else if any is_unresolved (a ∷ more)
    then TransactionPayoutStatus.unknown
    else if all attempt_succeeded (a ∷ more)
    then TransactionPayoutStatus.succeeded
    else if any attempt_failed (a ∷ more)
    then TransactionPayoutStatus.failed_definite
    else TransactionPayoutStatus.pending

abbrev pub of_escrow : ℕ → PayoutAttempt → Bool
of_escrow escrow_id a = a.escrow_id == escrow_id

-- The attempts of one escrow, newest first.
unfoldable pub attempts_of : ℕ → List PayoutAttempt → List PayoutAttempt
attempts_of escrow_id [] = []
attempts_of escrow_id (a ∷ more) =
    let rest = attempts_of escrow_id more in if of_escrow escrow_id a then a ∷ rest else rest

abbrev pub refreshed_status : Transaction → Db → TransactionPayoutStatus
refreshed_status t db = elim (lookup t.id db.escrows) [
  | none ↦ TransactionPayoutStatus.not_required
  | some escrow ↦ payout_status_of (latest_by_purpose [] (attempts_of escrow.id db.payout_attempts))
]

unfoldable pub refresh_transaction_payout_status : Env → Transaction → Action Transaction
unfolding latest_by_purpose payout_status_of attempts_of
refresh_transaction_payout_status env t s =
    (ok (if env.outbox_ready then record t { payout_status = refreshed_status t s.work } else t), s)

abbrev pub new_escrow : ℕ → Transaction → ℕ → Escrow
new_escrow id t amount_total = record {
  id = id;
  transaction_id = t.id;
  buyer_id = t.buyer_id;
  seller_id = t.seller_id;
  amount_total = amount_total;
  funded_amount = 0;
  released_amount = 0;
  refunded_amount = 0;
  custody_provider = CustodyProvider.simulated;
  econfirm_transaction_id = none;
  econfirm_confirmation_code = none;
}

use_or_open_escrow : Transaction → Option Escrow → Action Escrow
use_or_open_escrow t (some escrow) = pure escrow
use_or_open_escrow t none = do
  amount_total ← normalize_amount t.amount
  id ← new_id
  save_escrow (new_escrow id t amount_total)
  pure (new_escrow id t amount_total)

-- `_ensure_escrow_for_transaction`; a transaction has one escrow at most.
unfoldable pub ensure_escrow : Transaction → Action Escrow
unfolding use_or_open_escrow
ensure_escrow t = do found ← gets (λ db. lookup t.id db.escrows); use_or_open_escrow t found

-- `(user.mpesa_phone or user.phone or "").strip()`
abbrev pub destination_of : User → Text
destination_of user = strip (get_or (or_text user.mpesa_phone (some user.phone)) [])

unfoldable pub resolve_destination_phone : ℕ → Action Text
resolve_destination_phone user_id = do
  found ← gets (λ db. lookup user_id db.users)
  user ← or_raise found escrow_service_error
  require (not (is_empty (destination_of user))) escrow_service_error
  pure (destination_of user)

-- `_default_payout_rail_name`: the router also writes the health rows that it has looked at.
unfoldable pub default_payout_rail_name : Env → Action RailName
default_payout_rail_name env s =
    let (picked, health) = select_payout_rail_for_routing env.now env.registry s.work.rail_health in
    or_raise picked escrow_service_error
      (record s { work = record s.work { rail_health = health } })

-- An escrow on eConfirm pays out through eConfirm.
unfoldable pub payout_rail_for_escrow : Env → Escrow → Action RailName
unfolding default_payout_rail_name
payout_rail_for_escrow env escrow =
    if is_econfirm escrow.custody_provider
    then pure RailName.econfirm
    else default_payout_rail_name env

-- The attempt that `_enqueue_payout_intent` adds to the outbox.
abbrev pub new_attempt : ℕ → ℕ → Escrow → Purpose → RailName → PayoutKind → ℕ → Text → PayoutAttempt
new_attempt now id escrow purpose rail kind amount phone = record {
  id = id;
  escrow_id = escrow.id;
  purpose = purpose;
  rail_name = rail;
  provider_reference = none;
  amount = amount;
  outcome = AttemptOutcome.unknown;
  payout_kind = kind;
  destination_phone = phone;
  raw_status = none;
  failure_code = none;
  failure_reason = none;
  attempted_at = now;
}

abbrev pub add_attempt : PayoutAttempt → Action (Unit {0})
add_attempt a = modify λ db. record db { payout_attempts = a ∷ db.payout_attempts }

abbrev pub queued_action : PayoutKind → String
queued_action release = "payout_release_queued"
queued_action refund = "payout_refund_queued"

-- Who acts in the audit trail of an EscrowService.
pub record Actor : Type 0 where
  pub actor_type : ActorType
  pub actor_id : Option ℕ

abbrev pub system_actor : Actor
system_actor = record { actor_type = ActorType.system; actor_id = none }

-- The end of `_enqueue_payout_intent`, where no attempt of that purpose is still good.
unfoldable pub queue_new :
    Env → Actor → Transaction → Escrow → Purpose → PayoutKind → ℕ → ℕ → Action Transaction
unfolding resolve_destination_phone payout_rail_for_escrow
queue_new env actor t escrow purpose kind destination_user_id amount = do
  phone ← resolve_destination_phone destination_user_id
  rail ← payout_rail_for_escrow env escrow
  id ← new_id
  add_attempt (new_attempt env.now id escrow purpose rail kind amount phone)
  record_money_audit_event (record {
    action = queued_action kind;
    actor_type = actor.actor_type;
    actor_id = actor.actor_id;
    transaction_id = some t.id;
    escrow_id = some escrow.id;
    attempt_id = some id;
    amount = some amount;
  })
  pure (record t { payout_status = TransactionPayoutStatus.pending })

-- `if existing is not None`
unfoldable pub reuse_or_queue :
    Env
    → Actor
    → Transaction
    → Escrow
    → Purpose
    → PayoutKind
    → ℕ
    → ℕ
    → Option PayoutAttempt
    → Action Transaction
reuse_or_queue env actor t escrow purpose kind destination_user_id amount (some _) =
    refresh_transaction_payout_status env t
reuse_or_queue env actor t escrow purpose kind destination_user_id amount none =
    queue_new env actor t escrow purpose kind destination_user_id amount

unfoldable pub enqueue_ready :
    Env → Actor → Transaction → Purpose → PayoutKind → ℕ → ℕ → Action Transaction
enqueue_ready env actor t purpose kind destination_user_id amount = do
  escrow ← ensure_escrow t
  existing ← gets (λ db. first (is_live_attempt escrow.id purpose) db.payout_attempts)
  reuse_or_queue env actor t escrow purpose kind destination_user_id amount existing

-- `_enqueue_payout_intent`. A purpose is never blank, so its test is left out.
unfoldable pub enqueue_payout_intent :
    Env → Actor → Transaction → Purpose → PayoutKind → ℕ → ℕ → Action Transaction
enqueue_payout_intent env actor t purpose kind destination_user_id amount = do
  payout_amount ← normalize_amount amount
  if env.outbox_ready
      then enqueue_ready env actor t purpose kind destination_user_id payout_amount
      else pure t

unfoldable pub queue_release_full : Env → Actor → Transaction → Purpose → Action Transaction
queue_release_full env actor t purpose =
    enqueue_payout_intent env actor t purpose release t.seller_id t.amount

unfoldable pub queue_refund_full : Env → Actor → Transaction → Purpose → Action Transaction
queue_refund_full env actor t purpose =
    enqueue_payout_intent env actor t purpose refund t.buyer_id t.amount
