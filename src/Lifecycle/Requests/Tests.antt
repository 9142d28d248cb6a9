-- ===== src/Lifecycle/Requests/Tests.antt =====
-- A small database and runs of requests on it.
use vekro_backend.Base.{
  ℕ, ◌≡◌, refl, arith, true, false, Option, some, none, List, [], ◌∷◌, codes, lookup, insert,
  length, strip,
}
use vekro_backend.Model.Status.{
  TransactionStatus, TransactionStatus-discrete, UserRole, TransactionPayoutStatus, CustodyProvider,
}
use vekro_backend.Model.Rows.{Transaction, User, Listing}
use vekro_backend.Model.Db.{Db, AnchorEvent, transition}
use vekro_backend.Model.Status.ActorType.{provider}
use vekro_backend.Rails.Health.{RailName}
use vekro_backend.Rails.Registry.{CustodyRegistry, select_payout_rail_for_routing}
use vekro_backend.Session.{Session, Env, Error, request}
use vekro_backend.Lifecycle.Transitions.{guarded_transaction}
use vekro_backend.Lifecycle.Delivery.{
  dispatch_transaction, mark_transaction_arrived, confirm_buyer_delivery_otp, confirm_checked,
  check_code, accept_otp, reject_otp, hold_or_release, hold_item, release_item,
}
use vekro_backend.Escrow.Outbox.{
  queue_release_full, queue_refund_full, enqueue_payout_intent, enqueue_ready, ensure_escrow,
  reuse_or_queue, queue_new, default_payout_rail_name,
}
use vekro_backend.Lifecycle.Deadlines.{due_rows}
use vekro_backend.Lifecycle.Sweep.{
  run_timeout_jobs, run_sweep, sweep_rows, sweep_row, finish_timeout, due_under, time_out,
}
use vekro_backend.Lifecycle.Sweep.Laws.{SweepEnds, sweep_clears}
use vekro_backend.Lifecycle.Requests.{
  Call, asked, swept, dispatched, arrived, code_given, perform, serve,
}
use vekro_backend.Lifecycle.Story.{IsLogged}
use vekro_backend.Lifecycle.Requests.Laws.{
  FollowsCalls, log_tells_status, status_follows_moves, settled_stays, request_atomic,
}

abbrev test_registry : CustodyRegistry
test_registry = record {
  capabilities = record {
    holds_funds_structurally = false;
    supports_split_payout = false;
    supports_partial_release = false;
  };
  collection_rails = λ _. true;
  payout_rails = λ _. true;
  collection_priority = RailName.simulated ∷ [];
  payout_priority = RailName.simulated ∷ [];
  live_payouts_enabled = false;
}

abbrev test_hash : List ℕ → ℕ
test_hash [] = 7
test_hash (c ∷ _) = c

abbrev test_env : Env
test_env = record {
  now = 90000;
  hmac = test_hash;
  uuid_text = λ id. id ∷ [];
  generated_otp = codes "4711";
  production = false;
  registry = test_registry;
  outbox_ready = true;
  ledger_ready = true;
}

abbrev user_row : ℕ → UserRole → User
user_row id role = record {
  id = id;
  role = role;
  phone = codes "0700";
  mpesa_phone = none;
  is_active = true;
}

abbrev the_buyer : User
the_buyer = user_row 10 UserRole.buyer

abbrev the_seller : User
the_seller = user_row 20 UserRole.seller

abbrev stranger : User
stranger = user_row 30 UserRole.seller

abbrev test_listing : Listing
test_listing = record {
  id = 5;
  seller_id = 20;
  price = 150000;
  is_serialized = false;
  allowed_seller_actions = none;
  door_reject_reasons = none;
  archived_at = none;
}

abbrev pub sale : TransactionStatus → Transaction
sale status = record {
  id = 1;
  listing_id = 5;
  buyer_id = 10;
  seller_id = 20;
  amount = 150000;
  status = status;
  payout_status = TransactionPayoutStatus.not_required;
  locked_at = some 80000;
  dispatched_at = none;
  at_door_at = none;
  delivery_otp_hash = none;
  otp_failed_attempts = 0;
  hold_started_at = none;
  door_rejection_reason = none;
  door_rejection_note = none;
  released_at = none;
  refunded_at = none;
  custody_provider = CustodyProvider.simulated;
  updated_at = 80000;
}

abbrev told : TransactionStatus → AnchorEvent
told status = record {
  transaction_id = some 1;
  payload = transition (record {
    from_status = TransactionStatus.awaiting_payment;
    to_status = status;
    actor_type = provider;
    actor_id = none;
    reason = "test";
    at = 80000;
    door_rejection_reason = none;
  });
}

abbrev shop : TransactionStatus → Db
shop status = record {
  users = (10, the_buyer) ∷ (20, the_seller) ∷ [];
  listings = (5, test_listing) ∷ [];
  transactions = (1, sale status) ∷ [];
  disputes = [];
  escrows = [];
  payout_attempts = [];
  ledger_entries = [];
  rail_health = λ _. none;
  payment_prompts = [];
  notifications = [];
  money_audit_events = [];
  anchor_events = told status ∷ [];
  next_id = 100;
}

shop-IsLogged : (status : TransactionStatus) → IsLogged (shop status)
unfolding lookup
shop-IsLogged status = ((refl, tt), λ j t h. ground arith)

-- A delivery with a wrong code in between.
abbrev delivery : List (Env × Call)
delivery =
    (test_env, asked (dispatched 1 the_seller))
    ∷ (test_env, asked (arrived 1 the_seller))
    ∷ (test_env, asked (code_given 1 the_buyer (codes "9999")))
    ∷ (test_env, asked (code_given 1 the_buyer (codes "4711")))
    ∷ []

log_tells_status_example : IsLogged (serve delivery (shop TransactionStatus.locked))
log_tells_status_example =
    log_tells_status delivery (shop TransactionStatus.locked)
      (shop-IsLogged TransactionStatus.locked)

status_follows_moves_example :
    FollowsCalls delivery 1
      (sale TransactionStatus.locked)
      (serve delivery (shop TransactionStatus.locked))
unfolding lookup
status_follows_moves_example =
    status_follows_moves delivery (shop TransactionStatus.locked)
      (shop-IsLogged TransactionStatus.locked) 1 (sale TransactionStatus.locked) refl

abbrev late_dispatch : List (Env × Call)
late_dispatch = (test_env, asked (dispatched 1 the_seller)) ∷ []

settled_stays_example : (sale TransactionStatus.released).status ≡ TransactionStatus.released
unfolding serve perform dispatch_transaction guarded_transaction lookup TransactionStatus-discrete
settled_stays_example =
    settled_stays late_dispatch (shop TransactionStatus.released)
      (shop-IsLogged TransactionStatus.released) 1 (sale TransactionStatus.released)
      (sale TransactionStatus.released) refl refl refl

request_atomic_example :
    (request (perform test_env (dispatched 1 stranger)) (shop TransactionStatus.locked)).1
    ≡ shop TransactionStatus.locked
unfolding perform dispatch_transaction guarded_transaction lookup TransactionStatus-discrete
request_atomic_example =
    request_atomic test_env (dispatched 1 stranger) (shop TransactionStatus.locked)
      Error.dispatch_forbidden refl (λ e. cc)

abbrev status_and_payouts : Db → Option TransactionStatus × ℕ
status_and_payouts db = (
  elim (lookup 1 db.transactions) [ none ↦ none | some t ↦ some t.status ],
  length db.payout_attempts,
)

-- The delivery ends in a release with one payout in the outbox, in spite of the wrong code.
delivery_releases :
    status_and_payouts (serve delivery (shop TransactionStatus.locked))
    ≡ (some TransactionStatus.released, 1)
unfolding serve perform dispatch_transaction mark_transaction_arrived confirm_buyer_delivery_otp
    guarded_transaction confirm_checked check_code accept_otp reject_otp hold_or_release hold_item
    release_item queue_release_full enqueue_payout_intent enqueue_ready ensure_escrow reuse_or_queue
    queue_new default_payout_rail_name lookup insert TransactionStatus-discrete strip
    select_payout_rail_for_routing
delivery_releases = refl

abbrev on_the_way : Session
on_the_way = record {
  committed = shop TransactionStatus.out_for_delivery;
  work = shop TransactionStatus.out_for_delivery;
}

abbrev at_the_door : Transaction
at_the_door = record (sale TransactionStatus.at_door_pending_inspection) {
  at_door_at = some 90000;
  delivery_otp_hash = some (test_hash (codes "4711"));
}

abbrev much_later : Env
much_later = record test_env { now = 400000 }

sweep_clears_example :
    SweepEnds 400000
      (shop TransactionStatus.locked)
      (request (run_timeout_jobs much_later) (shop TransactionStatus.locked))
sweep_clears_example =
    sweep_clears much_later (shop TransactionStatus.locked) (shop-IsLogged TransactionStatus.locked)

-- A sale that was paid and never dispatched is refunded by the sweep.
sweep_refunds :
    status_and_payouts (serve ((much_later, swept) ∷ []) (shop TransactionStatus.locked))
    ≡ (some TransactionStatus.refunded_buyer, 1)
unfolding serve run_timeout_jobs run_sweep sweep_rows sweep_row finish_timeout due_under due_rows
    time_out queue_refund_full enqueue_payout_intent enqueue_ready ensure_escrow reuse_or_queue
    queue_new default_payout_rail_name lookup insert TransactionStatus-discrete strip
    select_payout_rail_for_routing
sweep_refunds = refl
