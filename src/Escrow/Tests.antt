-- ===== src/Escrow/Tests.antt =====
-- Postings, fundings and splits of concrete amounts.
use vekro_backend.Base.{
  ◌+◌, ◌*◌, ◌≤◌, ◌≡◌, refl, arith, false, some, none, [], codes, strip, text_eq, lookup, pos, ◌+ℤ◌,
}
use vekro_backend.Model.Status.{CustodyProvider}
use vekro_backend.Model.Rows.{Escrow}
use vekro_backend.Model.Db.{Db}
use vekro_backend.Session.{Session, ok}
use vekro_backend.Escrow.Ledger.{
  LedgerMovement, LedgerPostResult, post_movement, post_escrow_funding, funding_movement,
  debit_total, credit_total, get_escrow_held_balance, check_movement, entries_by_idempotency_key,
  replay_or_post,
}
use vekro_backend.Escrow.Ledger.Balance.{post_twice, post-balanced, replayed}
use vekro_backend.Escrow.Ledger.Funding.{funding_credits}
use vekro_backend.Escrow.Split.{split_amounts, unit_ratio}
use vekro_backend.Escrow.Split.Shares.{split_conserves, split_nearest}

abbrev fresh : Db
fresh = record {
  users = [];
  listings = [];
  transactions = [];
  disputes = [];
  escrows = [];
  payout_attempts = [];
  ledger_entries = [];
  rail_health = λ _. none;
  payment_prompts = [];
  notifications = [];
  money_audit_events = [];
  anchor_events = [];
  next_id = 100;
}

abbrev start : Session
start = record { committed = fresh; work = fresh }

abbrev test_escrow : Escrow
test_escrow = record {
  id = 9;
  transaction_id = 1;
  buyer_id = 10;
  seller_id = 20;
  amount_total = 150000;
  funded_amount = 0;
  released_amount = 0;
  refunded_amount = 0;
  custody_provider = CustodyProvider.simulated;
  econfirm_transaction_id = none;
  econfirm_confirmation_code = none;
}

abbrev test_movement : LedgerMovement
test_movement = funding_movement test_escrow (codes " callback-funding:1")

abbrev first_posting : LedgerPostResult
first_posting = record { entry_group_id = 100; created_entries = 2; was_idempotent_replay = false }

post_twice_example :
    post_movement (some 1) test_movement (post_movement (some 1) test_movement start).1
    ≡ (ok (replayed first_posting), (post_movement (some 1) test_movement start).1)
unfolding post_movement check_movement entries_by_idempotency_key replay_or_post strip text_eq
post_twice_example = post_twice (some 1) test_movement start first_posting refl

post-balanced_example :
    debit_total (post_movement (some 1) test_movement start).1.work.ledger_entries
    ≡ credit_total (post_movement (some 1) test_movement start).1.work.ledger_entries
post-balanced_example = post-balanced (some 1) test_movement start refl

funding_credits_example :
    (get_escrow_held_balance 9
        (post_escrow_funding test_escrow (codes "key") start).1.work.ledger_entries
      ≡ pos 150000 +ℤ get_escrow_held_balance 9 [])
    × (lookup 1 (post_escrow_funding test_escrow (codes "key") start).1.work.escrows
        ≡ some (record test_escrow { funded_amount = 150000 }))
unfolding post_escrow_funding post_movement check_movement entries_by_idempotency_key replay_or_post
    strip text_eq
funding_credits_example = funding_credits test_escrow (codes "key") start refl

split_conserves_example : (split_amounts 333333 3333).0 + (split_amounts 333333 3333).1 ≡ 333333
split_conserves_example = split_conserves 333333 3333 (omega arith)

split_nearest_example :
    (2 * (unit_ratio * (split_amounts 333333 3333).0) ≤ 2 * (333333 * 3333) + unit_ratio)
    × (2 * (333333 * 3333) ≤ 2 * (unit_ratio * (split_amounts 333333 3333).0) + unit_ratio)
split_nearest_example = split_nearest 333333 3333
