-- ===== src/Lib.antt =====
-- This library verifies the backend of Vekro, an escrow marketplace: a buyer pays into escrow, the
-- seller delivers, and the money is released, refunded or split.
--
-- The program's parts and their modules:
-- - Base: tests, lists, tables, texts and integers that the other modules share.
-- - Rails (app/services/custody/rail_breaker.py, registry.py; app/models/rail_health.py): the circuit
--   breaker of each payment rail, and the choice of a rail for a collection or a payout. Rails.Health
--   holds the rows, Rails.Breaker the operations on one row and on the table, Rails.Registry the
--   routing. Rails.Webhook is the collection callback of the Loop rail (custody/loop_webhook.py):
--   Payload reads and redacts the body, Signature checks the headers, Process is
--   process_loop_collection_webhook over the rows of app/models/provider_event.py, with the hash
--   functions, Python's repr and date parsers, and the provider's inquiry as parameters.
-- - Model (app/models): the enumerations, the rows of the tables, the payloads of notifications and
--   of anchor events, and the database Db, a record of tables.
-- - Session (app/db/session.py): a service call as a function of a session, which holds the committed
--   database and the working one; commit copies the second to the first, and an exception ends the
--   call with what was committed. A request runs in a session of its own.
-- - Escrow (app/services/escrow_service.py, ledger.py): Escrow.Outbox queues payouts and computes the
--   payout status of a transaction, Escrow.Ledger is the double-entry ledger, Escrow.Split divides an
--   amount between the parties, Escrow.Executor is run_payout_executor_once, which sends the queued
--   payouts to the rails, and Escrow.Settlement what it does with an answer. What a rail replies is a
--   parameter, the record PayoutRails.
--   Escrow.Reconciliation is run_payout_reconciliation, which alerts the administrators.
-- - Model.Phone (app/core/phone.py): normalize_phone on ASCII text.
-- - Lifecycle (app/services/transaction.py, transitions.py, dispute.py, dispute_escalation.py,
--   deadlines.py): one module per stage. Payment has confirm_payment_callback and
--   lock_transaction_after_custody_funding; Delivery has dispatch_transaction,
--   mark_transaction_arrived, confirm_buyer_delivery_otp and withhold_buyer_delivery_otp; Returns has
--   report_functional_issue, mark_buyer_sent_back and mark_seller_received; Reconfirmation has
--   submit_buyer_reconfirmation; Resolution has apply_seller_resolution_action; Closure has the two
--   resolution confirmations; Support has escalate_dispute and force_resolve_dispute_case; Deadlines has
--   deadlines_for and the queries of the timeout jobs; Sweep has run_timeout_jobs. Where a handler is
--   cut into helpers, the names ending in _checked are what follows its guards, and those beginning
--   with finish_ or conclude_ are its end. Lifecycle.Moves lists, independently of the handlers,
--   the moves between statuses that each kind of request and the sweep may make, Lifecycle.Effects
--   holds what single handlers do, Lifecycle.Story composes that over a call, and Lifecycle.Requests
--   serves sequences of requests and sweeps.
-- - Anchoring (app/services/anchoring/merkle.py, canonical.py, recorder.py): Anchoring.Merkle has the
--   tree over a batch of leaves, its root and inclusion proofs, and their verification. The hash keccak256 is a parameter, of which
--   only the size of a digest is used. Anchoring.Chain is the hash chain of recorder.py, with leaf_hash
--   of canonical.py; Anchoring.Canonical is canonical_json, and Anchoring.Canonical.Reader a strict
--   reader of JSON that follows the grammar and not the encoder; white space, fractions and exponents,
--   which canonical text has none of, are outside it.
-- - Accounts (app/services/auth.py, phone_auth.py, account_security.py; app/models/phone_code.py,
--   user_session.py): Accounts.Window has the two rate limits that are kept in memory, Accounts.Codes
--   the one-time codes by SMS, Accounts.Sessions the sessions and their revocation, Accounts.Login the
--   logins by password and by code and the change and reset of passwords. AccountEnv has the settings,
--   the clock, the random values and the hash functions, which are parameters. These functions take and
--   give back the database AccountDb of their own, as they commit it.
--
-- How the state corresponds: money is a number of cents, a ratio a number of ten-thousandths, a time
-- a number of seconds, an identifier a number, a text the list of its ASCII code points. The function
-- uuid4 is the counter Db.next_id. Tables that the code reads newest first are lists in that order;
-- tables that it reads by a key are association lists. A handler changes its transaction in memory and
-- stores it before its commit, which also sets updated_at, as SQLAlchemy's flush does. A flush within
-- a call is not told apart from the commit. Clock, secret, generated code, settings and registry are
-- the record Env, read once in a request.
--
-- Fuel: the recursions of the Merkle tree (subtree_root, proof_down, sides_down) run on the number of
-- leaves, which is enough since each split is smaller than what it splits; the bit length runs on the
-- number itself, which each step halves, and the decimal digits on the number, which each step divides
-- by ten. The reader of JSON runs on twice the length of its text, since each of its calls either
-- reads a character or is followed by one that does. Every other loop is structural recursion on a list.
--
-- Left out of what is modelled: log lines, the wording of exceptions, free-text reasons and details of
-- audit rows, descriptions and timestamps of ledger entries, hashes in the anchor log of Model.Db, the
-- handlers of database errors around the breaker, the reason that escalate_dispute keeps, and the keys
-- of a dispute's evidence that no service reads. A result code of a payment callback is a natural
-- number. Currency is always KES in an escrow, as the code sets it. A row that a query would select
-- in an unfinished flush is in the table at once.
--
-- post_movement is modelled without its commit, as post_escrow_funding calls it; where the executor
-- calls it with one, the commit stands in mark_paid. verify_inclusion is modelled with an index and a
-- size. A text that is shown to clients only, as by mask_phone, is left out.
--
-- Not modelled: create_transaction and resending a prompt, which call providers; the provider
-- adapters and the Pesapal webhook; the completeness guard and the linked global events of the anchor
-- recorder; registration, the list of devices, listings, read views, notification delivery, routers,
-- repairs and migrations.

pub mod Base
pub mod Rails
pub mod Model
pub mod Session
pub mod Escrow
pub mod Lifecycle
pub mod Anchoring
pub mod Accounts
