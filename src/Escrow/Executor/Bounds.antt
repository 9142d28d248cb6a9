-- ===== src/Escrow/Executor/Bounds.antt =====
-- No run of the executor pays out more than an escrow holds, whatever the rails answer.
use vekro_backend.Base.{
  ℕ, ◌+◌, ◌≤◌, ◌≡◌, ◌==◌, arith, inl, inr, Bool, Bool-cases, true, false, Option, none, some, List,
  [], ◌∷◌, Table, Text, insert, if◌then◌else◌, codes, length, lookup, sym, subst,
}
use vekro_backend.Model.Status.{AttemptOutcome, is_payout_status}
use vekro_backend.Model.Rows.{Transaction, Escrow, PayoutAttempt, LedgerEntry}
use vekro_backend.Model.Db.{Db}
use vekro_backend.Session.{
  Env, Error, Session, Result, ok, err, Action, pure, gets, or_raise, commit, save_escrow,
  save_transaction, ◌>>=◌, ◌>>◌, request,
}
use vekro_backend.Escrow.Outbox.{resolve_destination_phone, refresh_transaction_payout_status}
use vekro_backend.Escrow.Ledger.{
  LedgerMovement, LedgerPostResult, debit_total, credit_total, post_movement, normalized,
  entries_by_idempotency_key, replay_or_post,
}
use vekro_backend.Escrow.Ledger.Balance.{post-balanced, check_movement-keeps}
use vekro_backend.Rails.Registry.{get_payout_rail}
use vekro_backend.Escrow.Settlement.{
  PayoutRails, Reply, answered, refused, PayoutResult, finish_attempt, hold_attempt, refuse_attempt,
  payout_movement, paid_escrow, mark_paid, settle_funded, lacks_balance, settle_success, settle_by,
  record_answer, answered_attempt, save_attempt, save_refreshed, audit_payout_attempt,
  failed_attempt,
}
use vekro_backend.Escrow.Executor.{
  take_reply, request_with, inquire, call_rail, pay_to, phone_for, execute_found, execute_for,
  execute_attempt, execute_all, run_claimed, run_payout_executor_once, escrow_by_id,
  confirmation_code, resolve_payout_status_with_inquiry, rail_error, PayoutExecutorRunResult,
  count_outcome, no_counts, claim,
}

-- What was released and what was refunded of an escrow are within what was paid in.
abbrev pub IsCovered : Escrow → Type 0
IsCovered escrow = escrow.released_amount + escrow.refunded_amount ≤ escrow.funded_amount

abbrev pub AreCovered : Table Escrow → Type 0
AreCovered [] = Unit {0}
AreCovered ((_, escrow) ∷ rows) = IsCovered escrow × AreCovered rows

-- Each escrow is covered, and the ledger is balanced.
abbrev pub IsSound : Db → Type 0
IsSound db =
    AreCovered db.escrows × (debit_total db.ledger_entries ≡ credit_total db.ledger_entries)

-- Both what is committed and what the session holds are sound.
abbrev BothSound : Session → Type 0
BothSound s = IsSound s.committed × IsSound s.work

abbrev Keeps : {A : Type 0} → Action A → Type 0
Keeps m = (s : Session) → BothSound s → BothSound (m s).1

insert-AreCovered :
    (k : ℕ) (escrow : Escrow) (rows : Table Escrow)
    → IsCovered escrow
    → AreCovered rows
    → AreCovered (insert k escrow rows)
unfolding insert
insert-AreCovered k escrow [] c h = (c, tt)
insert-AreCovered k escrow ((j, e) ∷ rows) c h = elim (Bool-cases (j == k)) [
  | inl here ↦ rw here (c, h.1)
  | inr there ↦ rw there (h.0, insert-AreCovered k escrow rows c h.1)
]

found-IsCovered :
    (id : ℕ) (rows : Table Escrow) (escrow : Escrow)
    → AreCovered rows
    → escrow_by_id id rows ≡ some escrow
    → IsCovered escrow
unfolding escrow_by_id
found-IsCovered id [] escrow h e = let clash : none ≡ some escrow = e in cc
found-IsCovered id ((_, x) ∷ rows) escrow h e = elim (Bool-cases (x.id == id)) [
  | inl here ↦ let same : some x ≡ some escrow = rw here at e in ground arith
  | inr there ↦ found-IsCovered id rows escrow h.1 (rw there at e)
]

Keeps-through :
    {A B : Type 0} (f : A → Action B) (r : Result A × Session)
    → BothSound r.1
    → ((a : A) → Keeps (f a))
    → BothSound (((λ _. r) >>= f) r.1).1
Keeps-through f (ok a, s) h hf = hf a s h
Keeps-through f (err e, s) h hf = h

Keeps-bind :
    {A B : Type 0} (m : Action A) (f : A → Action B)
    → Keeps m
    → ((a : A) → Keeps (f a))
    → Keeps (m >>= f)
Keeps-bind m f hm hf s h = Keeps-through f (m s) (hm s h) hf

Keeps-if :
    {A : Type 0} (test : Bool) (m k : Action A) → Keeps m → Keeps k → Keeps (if test then m else k)
Keeps-if true m k hm hk = hm
Keeps-if false m k hm hk = hk

Keeps-raise : {A : Type 0} (o : Option A) (e : Error) → Keeps (or_raise o e)
Keeps-raise none e s h = h
Keeps-raise (some a) e s h = h

refreshed-Keeps : (env : Env) (t t1 : Transaction) → Keeps (save_refreshed env t t1)
refreshed-Keeps env t t1 =
    Keeps-if (is_payout_status t.payout_status t1.payout_status) (pure tt) (save_transaction env t1)
      (λ s h. h) (λ s h. h)

finish-Keeps : (env : Env) (a : PayoutAttempt) (t : Transaction) → Keeps (finish_attempt env a t)
unfolding finish_attempt refresh_transaction_payout_status
finish-Keeps env a t =
    Keeps-bind (audit_payout_attempt a t)
      (λ _.
        refresh_transaction_payout_status env t >>= λ t1. save_refreshed env t t1 >> pure a.outcome)
      (λ s h. h)
      (λ _.
        Keeps-bind (refresh_transaction_payout_status env t)
          (λ t1. save_refreshed env t t1 >> pure a.outcome) (λ s h. h)
          (λ t1.
            Keeps-bind (save_refreshed env t t1) (λ _. pure a.outcome) (refreshed-Keeps env t t1)
              (λ _ s h. h)))

hold-Keeps :
    (env : Env) (code reason : Text) (a : PayoutAttempt) (t : Transaction)
    → Keeps (hold_attempt env code reason a t)
unfolding hold_attempt
hold-Keeps env code reason a t s h =
    finish-Keeps env (failed_attempt env AttemptOutcome.unknown code reason a) t _ h

refuse-Keeps :
    (env : Env) (reason : Text) (a : PayoutAttempt) (t : Transaction)
    → Keeps (refuse_attempt env reason a t)
unfolding refuse_attempt
refuse-Keeps env reason a t s h =
    finish-Keeps env
      (failed_attempt env AttemptOutcome.unknown (codes "rail_request_error") reason a) t _ h

-- What a posting leaves alone.
replay-rest :
    (id : Option ℕ) (m : LedgerMovement) (old : List LedgerEntry) (s : Session)
    → ((replay_or_post id m old s).1.committed ≡ s.committed)
      × ((replay_or_post id m old s).1.work.escrows ≡ s.work.escrows)
unfolding replay_or_post
replay-rest id m old s = ground arith

post-rest :
    (id : Option ℕ) (movement : LedgerMovement) (s : Session)
    → ((post_movement id movement s).1.committed ≡ s.committed)
      × ((post_movement id movement s).1.work.escrows ≡ s.work.escrows)
unfolding post_movement
post-rest id movement s =
    let m = normalized movement in
    ground (
      arith,
      check_movement-keeps m s,
      replay-rest id m (entries_by_idempotency_key m.idempotency_key s.work.ledger_entries) s,
    )

post-Keeps : (id : Option ℕ) (movement : LedgerMovement) → Keeps (post_movement id movement)
post-Keeps id movement s (c, (covered, balanced)) =
    let rest = post-rest id movement s in
    (
      subst IsSound (sym rest.0) c,
      (subst AreCovered (sym rest.1) covered, post-balanced id movement s balanced),
    )

-- The amount of an attempt still fits.
abbrev Fits : PayoutAttempt → Escrow → Type 0
Fits a escrow = escrow.released_amount + escrow.refunded_amount + a.amount ≤ escrow.funded_amount

paid-IsCovered :
    (a : PayoutAttempt) (escrow : Escrow) → Fits a escrow → IsCovered (paid_escrow a escrow)
paid-IsCovered a escrow h = ground arith

mark-Keeps :
    (a : PayoutAttempt) (escrow : Escrow) (result : LedgerPostResult)
    → Fits a escrow
    → Keeps (mark_paid a escrow result)
unfolding mark_paid
mark-Keeps a escrow result fits =
    Keeps-if (result.created_entries == 2) (commit >> save_escrow (paid_escrow a escrow)) (pure tt)
      (λ s h. (
        h.1,
        (
          insert-AreCovered (paid_escrow a escrow).transaction_id (paid_escrow a escrow)
              s.work.escrows (paid-IsCovered a escrow fits) h.1.0,
          h.1.1,
        ),
      ))
      (λ s h. h)

settle_funded-Keeps :
    (env : Env) (a : PayoutAttempt) (escrow : Escrow) (t : Transaction)
    → Fits a escrow
    → Keeps (settle_funded env a escrow t)
unfolding settle_funded
settle_funded-Keeps env a escrow t fits =
    Keeps-bind (post_movement (some escrow.transaction_id) (payout_movement env escrow a))
      (λ result. mark_paid a escrow result >> finish_attempt env a t)
      (post-Keeps (some escrow.transaction_id) (payout_movement env escrow a))
      (λ result.
        Keeps-bind (mark_paid a escrow result) (λ _. finish_attempt env a t)
          (mark-Keeps a escrow result fits) (λ _. finish-Keeps env a t))

settle_success-Keeps :
    (env : Env) (a : PayoutAttempt) (escrow : Escrow) (t : Transaction)
    → Keeps (settle_success env a escrow t)
unfolding settle_success
settle_success-Keeps env a escrow t = elim (Bool-cases (lacks_balance escrow a.amount)) [
  | inl lacks ↦ rw lacks (hold-Keeps env _ _ a t)
  | inr covers ↦ rw covers (settle_funded-Keeps env a escrow t (ground arith))
]

settle_by-Keeps :
    (env : Env) (outcome : AttemptOutcome) (a : PayoutAttempt) (escrow : Escrow) (t : Transaction)
    → Keeps (settle_by env outcome a escrow t)
unfolding settle_by
settle_by-Keeps env AttemptOutcome.succeeded a escrow t s h =
    settle_success-Keeps env a escrow t _ h
settle_by-Keeps env AttemptOutcome.failed_definite a escrow t s h = finish-Keeps env a t _ h
settle_by-Keeps env AttemptOutcome.unknown a escrow t s h = finish-Keeps env a t _ h

answer-Keeps :
    (env : Env) (a : PayoutAttempt) (escrow : Escrow) (t : Transaction) (result : PayoutResult)
    → Keeps (record_answer env a escrow t result)
unfolding record_answer
answer-Keeps env a escrow t result s h =
    settle_by-Keeps env result.outcome (answered_attempt env result a) escrow t
      (save_attempt (answered_attempt env result a) s).1 h

reply-Keeps :
    (env : Env) (a : PayoutAttempt) (escrow : Escrow) (t : Transaction) (reply : Reply)
    → Keeps (take_reply env a escrow t reply)
unfolding take_reply
reply-Keeps env a escrow t (answered result) = answer-Keeps env a escrow t result
reply-Keeps env a escrow t (refused reason) = refuse-Keeps env reason a t

request-Keeps :
    (env : Env) (rails : PayoutRails) (a : PayoutAttempt) (escrow : Escrow) (t : Transaction)
    (phone : Text) (code : Option (Option Text))
    → Keeps (request_with env rails a escrow t phone code)
unfolding request_with
request-Keeps env rails a escrow t phone none = hold-Keeps env _ _ a t
request-Keeps env rails a escrow t phone (some code) = reply-Keeps env a escrow t _

inquire-Keeps :
    (env : Env) (rails : PayoutRails) (a : PayoutAttempt) (escrow : Escrow) (t : Transaction)
    (reference : Text)
    → Keeps (inquire env rails a escrow t reference)
unfolding inquire
inquire-Keeps env rails a escrow t reference =
    let status = resolve_payout_status_with_inquiry rails a reference in
    Keeps-bind (or_raise status Error.payout_inquiry_failed) (record_answer env a escrow t)
      (Keeps-raise status Error.payout_inquiry_failed) (answer-Keeps env a escrow t)

call_by-Keeps :
    (env : Env) (rails : PayoutRails) (a : PayoutAttempt) (escrow : Escrow) (t : Transaction)
    (phone : Text) (reference : Option Text)
    → Keeps (elim reference [
      | some (c ∷ cs) ↦ inquire env rails a escrow t (c ∷ cs)
      | _ ↦ request_with env rails a escrow t phone (confirmation_code rails escrow)
    ])
call_by-Keeps env rails a escrow t phone (some (c ∷ cs)) =
    inquire-Keeps env rails a escrow t (c ∷ cs)
call_by-Keeps env rails a escrow t phone (some []) =
    request-Keeps env rails a escrow t phone (confirmation_code rails escrow)
call_by-Keeps env rails a escrow t phone none =
    request-Keeps env rails a escrow t phone (confirmation_code rails escrow)

pay_to-Keeps :
    (env : Env) (rails : PayoutRails) (a : PayoutAttempt) (escrow : Escrow) (t : Transaction)
    (phone : Text)
    → Keeps (pay_to env rails a escrow t phone)
unfolding pay_to call_rail
pay_to-Keeps env rails a escrow t phone =
    Keeps-if (get_payout_rail env.registry a.rail_name) (call_rail env rails a escrow t phone)
      (hold_attempt env (codes "rail_unavailable") (rail_error env a.rail_name) a t)
      (call_by-Keeps env rails a escrow t phone a.provider_reference)
      (hold-Keeps env (codes "rail_unavailable") (rail_error env a.rail_name) a t)

phone-same : (a : PayoutAttempt) (t : Transaction) (s : Session) → (phone_for a t s).1 ≡ s
unfolding phone_for resolve_destination_phone
phone-same a t s = ground arith

found-Keeps :
    (env : Env) (rails : PayoutRails) (a : PayoutAttempt) (escrow : Escrow)
    (found : Option Transaction)
    → Keeps (execute_found env rails a escrow found)
unfolding execute_found
found-Keeps env rails a escrow none = λ s h. h
found-Keeps env rails a escrow (some t) =
    Keeps-bind (phone_for a t) (pay_to env rails a escrow t)
      (λ s h. subst BothSound (sym (phone-same a t s)) h) (pay_to-Keeps env rails a escrow t)

execute_for-Keeps :
    (env : Env) (rails : PayoutRails) (a : PayoutAttempt) (found : Option Escrow)
    → Keeps (execute_for env rails a found)
unfolding execute_for
execute_for-Keeps env rails a none s h = h
execute_for-Keeps env rails a (some escrow) s h =
    found-Keeps env rails a escrow (lookup escrow.transaction_id s.work.transactions) s h

execute_all-Keeps :
    (env : Env) (rails : PayoutRails) (claimed : List PayoutAttempt)
    (counts : PayoutExecutorRunResult)
    → Keeps (execute_all env rails claimed counts)
unfolding execute_all execute_attempt
execute_all-Keeps env rails [] counts = λ s h. h
execute_all-Keeps env rails (a ∷ more) counts =
    Keeps-bind (execute_attempt env rails a)
      (λ outcome. execute_all env rails more (count_outcome outcome counts))
      (λ s h. execute_for-Keeps env rails a (escrow_by_id a.escrow_id s.work.escrows) s h)
      (λ outcome. execute_all-Keeps env rails more (count_outcome outcome counts))

run-Keeps :
    (env : Env) (rails : PayoutRails) (claimed : List PayoutAttempt)
    → Keeps (run_claimed env rails claimed)
unfolding run_claimed
run-Keeps env rails [] = λ s h. h
run-Keeps env rails (a ∷ more) =
    Keeps-bind (execute_all env rails (a ∷ more) (no_counts (length (a ∷ more))))
      (λ result. commit >> pure result)
      (execute_all-Keeps env rails (a ∷ more) (no_counts (length (a ∷ more))))
      (λ result s h. (h.1, h.1))

-- Whatever the rails answer, and whether the run ends or raises in between: if the amounts recorded
-- as released and refunded of each escrow are together at most the amount recorded as funded, and
-- the debits of the ledger equal its credits, both still hold of what is committed after a run of
-- the payout executor.
pub executor-IsSound :
    (env : Env) (rails : PayoutRails) (batch_size : ℕ) (db : Db)
    → IsSound db
    → IsSound (request (run_payout_executor_once env rails batch_size) db).1
unfolding run_payout_executor_once
executor-IsSound env rails batch_size db sound =
    let s : Session = record { committed = db; work = db } in
    let claiming : Action PayoutExecutorRunResult =
      gets (λ x. claim batch_size x.payout_attempts) >>= run_claimed env rails in
    (Keeps-if env.outbox_ready claiming (pure (no_counts 0))
      (λ s1 h. run-Keeps env rails (claim batch_size s1.work.payout_attempts) s1 h) (λ s1 h. h) s
      (sound, sound)).0
