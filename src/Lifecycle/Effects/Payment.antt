-- ===== src/Lifecycle/Effects/Payment.antt =====
-- The effects of a payment callback.
use vekro_backend.Base.{
  ℕ, ◌==◌, ◌≡◌, ◌∙◌, ltb, inl, inr, refl, arith, Bool, true, false, not, Option, some, List, codes,
  ◌++◌, ◌||◌, Text, lookup, if◌then◌else◌,
}
use vekro_backend.Model.Status.{TransactionStatus, is_econfirm}
use vekro_backend.Model.Rows.{Transaction, LedgerEntry, Escrow}
use vekro_backend.Session.{
  Env, Error, Session, Result, ok, err, Action, pure, ◌>>=◌, ◌>>◌, save_escrow, Outcome,
  Outcome-bind_later, raised-then, branch, weakened, commit,
}
use vekro_backend.Escrow.Outbox.{ensure_escrow}
use vekro_backend.Escrow.Outbox.Frame.{ensure_escrow-Frame}
use vekro_backend.Escrow.Ledger.{
  LedgerMovement, LedgerPostResult, normalized, entries_by_idempotency_key, replay_or_post,
  post_movement, mark_funded, post_escrow_funding, funding_movement,
}
use vekro_backend.Escrow.Ledger.Balance.{check_movement-keeps}
use vekro_backend.Lifecycle.History.{logged_status}
use vekro_backend.Lifecycle.Transitions.{transition_transaction, by_provider, in_status}
use vekro_backend.Lifecycle.Payment.{
  PaymentCallback, PaymentCallbackResult, record_callback_funding, audit_callback_funding,
  fund_by_callback, resolve_prompt, record_simulated_callback_funding, callback_failed, finish_lock,
  callback_locks, confirm_simulated, confirm_found, confirm_payment_callback, ignored,
}
use vekro_backend.Lifecycle.Moves.{Act, paid}
use vekro_backend.Lifecycle.Effects.{Moved, Changed, transition-Move, stored, Step-from}
use vekro_backend.Lifecycle.Effects.Quiet.{Accepted}

-- The stored transactions, what was committed and the statuses in the anchor log are as they were.
abbrev pub Still : Session → Session → Type 0
Still s s' =
    (s'.committed ≡ s.committed)
    × (s'.work.transactions ≡ s.work.transactions)
    × ((j : ℕ) → logged_status j s'.work.anchor_events ≡ logged_status j s.work.anchor_events)

replay_or_post-Still :
    (id : Option ℕ) (m : LedgerMovement) (old : List LedgerEntry) (s : Session)
    → Still s (replay_or_post id m old s).1
unfolding replay_or_post
replay_or_post-Still id m old s = ground arith

post_movement-Still :
    (id : Option ℕ) (movement : LedgerMovement) (s : Session)
    → Still s (post_movement id movement s).1
unfolding post_movement
post_movement-Still id movement s =
    let m = normalized movement in
    ground (
      arith,
      check_movement-keeps m s,
      replay_or_post-Still id m (entries_by_idempotency_key m.idempotency_key s.work.ledger_entries)
          s,
    )

Still-trans : (s s1 s2 : Session) → Still s s1 → Still s1 s2 → Still s s2
Still-trans s s1 s2 a b = (b.0 ∙ a.0, b.1 ∙ a.1, λ j. b.2 j ∙ a.2 j)

Still-through :
    {A B : Type 0} (f : A → Action B) (s s1 : Session) (r : Result A × Session)
    → Still s s1
    → Still s1 r.1
    → ((a : A) (s2 : Session) → Still s s2 → Still s (f a s2).1)
    → Still s (((λ _. r) >>= f) s1).1
Still-through f s s1 (ok a, s2) h hm hf = hf a s2 (Still-trans s s1 s2 h hm)
Still-through f s s1 (err e, s2) h hm hf = Still-trans s s1 s2 h hm

-- A call from `s1`, after steps from `s`, and what `f` makes of its value.
Still-bind :
    {A B : Type 0} (m : Action A) (f : A → Action B) (s s1 : Session)
    → Still s s1
    → Still s1 (m s1).1
    → ((a : A) (s2 : Session) → Still s s2 → Still s (f a s2).1)
    → Still s ((m >>= f) s1).1
Still-bind m f s s1 h hm hf = Still-through f s s1 (m s1) h hm hf

mark_funded-Still :
    (escrow : Escrow) (result : LedgerPostResult) (s s1 : Session)
    → Still s s1
    → Still s (mark_funded escrow result s1).1
unfolding mark_funded
mark_funded-Still escrow result s s1 h =
    elim (result.created_entries == 2)
      as (λ b.
        Still s
          ((if b
              then (save_escrow (record escrow { funded_amount = escrow.amount_total })
                  >> pure true)
              else pure false)
            s1).1) [ true ↦ h | false ↦ h ]

post_escrow_funding-Still :
    (escrow : Escrow) (key : Text) (s s1 : Session)
    → Still s s1
    → Still s (post_escrow_funding escrow key s1).1
unfolding post_escrow_funding
post_escrow_funding-Still escrow key s s1 h =
    elim (ltb escrow.funded_amount escrow.amount_total)
      as (λ b.
        Still s
          ((if b
              then (post_movement (some escrow.transaction_id) (funding_movement escrow key)
                  >>= mark_funded escrow)
              else pure false)
            s1).1) [
              | true ↦
                  Still-bind
                    (post_movement (some escrow.transaction_id) (funding_movement escrow key))
                    (mark_funded escrow) s s1 h
                    (post_movement-Still (some escrow.transaction_id) (funding_movement escrow key)
                      s1)
                    (λ result s2. mark_funded-Still escrow result s s2)
              | false ↦ h
            ]

audit-Still :
    (t : Transaction) (escrow : Escrow) (posted : Bool) (s s1 : Session)
    → Still s s1
    → Still s (audit_callback_funding t escrow posted s1).1
unfolding audit_callback_funding
audit-Still t escrow true s s1 h = h
audit-Still t escrow false s s1 h = h

fund-Still :
    (env : Env) (t : Transaction) (escrow : Escrow) (s s1 : Session)
    → Still s s1
    → Still s (fund_by_callback env t escrow s1).1
unfolding fund_by_callback
fund-Still env t escrow s s1 h =
    let key = codes "callback-funding:" ++ env.uuid_text t.id in
    Still-bind (post_escrow_funding escrow key) (audit_callback_funding t escrow) s s1 h
      (post_escrow_funding-Still escrow key s1 s1 (refl, refl, λ j. refl))
      (λ posted s2. audit-Still t escrow posted s s2)

record_funding-Still :
    (env : Env) (t : Transaction) (s : Session) → Still s (record_callback_funding env t s).1
unfolding record_callback_funding
record_funding-Still env t s =
    let frame = ensure_escrow-Frame t s in
    Still-bind (ensure_escrow t) (fund_by_callback env t) s s (refl, refl, λ j. refl)
      (frame.committed, frame.transactions, frame.logged)
      (λ escrow s1. fund-Still env t escrow s s1)

record_simulated-Still :
    (env : Env) (t : Transaction) (s s1 : Session)
    → Still s s1
    → Still s (record_simulated_callback_funding env t s1).1
unfolding record_simulated_callback_funding
record_simulated-Still env t s s1 h =
    elim (is_econfirm t.custody_provider || env.production || not env.ledger_ready)
      as (λ b. Still s ((if b then pure tt else record_callback_funding env t) s1).1) [
        | true ↦ h
        | false ↦
            Still-trans s s1 (record_callback_funding env t s1).1 h (record_funding-Still env t s1)
      ]

Still-Moved :
    {act : Act} (t t1 : Transaction) (s s1 : Session) (r : Result (Unit {0}) × Session)
    → Moved act t s t1 s1
    → Still s1 r.1
    → Outcome s (λ _ s2. Moved act t s t1 s2) r
Still-Moved {act = act} t t1 s s1 (ok _, s2) (m, path) h = (
  (m.0, (λ told. h.2 t.id ∙ m.1.0 told, λ j other. h.2 j ∙ m.1.1 j other), h.0 ∙ m.2, h.1 ∙ m.3),
  path,
)
Still-Moved {act = act} t t1 s s1 (err e, s2) (m, path) h = inl (h.0 ∙ m.2)

locks-Changed :
    (env : Env) (id : ℕ) (payload : PaymentCallback) (t : Transaction) (s : Session)
    → lookup id s.work.transactions ≡ some t
    → in_status TransactionStatus.awaiting_payment t ≡ true
    → Outcome s (λ r s'. Changed Act.pay env id s r.transaction s') (callback_locks env payload t s)
unfolding callback_locks finish_lock
locks-Changed env id payload t s found waits =
    let to = TransactionStatus.locked in
    let cause = by_provider "payment_callback_confirmed" in
    let t2 : Transaction = record t { status = to; locked_at = some env.now } in
    let s1 = (resolve_prompt env t.id 0 (transition_transaction env t to cause s).1).1 in
    Outcome-bind_later (record_simulated_callback_funding env t2) (λ _. finish_lock env payload t2)
      s s1 (λ _ s2. Moved Act.pay t s t2 s2) (λ r s'. Changed Act.pay env id s r.transaction s')
      (Still-Moved t t2 s s1 (record_simulated_callback_funding env t2 s1)
        (
          transition-Move env t to cause s,
          Step-from TransactionStatus.awaiting_payment _ t waits paid,
        )
        (record_simulated-Still env t2 s1 s1 (refl, refl, λ j. refl)))
      (λ _ s2 m. (t, found, m.1, (m.0.0, m.0.1, refl, stored t t2 _ s s2 m.0)))

abbrev Accepts : Env → Session → PaymentCallbackResult → Session → Type 0
Accepts env s _ s' = Accepted Act.pay env s s'

failed-Accepted :
    (env : Env) (payload : PaymentCallback) (t : Transaction) (s : Session)
    → Outcome s (Accepts env s) (callback_failed env payload t s)
unfolding callback_failed
failed-Accepted env payload t s =
    branch (in_status TransactionStatus.awaiting_payment t)
      (resolve_prompt env t.id payload.result_code >> (commit >> pure (ignored t)))
      (pure (ignored t)) s (Accepts env s) (λ _. inr (inl (refl, refl, λ j. refl)))
      (λ _. inr (inr refl))

holds_unless : (b : Bool) → not b ≡ false → b ≡ true
holds_unless b h = ground arith

simulated-Accepted :
    (env : Env) (payload : PaymentCallback) (t : Transaction) (s : Session)
    → lookup payload.transaction_id s.work.transactions ≡ some t
    → Outcome s (Accepts env s) (confirm_simulated env payload t s)
unfolding confirm_simulated
simulated-Accepted env payload t s found =
    let waits = in_status TransactionStatus.awaiting_payment t in
    let duplicate : PaymentCallbackResult = record {
      transaction = t;
      transitioned = false;
      duplicate = true;
    } in
    let locking : Action PaymentCallbackResult =
      if not waits then pure (ignored t) else callback_locks env payload t in
    branch (not (payload.result_code == 0)) (callback_failed env payload t)
      (if in_status TransactionStatus.locked t then pure duplicate else locking) s (Accepts env s)
      (λ _. failed-Accepted env payload t s)
      (λ _.
        branch (in_status TransactionStatus.locked t) (pure duplicate) locking s (Accepts env s)
          (λ _. inr (inr refl))
          (λ _.
            branch (not waits) (pure (ignored t)) (callback_locks env payload t) s (Accepts env s)
              (λ _. inr (inr refl))
              (λ h.
                weakened s (λ r s'. Changed Act.pay env payload.transaction_id s r.transaction s')
                  (Accepts env s) (callback_locks env payload t s)
                  (locks-Changed env payload.transaction_id payload t s found
                    (holds_unless waits h))
                  (λ r s' c. inl (payload.transaction_id, r.transaction, c)))))

pub callback-Accepted :
    (env : Env) (payload : PaymentCallback) (s : Session)
    → Outcome s (λ _ s'. Accepted Act.pay env s s') (confirm_payment_callback env payload s)
unfolding confirm_payment_callback confirm_found
callback-Accepted env payload s =
    raised-then (lookup payload.transaction_id s.work.transactions) Error.not_found_for_callback
      (confirm_found env payload) s (Accepts env s)
      (λ t found.
        branch (is_econfirm t.custody_provider) (pure (ignored t)) (confirm_simulated env payload t)
          s (Accepts env s) (λ _. inr (inr refl)) (λ _. simulated-Accepted env payload t s found))
