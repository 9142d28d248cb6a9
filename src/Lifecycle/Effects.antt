-- ===== src/Lifecycle/Effects.antt =====
-- What a successful request does to the database, whichever request it is.
pub mod Delivery
pub mod Returns
pub mod Resolution
pub mod Quiet
pub mod Split
pub mod Payment
pub mod Cases
use vekro_backend.Base.{
  ℕ, ◌==◌, ◌≡◌, ◌≢◌, ◌⊎◌, inl, inr, refl, holds, Bool, true, false, Option, none, some, lookup,
  Bool-cases, Option-cases, insert, arith, sym, ap, subst, ◌∙◌, if◌then◌else◌,
}
use vekro_backend.Model.Status.{TransactionStatus, TransactionStatus-discrete, is_status}
use vekro_backend.Model.Rows.{Transaction, Purpose, PayoutKind, release, refund}
use vekro_backend.Session.{
  Env, Error, Session, Action, Result, ◌>>=◌, ok, err, call-cases, Outcome, Tentative,
  Tentative-later, Tentative-Outcome, save_transaction, commit,
}
use vekro_backend.Escrow.Outbox.{
  Actor, queue_release_full, queue_refund_full, enqueue_payout_intent,
}
use vekro_backend.Escrow.Outbox.Frame.{Frame, enqueue-Frame, enqueue-Keeps}
use vekro_backend.Lifecycle.Transitions.{
  Cause, transition_transaction, in_status, guarded_transaction,
}
use vekro_backend.Lifecycle.History.{logged_status}
use vekro_backend.Lifecycle.Moves.{Act, Step}

-- The facts of a transaction that no request changes.
abbrev pub SameDeal : Transaction → Transaction → Type 0
SameDeal t t' =
    (t'.id ≡ t.id)
    × (t'.amount ≡ t.amount)
    × (t'.buyer_id ≡ t.buyer_id)
    × (t'.seller_id ≡ t.seller_id)
    × (t'.listing_id ≡ t.listing_id)

-- The anchor log tells the status of `t'` afterwards, if it told that of `t` before, and tells of
-- other transactions what it told.
abbrev pub LogFollows : Transaction → Transaction → Session → Session → Type 0
LogFollows t t' s s' =
    (logged_status t.id s.work.anchor_events ≡ t.status
      → logged_status t.id s'.work.anchor_events ≡ t'.status)
    × ((j : ℕ)
        → t.id ≢ j
        → logged_status j s'.work.anchor_events ≡ logged_status j s.work.anchor_events)

-- The transaction `t` became `t'` in memory; the stored transactions are as they were, and nothing
-- was committed.
abbrev pub Move : Transaction → Transaction → Session → Session → Type 0
Move t t' s s' =
    SameDeal t t'
    × LogFollows t t' s s'
    × (s'.committed ≡ s.committed)
    × (s'.work.transactions ≡ s.work.transactions)

-- The transaction `t` was replaced by `t'`, and all was committed.
abbrev pub Update : Env → Transaction → Transaction → Session → Session → Type 0
Update env t t' s s' =
    SameDeal t t'
    × LogFollows t t' s s'
    × (s'.committed ≡ s'.work)
    × (s'.work.transactions ≡ insert t.id (record t' { updated_at = env.now }) s.work.transactions)

-- A call that returns the changed transaction found it under its key and took a step of the
-- act.
abbrev pub Changed : Act → Env → ℕ → Session → Transaction → Session → Type 0
Changed act env id s t' s' =
    (t : Transaction) × (lookup id s.work.transactions ≡ some t)
    × Step act t.status t'.status
    × Update env t t' s s'

pub Move-trans :
    (t t1 t2 : Transaction) (s s1 s2 : Session) → Move t t1 s s1 → Move t1 t2 s1 s2 → Move t t2 s s2
Move-trans t t1 t2 s s1 s2 m n = (
  (n.0.0 ∙ m.0.0, n.0.1 ∙ m.0.1, n.0.2 ∙ m.0.2, n.0.3 ∙ m.0.3, n.0.4 ∙ m.0.4),
  (
    λ told. (rw m.0.0 at n.1.0) (m.1.0 told),
    λ j other. (rw m.0.0 at n.1.1) j other ∙ m.1.1 j other,
  ),
  n.2 ∙ m.2,
  n.3 ∙ m.3,
)

pub transition-Move :
    (env : Env) (t : Transaction) (to : TransactionStatus) (cause : Cause) (s : Session)
    → Outcome s (λ t' s'. Move t t' s s') (transition_transaction env t to cause s)
unfolding transition_transaction
transition-Move env t to cause s = ground arith

pub stored :
    (t t1 x : Transaction) (s s1 : Session)
    → Move t t1 s s1
    → insert t1.id x s1.work.transactions ≡ insert t.id x s.work.transactions
stored t t1 x s s1 m = rw (m.0.0, m.3)

-- What a payout leaves of a transaction in memory.
pub kept-Move :
    (t t' : Transaction) (s s' : Session)
    → Frame s s'
    → t' ≡ record t { payout_status = t'.payout_status }
    → Move t t' s s'
kept-Move t t' s s' frame kept = (
  (
    ap (λ x. x.id) kept,
    ap (λ x. x.amount) kept,
    ap (λ x. x.buyer_id) kept,
    ap (λ x. x.seller_id) kept,
    ap (λ x. x.listing_id) kept,
  ),
  (λ told. frame.logged t.id ∙ told ∙ sym (ap (λ x. x.status) kept), λ j other. frame.logged j),
  frame.committed,
  frame.transactions,
)

-- A payout that is queued changes the payout status of the transaction in memory at most.
abbrev pub Queued : Transaction → Session → Transaction → Session → Type 0
Queued t s t' s' = Move t t' s s' × (t'.status ≡ t.status)

pub enqueue-Queued :
    (env : Env) (actor : Actor) (t : Transaction) (purpose : Purpose) (kind : PayoutKind)
    (user amount : ℕ) (s : Session)
    → Tentative s (Queued t s) (enqueue_payout_intent env actor t purpose kind user amount s)
enqueue-Queued env actor t purpose kind user amount s =
    let frame = enqueue-Frame env actor t purpose kind user amount s in
    elim (call-cases (enqueue_payout_intent env actor t purpose kind user amount s)) [
      | inl (t', s', e) ↦
          let kept = enqueue-Keeps env actor t purpose kind user amount s t' (ap (λ r. r.0) e) in
          rw e (kept-Move t t' s s' (rw e at frame) kept, ap (λ x. x.status) kept)
      | inr (x, s', e) ↦ rw e (rw e at frame).committed
    ]

pub release-Queued :
    (env : Env) (actor : Actor) (t : Transaction) (purpose : Purpose) (s : Session)
    → Tentative s (Queued t s) (queue_release_full env actor t purpose s)
unfolding queue_release_full
release-Queued env actor t purpose s =
    enqueue-Queued env actor t purpose release t.seller_id t.amount s

pub refund-Queued :
    (env : Env) (actor : Actor) (t : Transaction) (purpose : Purpose) (s : Session)
    → Tentative s (Queued t s) (queue_refund_full env actor t purpose s)
unfolding queue_refund_full
refund-Queued env actor t purpose s =
    enqueue-Queued env actor t purpose refund t.buyer_id t.amount s

-- In memory the transaction `t` took a step of the act.
abbrev pub Moved : Act → Transaction → Session → Transaction → Session → Type 0
Moved act t s t' s' = Move t t' s s' × Step act t.status t'.status

queue-Moved :
    {act : Act} (t t1 : Transaction) (s s1 : Session) (r : Result Transaction × Session)
    → Move t t1 s s1
    → Step act t.status t1.status
    → Tentative s1 (Queued t1 s1) r
    → Tentative s (Moved act t s) r
queue-Moved {act = act} t t1 s s1 r m p q =
    Tentative-later s s1 (Queued t1 s1) (Moved act t s) r m.2 q
      (λ t' s' q'. (Move-trans t t1 t' s s1 s' m q'.0, subst (Step act t.status) (sym q'.1) p))

pub release-Moved :
    {act : Act} (env : Env) (actor : Actor) (purpose : Purpose) (t t1 : Transaction)
    (s s1 : Session)
    → Move t t1 s s1
    → Step act t.status t1.status
    → Tentative s (Moved act t s) (queue_release_full env actor t1 purpose s1)
release-Moved {act = act} env actor purpose t t1 s s1 m p =
    queue-Moved t t1 s s1 (queue_release_full env actor t1 purpose s1) m p
      (release-Queued env actor t1 purpose s1)

pub refund-Moved :
    {act : Act} (env : Env) (actor : Actor) (purpose : Purpose) (t t1 : Transaction)
    (s s1 : Session)
    → Move t t1 s s1
    → Step act t.status t1.status
    → Tentative s (Moved act t s) (queue_refund_full env actor t1 purpose s1)
refund-Moved {act = act} env actor purpose t t1 s s1 m p =
    queue-Moved t t1 s s1 (queue_refund_full env actor t1 purpose s1) m p
      (refund-Queued env actor t1 purpose s1)

pub release-after :
    {act : Act} (env : Env) (actor : Actor) (purpose : Purpose) (t t1 : Transaction)
    (s s1 : Session)
    → Move t t1 s s1
    → Step act t.status t1.status
    → Outcome s (Moved act t s) (queue_release_full env actor t1 purpose s1)
release-after {act = act} env actor purpose t t1 s s1 m p =
    Tentative-Outcome s (Moved act t s) (queue_release_full env actor t1 purpose s1)
      (release-Moved env actor purpose t t1 s s1 m p)

pub refund-after :
    {act : Act} (env : Env) (actor : Actor) (purpose : Purpose) (t t1 : Transaction)
    (s s1 : Session)
    → Move t t1 s s1
    → Step act t.status t1.status
    → Outcome s (Moved act t s) (queue_refund_full env actor t1 purpose s1)
refund-after {act = act} env actor purpose t t1 s s1 m p =
    Tentative-Outcome s (Moved act t s) (queue_refund_full env actor t1 purpose s1)
      (refund-Moved env actor purpose t t1 s s1 m p)

-- A guard lets a stored transaction through that passes its tests, or raises.
pub guard-cases :
    (role_fits : Bool) (id : ℕ) (missing : Error) (owner : Transaction → Bool) (forbidden : Error)
    (in_state : Transaction → Bool) (invalid : Error) (s : Session)
    → ((t : Transaction) × (guarded_transaction role_fits id missing owner forbidden in_state
            invalid s
          ≡ (ok t, s))
        × (lookup id s.work.transactions ≡ some t)
        × (role_fits ≡ true)
        × (owner t ≡ true)
        × (in_state t ≡ true))
      ⊎ ((e : Error) × (guarded_transaction role_fits id missing owner forbidden in_state invalid s
            ≡ (err e, s)))
unfolding guarded_transaction
guard-cases role_fits id missing owner forbidden in_state invalid s = elim (Bool-cases role_fits) [
  | inr r ↦ inr (Error.transaction_validation_error, ground arith)
  | inl r ↦ elim (Option-cases (lookup id s.work.transactions)) [
    | inl l ↦ inr (missing, ground arith)
    | inr (t, l) ↦ elim (Bool-cases (owner t)) [
      | inr o ↦ inr (forbidden, ground arith)
      | inl o ↦ elim (Bool-cases (in_state t)) [
        | inr i ↦ inr (invalid, ground arith)
        | inl i ↦ inl (t, ground arith, l, r, o, i)
      ]
    ]
  ]
]

holds→ : {P : Type 0} (d : Dec P) → holds d ≡ true → P
holds→ (yes p) h = p
holds→ (no _) h = cc

pub is_status→≡ : (a b : TransactionStatus) → is_status a b ≡ true → a ≡ b
is_status→≡ a b h = holds→ (TransactionStatus-discrete a b) h

pub guard-then :
    (role_fits : Bool) (id : ℕ) (missing : Error) (owner : Transaction → Bool) (forbidden : Error)
    (in_state : Transaction → Bool) (invalid : Error) (f : Transaction → Action Transaction)
    (s : Session) (Q : Transaction → Session → Type 0)
    → ((t : Transaction)
        → lookup id s.work.transactions ≡ some t
        → owner t ≡ true
        → in_state t ≡ true
        → Outcome s Q (f t s))
    → Outcome s Q
        ((guarded_transaction role_fits id missing owner forbidden in_state invalid >>= f) s)
guard-then role_fits id missing owner forbidden in_state invalid f s Q hf =
    elim (guard-cases role_fits id missing owner forbidden in_state invalid s) [
      | inl (t, e, found, _, o, i) ↦
          subst (λ r. Outcome s Q (((λ _. r) >>= f) s)) (sym e) (hf t found o i)
      | inr (x, e) ↦ subst (λ r. Outcome s Q (((λ _. r) >>= f) s)) (sym e) (inl refl)
    ]

pub Step-from :
    {act : Act} (a b : TransactionStatus) (t : Transaction)
    → in_status a t ≡ true
    → Step act a b
    → Step act t.status b
Step-from {act = act} a b t i p = subst (λ x. Step act x b) (sym (is_status→≡ t.status a i)) p
