-- ===== src/Lifecycle/Effects/Split.antt =====
-- A split queues two payouts, or raises and commits nothing.
use vekro_backend.Base.{ℕ, refl, arith, ltb, ◌&&◌, Bool, true, false, if◌then◌else◌, ◌∙◌}
use vekro_backend.Model.Rows.{Transaction, Purpose, release, refund}
use vekro_backend.Session.{
  Env, Session, Result, ok, err, Tentative, Tentative-bind, Tentative-later, pure, ◌>>=◌,
  Tentative-required, escrow_service_error, split_payout_unsupported,
}
use vekro_backend.Escrow.Outbox.{
  Actor, enqueue_payout_intent, refresh_transaction_payout_status, refreshed_status,
}
use vekro_backend.Escrow.Outbox.Frame.{Frame, default_payout_rail_name-Frame, Frame-refl}
use vekro_backend.Escrow.Split.{
  is_split_capability_supported, queue_refund_share, queue_shares, queue_split_supported,
  queue_split_payout, queue_ratio, unit_ratio, normalize_ratio, split_amounts,
}
use vekro_backend.Lifecycle.Effects.{Move-trans, kept-Move, Queued, enqueue-Queued}

supported-Frame : (env : Env) (s : Session) → Frame s (is_split_capability_supported env s).1
unfolding is_split_capability_supported
supported-Frame env s = ground (arith, default_payout_rail_name-Frame env s)

framed :
    {A : Type 0} (s : Session) (r : Result A × Session)
    → Frame s r.1
    → Tentative s (λ _ s'. Frame s s') r
framed s (ok a, s') frame = frame
framed s (err e, s') frame = frame.committed

Queued-trans :
    (t t1 t2 : Transaction) (s s1 s2 : Session)
    → Queued t s t1 s1
    → Queued t1 s1 t2 s2
    → Queued t s t2 s2
Queued-trans t t1 t2 s s1 s2 (m, e) (n, f) = (Move-trans t t1 t2 s s1 s2 m n, f ∙ e)

refresh-Queued :
    (env : Env) (t : Transaction) (s : Session)
    → Tentative s (Queued t s) (refresh_transaction_payout_status env t s)
unfolding refresh_transaction_payout_status
refresh-Queued env t s =
    elim env.outbox_ready
      as (λ b.
        let shown : Transaction =
          if b then record t { payout_status = refreshed_status t s.work } else t in
        Queued t s shown s) [
          | true ↦ (
            kept-Move t (record t { payout_status = refreshed_status t s.work }) s s (Frame-refl s)
                refl,
            refl,
          )
          | false ↦ (kept-Move t t s s (Frame-refl s) refl, refl)
        ]

refund_share-Queued :
    (env : Env) (actor : Actor) (purpose : Purpose) (amount : ℕ) (t t1 : Transaction)
    (s s1 : Session)
    → Queued t s t1 s1
    → Tentative s (Queued t s) (queue_refund_share env actor purpose amount t1 s1)
unfolding queue_refund_share
refund_share-Queued env actor purpose amount t t1 s s1 q =
    Tentative-bind (enqueue_payout_intent env actor t1 purpose refund t1.buyer_id amount)
      (refresh_transaction_payout_status env) s s1 (Queued t s) (Queued t s)
      (Tentative-later s s1 (Queued t1 s1) (Queued t s)
        (enqueue_payout_intent env actor t1 purpose refund t1.buyer_id amount s1) q.0.2
        (enqueue-Queued env actor t1 purpose refund t1.buyer_id amount s1)
        (λ t2 s2. Queued-trans t t1 t2 s s1 s2 q))
      (λ t2 s2 q2.
        Tentative-later s s2 (Queued t2 s2) (Queued t s)
          (refresh_transaction_payout_status env t2 s2) q2.0.2 (refresh-Queued env t2 s2)
          (λ t3 s3. Queued-trans t t2 t3 s s2 s3 q2))

shares-Queued :
    (env : Env) (actor : Actor) (p q : Purpose) (amounts : ℕ × ℕ) (t : Transaction) (s s1 : Session)
    → Queued t s t s1
    → Tentative s (Queued t s) (queue_shares env actor t p q amounts s1)
unfolding queue_shares
shares-Queued env actor p q amounts t s s1 h =
    Tentative-bind (enqueue_payout_intent env actor t p release t.seller_id amounts.0)
      (queue_refund_share env actor q amounts.1) s s1 (Queued t s) (Queued t s)
      (Tentative-later s s1 (Queued t s1) (Queued t s)
        (enqueue_payout_intent env actor t p release t.seller_id amounts.0 s1) h.0.2
        (enqueue-Queued env actor t p release t.seller_id amounts.0 s1)
        (λ t2 s2. Queued-trans t t t2 s s1 s2 h))
      (λ t2 s2. refund_share-Queued env actor q amounts.1 t t2 s s2)

ratio-Queued :
    (env : Env) (actor : Actor) (p q : Purpose) (t : Transaction) (s : Session) (ratio : ℕ)
    (s1 : Session)
    → Queued t s t s1
    → Tentative s (Queued t s) (queue_ratio env actor t p q ratio s1)
unfolding queue_ratio
ratio-Queued env actor p q t s ratio s1 h =
    let amounts = split_amounts t.amount ratio in
    Tentative-required (ltb 0 amounts.0 && ltb 0 amounts.1) escrow_service_error
      (queue_shares env actor t p q amounts) s s1 (Queued t s) h.0.2
      (λ _. shares-Queued env actor p q amounts t s s1 h)

supported-Queued :
    (env : Env) (actor : Actor) (p q : Purpose) (ratio : ℕ) (supported : Bool) (t : Transaction)
    (s s1 : Session)
    → Queued t s t s1
    → Tentative s (Queued t s) (queue_split_supported env actor t p q ratio supported s1)
unfolding queue_split_supported
supported-Queued env actor p q ratio supported t s s1 h =
    Tentative-required supported split_payout_unsupported
      (normalize_ratio ratio >>= queue_ratio env actor t p q) s s1 (Queued t s) h.0.2
      (λ _.
        Tentative-bind (normalize_ratio ratio) (queue_ratio env actor t p q) s s1
          (λ _ s2. Queued t s t s2) (Queued t s)
          (Tentative-required (ltb 0 ratio && ltb ratio unit_ratio) escrow_service_error
            (pure ratio) s s1 (λ _ s2. Queued t s t s2) h.0.2 (λ _. h))
          (ratio-Queued env actor p q t s))

pub split-Queued :
    (env : Env) (actor : Actor) (p q : Purpose) (ratio : ℕ) (t : Transaction) (s : Session)
    → Tentative s (Queued t s) (queue_split_payout env actor t p q ratio s)
unfolding queue_split_payout
split-Queued env actor p q ratio t s =
    Tentative-bind (is_split_capability_supported env) (queue_split_supported env actor t p q ratio)
      s s (λ _ s'. Frame s s') (Queued t s)
      (framed s (is_split_capability_supported env s) (supported-Frame env s))
      (λ supported s1 frame.
        supported-Queued env actor p q ratio supported t s s1 (kept-Move t t s s1 frame refl, refl))
