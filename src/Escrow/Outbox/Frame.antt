-- ===== src/Escrow/Outbox/Frame.antt =====
-- What queueing a payout leaves alone: the stored transactions, the disputes, the ledger, the
-- notifications, what was committed before, and the status that the anchor log tells.
use vekro_backend.Base.{ℕ, ◌≡◌, inl, inr, first, arith, Option, none, some}
use vekro_backend.Model.Rows.{Transaction, Escrow, PayoutAttempt, PayoutKind, Purpose}
use vekro_backend.Session.{Env, ok, Session, Result-cases}
use vekro_backend.Escrow.Outbox.{
  Actor, is_live_attempt, refresh_transaction_payout_status, ensure_escrow,
  resolve_destination_phone, default_payout_rail_name, queue_new, reuse_or_queue, enqueue_ready,
  enqueue_payout_intent,
}
use vekro_backend.Lifecycle.History.{logged_status}

pub record Frame (s s' : Session) : Type 0 where
  pub committed : s'.committed ≡ s.committed
  pub transactions : s'.work.transactions ≡ s.work.transactions
  pub disputes : s'.work.disputes ≡ s.work.disputes
  pub listings : s'.work.listings ≡ s.work.listings
  pub ledger_entries : s'.work.ledger_entries ≡ s.work.ledger_entries
  pub notifications : s'.work.notifications ≡ s.work.notifications
  pub logged :
      (j : ℕ) → logged_status j s'.work.anchor_events ≡ logged_status j s.work.anchor_events

pub Frame-refl : (s : Session) → Frame s s
Frame-refl s = ground arith

pub default_payout_rail_name-Frame :
    (env : Env) (s : Session) → Frame s (default_payout_rail_name env s).1
unfolding default_payout_rail_name
default_payout_rail_name-Frame env s = ground arith

pub ensure_escrow-Frame : (t : Transaction) (s : Session) → Frame s (ensure_escrow t s).1
unfolding ensure_escrow
ensure_escrow-Frame t s = ground arith

queue_new-Frame :
    (env : Env) (actor : Actor) (t : Transaction) (escrow : Escrow) (purpose : Purpose)
    (kind : PayoutKind) (user amount : ℕ) (s : Session)
    → Frame s (queue_new env actor t escrow purpose kind user amount s).1
unfolding queue_new
queue_new-Frame env actor t escrow purpose kind user amount s = ground arith

resolve_destination_phone-Frame :
    (user : ℕ) (s : Session) → Frame s (resolve_destination_phone user s).1
unfolding resolve_destination_phone
resolve_destination_phone-Frame user s = ground arith

refresh-Frame :
    (env : Env) (t : Transaction) (s : Session)
    → Frame s (refresh_transaction_payout_status env t s).1
unfolding refresh_transaction_payout_status
refresh-Frame env t s = ground arith

reuse_or_queue-Frame :
    (env : Env) (actor : Actor) (t : Transaction) (escrow : Escrow) (purpose : Purpose)
    (kind : PayoutKind) (user amount : ℕ) (found : Option PayoutAttempt) (s : Session)
    → Frame s (reuse_or_queue env actor t escrow purpose kind user amount found s).1
unfolding reuse_or_queue
reuse_or_queue-Frame env actor t escrow purpose kind user amount none s =
    queue_new-Frame env actor t escrow purpose kind user amount s
reuse_or_queue-Frame env actor t escrow purpose kind user amount (some _) s = refresh-Frame env t s

enqueue_ready-Frame :
    (env : Env) (actor : Actor) (t : Transaction) (purpose : Purpose) (kind : PayoutKind)
    (user amount : ℕ) (s : Session)
    → Frame s (enqueue_ready env actor t purpose kind user amount s).1
unfolding enqueue_ready
enqueue_ready-Frame env actor t purpose kind user amount s =
    grind (arith, ensure_escrow-Frame, reuse_or_queue-Frame)

pub enqueue-Frame :
    (env : Env) (actor : Actor) (t : Transaction) (purpose : Purpose) (kind : PayoutKind)
    (user amount : ℕ) (s : Session)
    → Frame s (enqueue_payout_intent env actor t purpose kind user amount s).1
unfolding enqueue_payout_intent
enqueue-Frame env actor t purpose kind user amount s =
    ground (arith, enqueue_ready-Frame env actor t purpose kind user amount s)

queue_new-Keeps :
    (env : Env) (actor : Actor) (t : Transaction) (escrow : Escrow) (purpose : Purpose)
    (kind : PayoutKind) (user amount : ℕ) (s : Session) (t' : Transaction)
    → (queue_new env actor t escrow purpose kind user amount s).0 ≡ ok t'
    → t' ≡ record t { payout_status = t'.payout_status }
unfolding queue_new
queue_new-Keeps env actor t escrow purpose kind user amount s t' h = ground arith

reuse_or_queue-Keeps :
    (env : Env) (actor : Actor) (t : Transaction) (escrow : Escrow) (purpose : Purpose)
    (kind : PayoutKind) (user amount : ℕ) (found : Option PayoutAttempt) (s : Session)
    (t' : Transaction)
    → (reuse_or_queue env actor t escrow purpose kind user amount found s).0 ≡ ok t'
    → t' ≡ record t { payout_status = t'.payout_status }
unfolding reuse_or_queue refresh_transaction_payout_status
reuse_or_queue-Keeps env actor t escrow purpose kind user amount none s t' h =
    queue_new-Keeps env actor t escrow purpose kind user amount s t' h
reuse_or_queue-Keeps env actor t escrow purpose kind user amount (some _) s t' h = ground arith

enqueue_ready-Keeps :
    (env : Env) (actor : Actor) (t : Transaction) (purpose : Purpose) (kind : PayoutKind)
    (user amount : ℕ) (s : Session) (t' : Transaction)
    → (enqueue_ready env actor t purpose kind user amount s).0 ≡ ok t'
    → t' ≡ record t { payout_status = t'.payout_status }
unfolding enqueue_ready
enqueue_ready-Keeps env actor t purpose kind user amount s t' h =
    elim (Result-cases (ensure_escrow t s).0) [
      | inl (escrow, e) ↦ ground (
        arith,
        reuse_or_queue-Keeps env actor t escrow purpose kind user amount
            (first (is_live_attempt escrow.id purpose) (ensure_escrow t s).1.work.payout_attempts)
            (ensure_escrow t s).1 t',
      )
      | inr (x, e) ↦ ground arith
    ]

pub enqueue-Keeps :
    (env : Env) (actor : Actor) (t : Transaction) (purpose : Purpose) (kind : PayoutKind)
    (user amount : ℕ) (s : Session) (t' : Transaction)
    → (enqueue_payout_intent env actor t purpose kind user amount s).0 ≡ ok t'
    → t' ≡ record t { payout_status = t'.payout_status }
unfolding enqueue_payout_intent
enqueue-Keeps env actor t purpose kind user amount s t' h =
    ground (arith, enqueue_ready-Keeps env actor t purpose kind user amount s t')
