-- ===== src/Lifecycle/Effects/Cases.antt =====
-- The effects of what Vekro support has to do with: escalate_dispute and force_resolve_dispute_case.
use vekro_backend.Base.{ℕ, true, strip, ◌≡◌, refl, Option, some, none, Text, lookup, arith}
use vekro_backend.Model.Status.{TransactionStatus, AdminDecision}
use vekro_backend.Model.Rows.{
  Transaction, User, Dispute, Purpose, admin_refund, admin_split_release, admin_split_refund,
  admin_release,
}
use vekro_backend.Session.{
  Env, Error, Session, Outcome, Outcome-bind, Outcome-bind_later, read-then, latest_dispute, after,
  raised-then, required-then, Tentative, err, ok, Result, or_raise, ◌>>=◌, gets,
}
use vekro_backend.Escrow.Outbox.{queue_refund_full, queue_release_full}
use vekro_backend.Escrow.Split.{queue_split_payout}
use vekro_backend.Lifecycle.Transitions.{transition_transaction, by_user, in_status}
use vekro_backend.Lifecycle.Support.{
  party_of, is_open_case, finish_escalation, escalate_case, escalate_checked, escalate_as_party,
  escalate_dispute, Payouts, by_admin, admin_actor, decide_case, finish_decision, refund_decided,
  release_decided, split_decided, chosen_ratio, split_for_case, as_dispute_error, resolve_case,
  reviewed_case, force_resolve_dispute_case,
}
use vekro_backend.Lifecycle.Moves.{
  Act, Step, disputed_escalated, in_transit_escalated, received_escalated, offered_escalated,
  decided_refund, decided_release, decided_split,
}
use vekro_backend.Lifecycle.Effects.{
  Move-trans, Queued, Moved, Changed, transition-Move, stored, release-after, refund-after,
  Step-from,
}
use vekro_backend.Lifecycle.Effects.Split.{split-Queued}

-- An open case can go to support.
open_case-Step :
    (a : TransactionStatus)
    → is_open_case a ≡ true
    → Step Act.escalate a TransactionStatus.escalated_admin_review
open_case-Step TransactionStatus.disputed_functional h = disputed_escalated
open_case-Step TransactionStatus.return_in_transit h = in_transit_escalated
open_case-Step TransactionStatus.return_received h = received_escalated
open_case-Step TransactionStatus.awaiting_buyer_reconfirmation h = offered_escalated
open_case-Step _ h = ground arith

pub escalate-Changed :
    (env : Env) (id : ℕ) (user : User) (s : Session)
    → Outcome s (Changed Act.escalate env id s) (escalate_dispute env id user s)
unfolding escalate_dispute escalate_as_party escalate_checked escalate_case finish_escalation
escalate-Changed env id user s =
    raised-then (lookup id s.work.transactions) Error.escalation_not_found
      (escalate_as_party env user) s (Changed Act.escalate env id s)
      (λ t found.
        raised-then (party_of user t) Error.escalation_forbidden (escalate_checked env user t) s
          (Changed Act.escalate env id s)
          (λ role _.
            required-then (is_open_case t.status) Error.escalation_invalid_state
              (gets (latest_dispute t.id) >>= λ latest.
                or_raise latest Error.escalation_invalid_state >>= escalate_case env user role t)
              s (Changed Act.escalate env id s)
              (λ opened.
                raised-then (latest_dispute t.id s.work) Error.escalation_invalid_state
                  (escalate_case env user role t) s (Changed Act.escalate env id s)
                  (λ d _.
                    let m =
                      transition-Move env t TransactionStatus.escalated_admin_review
                        (by_user user.id "party_escalated") s in
                    (t, found, open_case-Step t.status opened, (m.0, m.1, refl, refl))))))

-- What a decision leaves in memory.
abbrev Decided : Transaction → Session → Payouts → Session → Type 0
Decided t s payouts s' = Moved Act.decide t s payouts.transaction s'

renamed :
    {A : Type 0} (s : Session) (P : A → Session → Type 0) (r : Result A × Session)
    → Tentative s P r
    → Tentative s P (as_dispute_error r.0, r.1)
renamed s P (ok a, s') h = h
renamed s P (err e, s') h = h

split_for_case-Queued :
    (env : Env) (actor_id : Option ℕ) (dispute_id ratio : ℕ) (t : Transaction) (s : Session)
    → Tentative s (Queued t s) (split_for_case env actor_id dispute_id ratio t s)
unfolding split_for_case
split_for_case-Queued env actor_id dispute_id ratio t s =
    let p : Purpose = record { prefix = admin_split_release; subject = dispute_id } in
    let q : Purpose = record { prefix = admin_split_refund; subject = dispute_id } in
    renamed s (Queued t s) (queue_split_payout env (admin_actor actor_id) t p q ratio s)
      (split-Queued env (admin_actor actor_id) p q ratio t s)

decide-Moved :
    (env : Env) (actor_id : Option ℕ) (choice : AdminDecision) (share : Option ℕ) (dispute_id : ℕ)
    (t : Transaction) (s : Session)
    → ((b : TransactionStatus)
        → Step Act.decide TransactionStatus.escalated_admin_review b
        → Step Act.decide t.status b)
    → Outcome s (Decided t s) (decide_case env actor_id choice share dispute_id t s)
unfolding decide_case
decide-Moved env actor_id AdminDecision.refund share dispute_id t s from =
    let to = TransactionStatus.resolved_refund in
    let t1 : Transaction = record t { status = to; refunded_at = some env.now } in
    let s1 = (transition_transaction env t to (by_admin actor_id) s).1 in
    let m = transition-Move env t to (by_admin actor_id) s in
    let purpose : Purpose = record { prefix = admin_refund; subject = dispute_id } in
    Outcome-bind_later (queue_refund_full env (admin_actor actor_id) t1 purpose) (refund_decided t)
      s s1 (Moved Act.decide t s) (Decided t s)
      (refund-after env (admin_actor actor_id) purpose t t1 s s1 m (from to decided_refund))
      (λ t2 s2 n. n)
decide-Moved env actor_id AdminDecision.release share dispute_id t s from =
    let to = TransactionStatus.resolved_release in
    let t1 : Transaction = record t { status = to; released_at = some env.now } in
    let s1 = (transition_transaction env t to (by_admin actor_id) s).1 in
    let m = transition-Move env t to (by_admin actor_id) s in
    let purpose : Purpose = record { prefix = admin_release; subject = dispute_id } in
    Outcome-bind_later (queue_release_full env (admin_actor actor_id) t1 purpose)
      (release_decided t) s s1 (Moved Act.decide t s) (Decided t s)
      (release-after env (admin_actor actor_id) purpose t t1 s s1 m (from to decided_release))
      (λ t2 s2 n. n)
decide-Moved env actor_id AdminDecision.split share dispute_id t s from =
    let ratio = chosen_ratio share in
    let to = TransactionStatus.resolved_split in
    Outcome-bind (split_for_case env actor_id dispute_id ratio t)
      (split_decided env actor_id t ratio) s (Queued t s) (Decided t s)
      (after s s (Queued t s) (Queued t s) (split_for_case env actor_id dispute_id ratio t s) refl
        (split_for_case-Queued env actor_id dispute_id ratio t s) (λ t1 s1 q. q))
      (λ t1 s1 q.
        let m = transition-Move env t1 to (by_admin actor_id) s1 in
        (
          Move-trans t t1 (record t1 { status = to }) s s1
              (transition_transaction env t1 to (by_admin actor_id) s1).1 q.0 m,
          from to decided_split,
        ))

reviewed_case-same :
    (dispute_id : ℕ) (reason : Text) (s : Session) → (reviewed_case dispute_id reason s).1 ≡ s
unfolding reviewed_case
reviewed_case-same dispute_id reason s = ground arith

reviewed :
    (dispute_id : ℕ) (reason : Text) (s : Session) (d : Dispute) (t : Transaction)
    → (reviewed_case dispute_id reason s).0 ≡ ok (d, t)
    → (lookup d.transaction_id s.work.transactions ≡ some t)
      × (in_status TransactionStatus.escalated_admin_review t ≡ true)
unfolding reviewed_case
reviewed dispute_id reason s d t h = ground arith

pub force_resolve-Changed :
    (env : Env) (dispute_id : ℕ) (choice : AdminDecision) (reason : Text)
    (actor_id share : Option ℕ) (s : Session)
    → Outcome s
        (λ t' s'. (id : ℕ) × Changed Act.decide env id s t' s')
        (force_resolve_dispute_case env dispute_id choice reason actor_id share s)
unfolding force_resolve_dispute_case resolve_case finish_decision
force_resolve-Changed env dispute_id choice reason actor_id share s =
    read-then (reviewed_case dispute_id reason)
      (λ x. resolve_case env choice (strip reason) actor_id share x.0 x.1) s
      (λ t' s'. (id : ℕ) × Changed Act.decide env id s t' s')
      (reviewed_case-same dispute_id reason s)
      (λ (d, t) e.
        let (found, i) = reviewed dispute_id reason s d t e in
        let t0 : Transaction = record t { released_at = none; refunded_at = none } in
        Outcome-bind (decide_case env actor_id choice share d.id t0)
          (finish_decision env choice (strip reason) actor_id d t.status) s (Decided t s)
          (λ t' s'. (id : ℕ) × Changed Act.decide env id s t' s')
          (decide-Moved env actor_id choice share d.id t0 s
            (λ b. Step-from TransactionStatus.escalated_admin_review b t i))
          (λ payouts s1 m. (
            d.transaction_id,
            (t, found, m.1, (m.0.0, m.0.1, refl, stored t payouts.transaction _ s s1 m.0)),
          )))
