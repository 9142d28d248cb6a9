-- ===== src/Lifecycle/Effects/Resolution.antt =====
-- The effects of a report of a functional issue, of the seller's answer to it and of the buyer's
-- answer to that.
use vekro_backend.Base.{
  ℕ, Bool, true, false, ◌≡◌, refl, Option, some, none, Text, if◌then◌else◌, arith, lookup,
}
use vekro_backend.Model.Status.{
  TransactionStatus, is_seller, is_buyer, SellerResolutionAction, refund_issued, repair_shipped,
  replacement_shipped, is_dispute_status, DisputeStatus, ActorType,
}
use vekro_backend.Model.Rows.{
  Transaction, User, Dispute, Evidence, seller_refund, reconfirm_release,
}
use vekro_backend.Session.{
  Env, Session, Outcome, Outcome-bind_later, Outcome-bind, read-then, latest_dispute, new_id, pure,
}
use vekro_backend.Model.Db.{DisputeEvent, escalated}
use vekro_backend.Escrow.Outbox.{system_actor}
use vekro_backend.Lifecycle.Transitions.{
  transition_transaction, by_user, owned_by_seller, owned_by_buyer, record_dispute_event,
}
use vekro_backend.Lifecycle.Returns.{
  reported_category, report_as, report_checked, report_functional_issue, open_case, finish_report,
  escalate_other, reported_dispute, normalize_functional_issue_category, action_reason,
}
use vekro_backend.Lifecycle.Resolution.{
  apply_action, settle_dispute_by_seller, finish_resolution, conclude_resolution, resolve_with,
  allowed_action, resolve_checked, apply_seller_resolution_action,
}
use vekro_backend.Lifecycle.Reconfirmation.{
  Verdict, accept, retry, escalate, verdict_of, reconfirm_rejection_count, reconfirm_transaction,
  settle_dispute_by_buyer, finish_reconfirmation, conclude_reconfirmation, reconfirm_checked,
  escalate_over_limit, reconfirmed_dispute, submit_buyer_reconfirmation,
}
use vekro_backend.Lifecycle.Moves.{Act, Step, reported, refunded, offered, given_up}
use vekro_backend.Lifecycle.Moves
use vekro_backend.Lifecycle.Effects.{
  Moved, Changed, transition-Move, stored, guard-then, Step-from, refund-after, release-after,
}

-- A dispute event, recorded or not, moves no transaction.
event_if-Moved :
    {act : Act} (env : Env) (recorded : Bool) (d : Dispute) (event : DisputeEvent)
    (actor : ActorType) (actor_id : Option ℕ) (t t1 : Transaction) (s s1 : Session)
    → Moved act t s t1 s1
    → Outcome s
        (λ _ s2. Moved act t s t1 s2)
        ((if recorded then record_dispute_event env d event actor actor_id else pure tt) s1)
unfolding record_dispute_event
event_if-Moved {act = act} env true d event actor actor_id t t1 s s1 m = m
event_if-Moved {act = act} env false d event actor actor_id t t1 s s1 m = m

reported_category-same :
    (category : Text) (t : Transaction) (s : Session) → (reported_category category t s).1 ≡ s
unfolding reported_category normalize_functional_issue_category
reported_category-same category t s = ground arith

allowed_action-same :
    (action : Text) (t : Transaction) (s : Session) → (allowed_action action t s).1 ≡ s
unfolding allowed_action
allowed_action-same action t s = ground arith

open_case-Moved :
    (env : Env) (buyer : User) (category : Text) (d : Dispute) (t : Transaction) (s s1 : Session)
    → s1 ≡ (new_id s).1
    → Step Act.report t.status TransactionStatus.disputed_functional
    → Outcome s (Moved Act.report t s) (open_case env buyer category d t s1)
unfolding open_case escalate_other
open_case-Moved env buyer category d t s s1 e path =
    let to = TransactionStatus.disputed_functional in
    let t1 : Transaction = record t { status = to } in
    let m = transition-Move env t to (by_user buyer.id "functional_issue_reported") s in
    rw e (
      Outcome-bind_later (escalate_other env d) (λ _. pure t1) s _
        (λ _ s2. Moved Act.report t s t1 s2) (Moved Act.report t s)
        (event_if-Moved env (is_dispute_status d.status DisputeStatus.escalated_admin_review) d
          (escalated "system" "other_category") ActorType.system none t t1 s _ (m, path))
        (λ _ s2 n. n))

pub report-Changed :
    (env : Env) (id : ℕ) (buyer : User) (category description : Text) (evidence : Evidence)
    (s : Session)
    → Outcome s
        (Changed Act.report env id s)
        (report_functional_issue env id buyer category description evidence s)
unfolding report_functional_issue report_checked report_as finish_report
report-Changed env id buyer category description evidence s =
    guard-then (is_buyer buyer.role) id _ (owned_by_buyer buyer) _ _ _
      (report_checked env buyer category description evidence) s (Changed Act.report env id s)
      (λ t found _ i.
        read-then (reported_category category t) (report_as env buyer description evidence t) s
          (Changed Act.report env id s) (reported_category-same category t s)
          (λ normalized _.
            let (_, s1) = new_id s in
            let d : Dispute =
              reported_dispute env s.work.next_id t buyer normalized description evidence in
            Outcome-bind_later (open_case env buyer normalized d t) (finish_report env normalized d)
              s s1 (Moved Act.report t s) (Changed Act.report env id s)
              (open_case-Moved env buyer normalized d t s s1 refl
                (Step-from TransactionStatus.hold_24h _ t i reported))
              (λ t1 s2 m. (t, found, m.1, (m.0.0, m.0.1, refl, stored t t1 _ s s2 m.0)))))

apply_action-Moved :
    (env : Env) (seller : User) (selected : SellerResolutionAction) (t : Transaction) (s : Session)
    → ((b : TransactionStatus)
        → Step Act.answer TransactionStatus.return_received b
        → Step Act.answer t.status b)
    → Outcome s (Moved Act.answer t s) (apply_action env seller selected t s)
unfolding apply_action
apply_action-Moved env seller refund_issued t s from =
    let to = TransactionStatus.refunded_buyer in
    let cause = by_user seller.id (action_reason refund_issued) in
    let t1 : Transaction = record t { status = to; refunded_at = some env.now } in
    let m = transition-Move env t to cause s in
    refund-after env system_actor (record { prefix = seller_refund; subject = t.id }) t t1 s
      (transition_transaction env t to cause s).1 m (from to refunded)
apply_action-Moved env seller repair_shipped t s from = (
  transition-Move env t TransactionStatus.awaiting_buyer_reconfirmation
      (by_user seller.id (action_reason repair_shipped)) s,
  from TransactionStatus.awaiting_buyer_reconfirmation offered,
)
apply_action-Moved env seller replacement_shipped t s from = (
  transition-Move env t TransactionStatus.awaiting_buyer_reconfirmation
      (by_user seller.id (action_reason replacement_shipped)) s,
  from TransactionStatus.awaiting_buyer_reconfirmation offered,
)

settle_by_seller-Moved :
    (env : Env) (seller : User) (selected : SellerResolutionAction) (notes : Option Text)
    (latest : Option Dispute) (t t1 : Transaction) (s s1 : Session)
    → Moved Act.answer t s t1 s1
    → Outcome s
        (λ _ s2. Moved Act.answer t s t1 s2)
        (settle_dispute_by_seller env seller selected notes latest s1)
unfolding settle_dispute_by_seller
settle_by_seller-Moved env seller selected notes none t t1 s s1 m = m
settle_by_seller-Moved env seller selected notes (some d) t t1 s s1 m = m

finish_resolution-Changed :
    (env : Env) (id : ℕ) (seller : User) (selected : SellerResolutionAction) (notes : Option Text)
    (t t1 : Transaction) (s s1 : Session)
    → lookup id s.work.transactions ≡ some t
    → Moved Act.answer t s t1 s1
    → Outcome s (Changed Act.answer env id s) (finish_resolution env seller selected notes t1 s1)
unfolding finish_resolution conclude_resolution
finish_resolution-Changed env id seller selected notes t t1 s s1 found m =
    let latest = latest_dispute t1.id s1.work in
    Outcome-bind_later (settle_dispute_by_seller env seller selected notes latest)
      (λ _. conclude_resolution env selected t1) s s1 (λ _ s2. Moved Act.answer t s t1 s2)
      (Changed Act.answer env id s)
      (settle_by_seller-Moved env seller selected notes latest t t1 s s1 m)
      (λ _ s2 n. (t, found, n.1, (n.0.0, n.0.1, refl, stored t t1 _ s s2 n.0)))

pub resolve-Changed :
    (env : Env) (id : ℕ) (seller : User) (action : Text) (notes : Option Text) (s : Session)
    → Outcome s
        (Changed Act.answer env id s)
        (apply_seller_resolution_action env id seller action notes s)
unfolding apply_seller_resolution_action resolve_checked resolve_with
resolve-Changed env id seller action notes s =
    guard-then (is_seller seller.role) id _ (owned_by_seller seller) _ _ _
      (resolve_checked env seller action notes) s (Changed Act.answer env id s)
      (λ t found _ i.
        read-then (allowed_action action t) (resolve_with env seller notes t) s
          (Changed Act.answer env id s) (allowed_action-same action t s)
          (λ selected _.
            Outcome-bind (apply_action env seller selected t)
              (finish_resolution env seller selected notes) s (Moved Act.answer t s)
              (Changed Act.answer env id s)
              (apply_action-Moved env seller selected t s
                (λ b. Step-from TransactionStatus.return_received b t i))
              (λ t1 s1. finish_resolution-Changed env id seller selected notes t t1 s s1 found)))

reconfirm-Moved :
    (env : Env) (buyer : User) (verdict : Verdict) (t : Transaction) (s : Session)
    → ((b : TransactionStatus)
        → Step Act.reconfirm TransactionStatus.awaiting_buyer_reconfirmation b
        → Step Act.reconfirm t.status b)
    → Outcome s (Moved Act.reconfirm t s) (reconfirm_transaction env buyer verdict t s)
unfolding reconfirm_transaction
reconfirm-Moved env buyer accept t s from =
    let to = TransactionStatus.resolved_release in
    let cause = by_user buyer.id "buyer_reconfirmed_accepted" in
    let t1 : Transaction = record t { status = to; released_at = some env.now } in
    let m = transition-Move env t to cause s in
    release-after env system_actor (record { prefix = reconfirm_release; subject = t.id }) t t1 s
      (transition_transaction env t to cause s).1 m (from to Moves.accepted)
reconfirm-Moved env buyer retry t s from = (
  transition-Move env t TransactionStatus.return_received
      (by_user buyer.id "buyer_reconfirmed_rejected") s,
  from TransactionStatus.return_received Moves.rejected,
)
reconfirm-Moved env buyer escalate t s from = (
  transition-Move env t TransactionStatus.escalated_admin_review
      (by_user buyer.id "reconfirm_retry_limit") s,
  from TransactionStatus.escalated_admin_review given_up,
)

-- The last event of a reconfirmation that goes to support.
settle_by_buyer-Moved :
    (env : Env) (buyer : User) (accepted : Bool) (notes : Option Text) (latest : Option Dispute)
    (t t1 : Transaction) (s s1 : Session)
    → Moved Act.reconfirm t s t1 s1
    → Outcome s
        (λ _ s2. Moved Act.reconfirm t s t1 s2)
        (settle_dispute_by_buyer env buyer accepted notes latest s1)
unfolding settle_dispute_by_buyer escalate_over_limit
settle_by_buyer-Moved env buyer accepted notes none t t1 s s1 m = m
settle_by_buyer-Moved env buyer accepted notes (some d) t t1 s s1 m =
    let d1 : Dispute = reconfirmed_dispute env accepted notes d in
    event_if-Moved env (is_dispute_status d1.status DisputeStatus.escalated_admin_review) d1
      (escalated "system" "reconfirm_retry_limit") ActorType.system none t t1 s _ m

finish_reconfirmation-Changed :
    (env : Env) (id : ℕ) (buyer : User) (accepted : Bool) (notes : Option Text)
    (latest : Option Dispute) (t t1 : Transaction) (s s1 : Session)
    → lookup id s.work.transactions ≡ some t
    → Moved Act.reconfirm t s t1 s1
    → Outcome s
        (Changed Act.reconfirm env id s)
        (finish_reconfirmation env buyer accepted notes latest t1 s1)
unfolding finish_reconfirmation conclude_reconfirmation
finish_reconfirmation-Changed env id buyer accepted notes latest t t1 s s1 found m =
    Outcome-bind_later (settle_dispute_by_buyer env buyer accepted notes latest)
      (λ _. conclude_reconfirmation env accepted (reconfirm_rejection_count latest) t1) s s1
      (λ _ s2. Moved Act.reconfirm t s t1 s2) (Changed Act.reconfirm env id s)
      (settle_by_buyer-Moved env buyer accepted notes latest t t1 s s1 m)
      (λ _ s2 n. (t, found, n.1, (n.0.0, n.0.1, refl, stored t t1 _ s s2 n.0)))

pub reconfirm-Changed :
    (env : Env) (id : ℕ) (buyer : User) (accepted : Bool) (notes : Option Text) (s : Session)
    → Outcome s
        (Changed Act.reconfirm env id s)
        (submit_buyer_reconfirmation env id buyer accepted notes s)
unfolding submit_buyer_reconfirmation reconfirm_checked
reconfirm-Changed env id buyer accepted notes s =
    guard-then (is_buyer buyer.role) id _ (owned_by_buyer buyer) _ _ _
      (reconfirm_checked env buyer accepted notes) s (Changed Act.reconfirm env id s)
      (λ t found _ i.
        let latest = latest_dispute t.id s.work in
        let verdict = verdict_of accepted (reconfirm_rejection_count latest) in
        Outcome-bind (reconfirm_transaction env buyer verdict t)
          (finish_reconfirmation env buyer accepted notes latest) s (Moved Act.reconfirm t s)
          (Changed Act.reconfirm env id s)
          (reconfirm-Moved env buyer verdict t s
            (λ b. Step-from TransactionStatus.awaiting_buyer_reconfirmation b t i))
          (λ t1 s1.
            finish_reconfirmation-Changed env id buyer accepted notes latest t t1 s s1 found))
