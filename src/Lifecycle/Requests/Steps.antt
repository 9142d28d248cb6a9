-- ===== src/Lifecycle/Requests/Steps.antt =====
-- What one request does, whichever it is.
use vekro_backend.Base.{inl, inr, refl, ap, ◌+◌}
use vekro_backend.Model.Db.{Db}
use vekro_backend.Session.{Env, Session, Result, ok, err, request, Outcome}
use vekro_backend.Lifecycle.History.{logged_status}
use vekro_backend.Lifecycle.Moves.{Act, stay}
use vekro_backend.Lifecycle.Story.{Story, quiet, turn}
use vekro_backend.Lifecycle.Effects.Delivery.{
  dispatch-Changed, arrive-Changed, confirm-Changed, withhold-Changed,
}
use vekro_backend.Lifecycle.Effects.Returns.{send_back-Changed, receive-Changed}
use vekro_backend.Lifecycle.Requests.{
  Request, paid, dispatched, arrived, code_given, code_withheld, reported, sent_back, received,
  answered, reconfirmed, buyer_closed, seller_closed, sent_to_support, decided, perform, act_of,
}
use vekro_backend.Lifecycle.Effects.Resolution.{report-Changed, resolve-Changed, reconfirm-Changed}
use vekro_backend.Lifecycle.Effects.Quiet.{
  Accepted, Changed-Accepted, some_Changed-Accepted, Quiet-Accepted, then_done, buyer_closes-Quiet,
  seller_closes-Quiet,
}
use vekro_backend.Lifecycle.Effects.Cases.{escalate-Changed, force_resolve-Changed}
use vekro_backend.Lifecycle.Effects.Payment.{callback-Accepted}
use vekro_backend.Lifecycle.Delivery.{
  dispatch_transaction, mark_transaction_arrived, confirm_buyer_delivery_otp,
  withhold_buyer_delivery_otp,
}
use vekro_backend.Lifecycle.Returns.{
  report_functional_issue, mark_buyer_sent_back, mark_seller_received,
}
use vekro_backend.Lifecycle.Resolution.{apply_seller_resolution_action}
use vekro_backend.Lifecycle.Reconfirmation.{submit_buyer_reconfirmation}
use vekro_backend.Lifecycle.Closure.{
  submit_buyer_resolution_confirmation, submit_seller_resolution_confirmation,
}
use vekro_backend.Lifecycle.Support.{escalate_dispute, force_resolve_dispute_case}
use vekro_backend.Lifecycle.Payment.{confirm_payment_callback}

pub perform-Accepted :
    (env : Env) (r : Request) (s : Session)
    → Outcome s (λ _ s'. Accepted (act_of r) env s s') (perform env r s)
unfolding perform
perform-Accepted env (paid payload) s =
    then_done Act.pay env (confirm_payment_callback env payload) s (callback-Accepted env payload s)
perform-Accepted env (dispatched id seller) s =
    Changed-Accepted Act.dispatch env id (dispatch_transaction env id seller) s
      (dispatch-Changed env id seller s)
perform-Accepted env (arrived id seller) s =
    Changed-Accepted Act.arrive env id (mark_transaction_arrived env id seller) s
      (arrive-Changed env id seller s)
perform-Accepted env (code_given id buyer otp_code) s =
    Changed-Accepted Act.give_code env id (confirm_buyer_delivery_otp env id buyer otp_code) s
      (confirm-Changed env id buyer otp_code s)
perform-Accepted env (code_withheld id buyer reason note) s =
    Changed-Accepted Act.withhold_code env id (withhold_buyer_delivery_otp env id buyer reason note)
      s (withhold-Changed env id buyer reason note s)
perform-Accepted env (reported id buyer category description evidence) s =
    Changed-Accepted Act.report env id
      (report_functional_issue env id buyer category description evidence) s
      (report-Changed env id buyer category description evidence s)
perform-Accepted env (sent_back id buyer) s =
    Changed-Accepted Act.send_back env id (mark_buyer_sent_back env id buyer) s
      (send_back-Changed env id buyer s)
perform-Accepted env (received id seller) s =
    Changed-Accepted Act.receive env id (mark_seller_received env id seller) s
      (receive-Changed env id seller s)
perform-Accepted env (answered id seller action notes) s =
    Changed-Accepted Act.answer env id (apply_seller_resolution_action env id seller action notes) s
      (resolve-Changed env id seller action notes s)
perform-Accepted env (reconfirmed id buyer accepted notes) s =
    Changed-Accepted Act.reconfirm env id (submit_buyer_reconfirmation env id buyer accepted notes)
      s (reconfirm-Changed env id buyer accepted notes s)
perform-Accepted env (buyer_closed id buyer) s =
    Quiet-Accepted Act.close env (submit_buyer_resolution_confirmation env id buyer) s
      (buyer_closes-Quiet env id buyer s)
perform-Accepted env (seller_closed id seller) s =
    Quiet-Accepted Act.close env (submit_seller_resolution_confirmation env id seller) s
      (seller_closes-Quiet env id seller s)
perform-Accepted env (sent_to_support id user) s =
    Changed-Accepted Act.escalate env id (escalate_dispute env id user) s
      (escalate-Changed env id user s)
perform-Accepted env (decided dispute_id choice reason actor_id share) s =
    some_Changed-Accepted Act.decide env
      (force_resolve_dispute_case env dispute_id choice reason actor_id share) s
      (force_resolve-Changed env dispute_id choice reason actor_id share s)

Outcome-Story :
    (act : Act) (env : Env) (db : Db) (r : Result (Unit {0}) × Session)
    → Outcome
        (record { committed = db; work = db })
        (λ _ s'. Accepted act env (record { committed = db; work = db }) s')
        r
    → Story act db r.1.committed
Outcome-Story act env db (ok _, s) (inl (id, x, (t, found, path, u))) =
    turn db s.committed s.committed
      (
        id,
        t,
        record x { updated_at = env.now },
        found,
        rw u.2 u.3,
        u.0,
        path,
        (λ told. rw u.2 (u.1.0 told)),
        λ j other. rw u.2 (u.1.1 j other),
      )
      (quiet s.committed s.committed refl (λ _. refl))
Outcome-Story act env db (ok _, s) (inr (inl q)) =
    quiet db s.committed (rw q.0 q.1) (λ j. rw q.0 (q.2 j))
Outcome-Story act env db (ok _, s) (inr (inr same)) =
    quiet db s.committed (ap (λ x. x.transactions) same)
      (λ j. ap (λ x. logged_status j x.anchor_events) same)
Outcome-Story act env db (err e, s) (inl same) =
    quiet db s.committed (ap (λ x. x.transactions) same)
      (λ j. ap (λ x. logged_status j x.anchor_events) same)
Outcome-Story act env db (err e, s) (inr (_, (k, at, t, found, same))) =
    turn db s.committed s.committed
      (
        k,
        t,
        record t { otp_failed_attempts = t.otp_failed_attempts + 1; updated_at = at },
        found,
        ap (λ x. x.transactions) same,
        (refl, refl, refl, refl, refl),
        stay,
        (λ told. rw same told),
        λ j other. rw same refl,
      )
      (quiet s.committed s.committed refl (λ _. refl))

pub request-Story :
    (env : Env) (r : Request) (db : Db) → Story (act_of r) db (request (perform env r) db).1
request-Story env r db =
    let s : Session = record { committed = db; work = db } in
    Outcome-Story (act_of r) env db (perform env r s) (perform-Accepted env r s)
