-- ===== src/Lifecycle/Requests.antt =====
-- Sequences of requests on a database: the endpoints of app/routers/transactions.py and of the
-- admin router that take a transaction from its payment to the end of a delivery or of a return
-- case.
pub mod Steps
pub mod Laws
pub mod Tests
use vekro_backend.Base.{ℕ, Bool, List, [], ◌∷◌, Option, Text}
use vekro_backend.Model.Rows.{User, Evidence}
use vekro_backend.Model.Db.{Db}
use vekro_backend.Session.{Env, Action, request, pure, ◌>>◌}
use vekro_backend.Model.Status.{AdminDecision, TransactionStatus}
use vekro_backend.Lifecycle.Moves.{Act, Step}
use vekro_backend.Lifecycle.Delivery.{
  dispatch_transaction, mark_transaction_arrived, confirm_buyer_delivery_otp,
  withhold_buyer_delivery_otp,
}
use vekro_backend.Lifecycle.Returns.{
  report_functional_issue, mark_buyer_sent_back, mark_seller_received,
}
use vekro_backend.Lifecycle.Resolution.{apply_seller_resolution_action}
use vekro_backend.Lifecycle.Reconfirmation.{submit_buyer_reconfirmation}
use vekro_backend.Lifecycle.Closure.{
  submit_buyer_resolution_confirmation, submit_seller_resolution_confirmation,
}
use vekro_backend.Lifecycle.Support.{escalate_dispute, force_resolve_dispute_case}
use vekro_backend.Lifecycle.Sweep.{run_timeout_jobs}
use vekro_backend.Lifecycle.Payment.{PaymentCallback, confirm_payment_callback}

-- A request with the caller's account and the body of the call.
pub data Request : Type 0 where
  paid : PaymentCallback → Request
  dispatched : ℕ → User → Request
  arrived : ℕ → User → Request
  code_given : ℕ → User → Text → Request
  code_withheld : ℕ → User → Option Text → Option Text → Request
  reported : ℕ → User → Text → Text → Evidence → Request
  sent_back : ℕ → User → Request
  received : ℕ → User → Request
  answered : ℕ → User → Text → Option Text → Request
  reconfirmed : ℕ → User → Bool → Option Text → Request
  buyer_closed : ℕ → User → Request
  seller_closed : ℕ → User → Request
  sent_to_support : ℕ → User → Request
  decided : ℕ → AdminDecision → Text → Option ℕ → Option ℕ → Request

-- The act that a request is.
abbrev pub act_of : Request → Act
act_of (paid _) = Act.pay
act_of (dispatched _ _) = Act.dispatch
act_of (arrived _ _) = Act.arrive
act_of (code_given _ _ _) = Act.give_code
act_of (code_withheld _ _ _ _) = Act.withhold_code
act_of (reported _ _ _ _ _) = Act.report
act_of (sent_back _ _) = Act.send_back
act_of (received _ _) = Act.receive
act_of (answered _ _ _ _) = Act.answer
act_of (reconfirmed _ _ _ _) = Act.reconfirm
act_of (buyer_closed _ _) = Act.close
act_of (seller_closed _ _) = Act.close
act_of (sent_to_support _ _) = Act.escalate
act_of (decided _ _ _ _ _) = Act.decide

unfoldable pub perform : Env → Request → Action (Unit {0})
perform env (paid payload) = confirm_payment_callback env payload >> pure tt
perform env (dispatched id seller) = dispatch_transaction env id seller >> pure tt
perform env (arrived id seller) = mark_transaction_arrived env id seller >> pure tt
perform env (code_given id buyer otp_code) =
    confirm_buyer_delivery_otp env id buyer otp_code >> pure tt
perform env (code_withheld id buyer reason note) =
    withhold_buyer_delivery_otp env id buyer reason note >> pure tt
perform env (reported id buyer category description evidence) =
    report_functional_issue env id buyer category description evidence >> pure tt
perform env (sent_back id buyer) = mark_buyer_sent_back env id buyer >> pure tt
perform env (received id seller) = mark_seller_received env id seller >> pure tt
perform env (answered id seller action notes) =
    apply_seller_resolution_action env id seller action notes >> pure tt
perform env (reconfirmed id buyer accepted notes) =
    submit_buyer_reconfirmation env id buyer accepted notes >> pure tt
perform env (buyer_closed id buyer) = submit_buyer_resolution_confirmation env id buyer >> pure tt
perform env (seller_closed id seller) =
    submit_seller_resolution_confirmation env id seller >> pure tt
perform env (sent_to_support id user) = escalate_dispute env id user >> pure tt
perform env (decided dispute_id choice reason actor_id seller_share) =
    force_resolve_dispute_case env dispute_id choice reason actor_id seller_share >> pure tt

-- What reaches the database: a request, or the timeout sweep of app/commands/run_timeouts.py.
pub data Call : Type 0 where
  asked : Request → Call
  swept : Call

unfoldable pub run : Env → Call → Action (Unit {0})
run env (asked r) = perform env r
run env swept = run_timeout_jobs env >> pure tt

abbrev pub call_act : Call → Act
call_act (asked r) = act_of r
call_act swept = Act.time_out

-- Calls one after another, each in what its environment was, and what is committed in the end.
unfoldable pub serve : List (Env × Call) → Db → Db
unfolding run
serve [] db = db
serve ((env, call) ∷ more) db = serve more (request (run env call) db).1

-- Where calls one after another can take a transaction: each does nothing to it or takes one step of
-- its act.
pub data Trail : List (Env × Call) → TransactionStatus → TransactionStatus → Type 0 where
  arrived_at : {a : TransactionStatus} → Trail [] a a
  step_of :
      {env : Env} {call : Call} {more : List (Env × Call)} {a b c : TransactionStatus}
      → Step (call_act call) a b
      → Trail more b c
      → Trail ((env, call) ∷ more) a c
