-- ===== src/Lifecycle/Transitions.antt =====
-- transition_transaction and record_dispute_event of app/services/transitions.py, the guards that
-- the handlers share, and the payload helpers.
use Prim.Native.String.{String}
use vekro_backend.Base.{ℕ, ◌==◌, Bool, Option, none, some, Text}
use vekro_backend.Model.Status.{TransactionStatus, is_status, ActorType}
use vekro_backend.Model.Rows.{Transaction, Dispute, User}
use vekro_backend.Model.Db.{Transition, DisputeEvent, transition, dispute}
use vekro_backend.Session.{
  Env, Error, Action, pure, require, get_transaction, record_anchor_event, ◌>>=◌, ◌>>◌,
}

-- The keyword arguments of a transition, and what they default to.
pub record Cause : Type 0 where
  pub actor_type : ActorType
  pub actor_id : Option ℕ
  pub reason : String
  pub door_rejection_reason : Option Text

abbrev pub by_user : ℕ → String → Cause
by_user id reason = record {
  actor_type = ActorType.user;
  actor_id = some id;
  reason = reason;
  door_rejection_reason = none;
}

abbrev pub by_system : String → Cause
by_system reason = record {
  actor_type = ActorType.system;
  actor_id = none;
  reason = reason;
  door_rejection_reason = none;
}

abbrev pub by_provider : String → Cause
by_provider reason = record {
  actor_type = ActorType.provider;
  actor_id = none;
  reason = reason;
  door_rejection_reason = none;
}

abbrev pub transition_event : Env → Transaction → TransactionStatus → Cause → Transition
transition_event env t to cause = record {
  from_status = t.status;
  to_status = to;
  actor_type = cause.actor_type;
  actor_id = cause.actor_id;
  reason = cause.reason;
  at = env.now;
  door_rejection_reason = cause.door_rejection_reason;
}

-- The changed transaction stays in memory until the caller saves it.
unfoldable pub transition_transaction :
    Env → Transaction → TransactionStatus → Cause → Action Transaction
transition_transaction env t to cause = do
  record_anchor_event (some t.id) (transition (transition_event env t to cause))
  pure (record t { status = to })

unfoldable pub record_dispute_event :
    Env → Dispute → DisputeEvent → ActorType → Option ℕ → Action (Unit {0})
record_dispute_event env d event actor_type actor_id =
    record_anchor_event (some d.transaction_id) (dispute d.id event actor_type actor_id env.now)

-- The guards at the head of a handler: the caller's role, the transaction, its owner, its status.
unfoldable pub guarded_transaction :
    Bool
    → ℕ
    → Error
    → (Transaction → Bool)
    → Error
    → (Transaction → Bool)
    → Error
    → Action Transaction
guarded_transaction role_fits id missing owner forbidden in_state invalid = do
  require role_fits Error.transaction_validation_error
  t ← get_transaction id missing
  require (owner t) forbidden
  require (in_state t) invalid
  pure t

abbrev pub in_status : TransactionStatus → Transaction → Bool
in_status status t = is_status t.status status

abbrev pub owned_by_seller : User → Transaction → Bool
owned_by_seller seller t = t.seller_id == seller.id

abbrev pub owned_by_buyer : User → Transaction → Bool
owned_by_buyer buyer t = t.buyer_id == buyer.id
