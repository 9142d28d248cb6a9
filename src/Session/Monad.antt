-- ===== src/Session/Monad.antt =====
-- A call works on the session's state; `commit` makes it durable, and a call that raises leaves
-- what was committed before (app/db/session.py closes the session without a commit).
use vekro_backend.Base.{ℕ, Bool, Option, none, some, Text, if◌then◌else◌}
use vekro_backend.Model.Db.{Db}
use vekro_backend.Rails.Registry.{CustodyRegistry}

-- What a request reads from outside. The clock is read once in a request; `hmac` is the keyed hash
-- of app/core/security.py under the application's secret; `generated_otp` is the next code of the
-- random generator; `uuid_text` prints an identifier. The two `ready` flags say whether the tables of the outbox and of the ledger
-- exist, which a test schema may leave out.
pub record Env : Type 0 where
  pub now : ℕ
  pub hmac : Text → ℕ
  pub uuid_text : ℕ → Text
  pub generated_otp : Text
  pub production : Bool
  pub registry : CustodyRegistry
  pub outbox_ready : Bool
  pub ledger_ready : Bool

-- The exceptions of app/services/transaction.py, escrow_service.py, ledger.py, dispute.py and
-- dispute_escalation.py; their messages are left out.
pub data Error : Type 0 where
  transaction_validation_error : Error
  listing_not_found : Error
  not_found_for_callback not_found_for_dispatch not_found_for_arrival not_found_for_buyer_action :
      Error
  dispatch_forbidden arrival_forbidden buyer_action_forbidden : Error
  dispatch_invalid_state arrival_invalid_state buyer_action_invalid_state : Error
  invalid_otp : Error
  escrow_service_error split_payout_unsupported payout_inquiry_failed : Error
  ledger_validation_error ledger_idempotency_conflict ledger_unbalanced : Error
  escalation_not_found escalation_forbidden escalation_invalid_state : Error
  dispute_case_not_found dispute_case_invalid_state decision_reason_required
        dispute_split_unsupported :
      Error

pub data Result {ℓ} (A : Type ℓ) : Type ℓ where
  ok : A → Result A
  err : Error → Result A

pub record Session : Type 0 where
  pub committed : Db
  pub work : Db

abbrev pub Action : Type 0 → Type 0
Action A = Session → Result A × Session

module _ {A : Type 0} where
  abbrev pub pure : A → Action A
  pure a s = (ok a, s)

  abbrev pub raise : Error → Action A
  raise e s = (err e, s)

  abbrev pub gets : (Db → A) → Action A
  gets f s = (ok (f s.work), s)

  abbrev pub or_raise : Option A → Error → Action A
  or_raise none e s = (err e, s)
  or_raise (some a) e s = (ok a, s)

infixl 5 ◌>>=◌ ◌>>◌
abbrev pub ◌>>=◌ : {A B : Type 0} → Action A → (A → Action B) → Action B
◌>>=◌ m f s = let (r, s') = m s in elim r [ ok a ↦ f a s' | err e ↦ (err e, s') ]

abbrev pub ◌>>◌ : {A B : Type 0} → Action A → Action B → Action B
m >> k = m >>= λ _. k

-- `if not test: raise e`
abbrev pub require : Bool → Error → Action (Unit {0})
require test e s = (if test then ok tt else err e, s)

abbrev pub modify : (Db → Db) → Action (Unit {0})
modify f s = (ok tt, record s { work = f s.work })

-- `db.commit()`
abbrev pub commit : Action (Unit {0})
commit s = (ok tt, record { committed = s.work; work = s.work })

-- A request: a session of its own on the database, of which the committed state remains.
abbrev pub request : {A : Type 0} → Action A → Db → Result A × Db
request m db = let (r, s) = m (record { committed = db; work = db }) in (r, s.committed)
