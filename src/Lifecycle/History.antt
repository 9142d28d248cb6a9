-- ===== src/Lifecycle/History.antt =====
-- The status that the anchor log tells: the target of the newest transition of a transaction.
use vekro_backend.Base.{ℕ, ◌==◌, Bool, false, Option, none, some, List, [], ◌∷◌, if◌then◌else◌}
use vekro_backend.Model.Status.{TransactionStatus}
use vekro_backend.Model.Db.{AnchorEvent, transition}

abbrev pub concerns : ℕ → Option ℕ → Bool
concerns id none = false
concerns id (some j) = j == id

-- A transaction is created awaiting payment.
abbrev pub logged_status : ℕ → List AnchorEvent → TransactionStatus
logged_status id [] = TransactionStatus.awaiting_payment
logged_status id (event ∷ older) =
    let rest = logged_status id older in
    elim event.payload [
      | transition moved ↦ if concerns id event.transaction_id then moved.to_status else rest
      | _ ↦ rest
    ]
