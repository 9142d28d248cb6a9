-- ===== src/Lifecycle/Delivery/Secret.antt =====
-- Who learns the delivery code: mark_transaction_arrived of app/services/transaction.py.
use Prim.Native.String.{String}
use vekro_backend.Base.{ℕ, Bool, true, false, ◌||◌, List, [], ◌∷◌, any, if◌then◌else◌}
use vekro_backend.Model.Payload.{Fact, code}
use vekro_backend.Model.Rows.{Notification, Message, delivery_code_message}
use vekro_backend.Session.{Session}

abbrev pub tells_code : Message → Bool
tells_code (delivery_code_message _) = true
tells_code _ = false

abbrev pub holds_code : String × Fact → Bool
holds_code (_, code _) = true
holds_code _ = false

-- Whether a notification shows a delivery code, in its text or in its payload.
abbrev pub reveals_code : Notification → Bool
reveals_code n = tells_code n.message || any holds_code n.payload

-- The users who have been shown a delivery code, newest first.
abbrev pub shown_code : List Notification → List ℕ
shown_code [] = []
shown_code (n ∷ more) =
    let rest = shown_code more in if reveals_code n then n.user_id ∷ rest else rest
