-- ===== src/Escrow/Reconciliation.antt =====
-- run_payout_reconciliation of app/services/escrow_service.py: the alerts to the administrators.
-- Its loops write notifications only, so the rows that they read are read before the first of them.
-- The purpose of the attempt in the payload of an alert is left out.
pub mod Repeat
pub mod Tests
use Prim.Native.String.{String}
use vekro_backend.Base.{
  ℕ, ◌+◌, ◌*◌, ◌==◌, leb, ltb, Bool, true, false, not, ◌&&◌, ◌||◌, Option, none, some, List, [],
  ◌∷◌, ◌++◌, keep, any, lookup, Table, if◌then◌else◌,
}
use vekro_backend.Model.Status.{
  TransactionStatus, TransactionPayoutStatus, NotificationEventType, UserRole, is_status,
}
use vekro_backend.Model.Payload.{
  Fact, Payload, AlertKey, payout_unknown, payout_mismatch, alert_key, uuid, text, status, word,
}
use vekro_backend.Model.Rows.{User, Transaction, PayoutAttempt, Notification, plain}
use vekro_backend.Model.Db.{Db}
use vekro_backend.Session.{Env, Action, pure, gets, modify, commit, ◌>>=◌, ◌>>◌}
use vekro_backend.Escrow.Outbox.{is_unknown}
use vekro_backend.Escrow.Executor.{escrow_by_id}

-- One alert: what every active administrator is told.
pub record Alert : Type 0 where
  pub transaction_id : ℕ
  pub key : AlertKey
  pub title : String
  pub message : String
  pub facts : Payload

abbrev pub same_key : AlertKey → AlertKey → Bool
same_key (payout_unknown a) (payout_unknown b) = a == b
same_key (payout_mismatch a s) (payout_mismatch b r) = a == b && is_status s r
same_key _ _ = false

abbrev pub is_key : AlertKey → Fact → Bool
is_key key (alert_key other) = same_key other key
is_key key _ = false

-- `payload.get("alert_key")`
unfoldable pub has_key : AlertKey → Payload → Bool
has_key key [] = false
has_key key ((_, fact) ∷ facts) = is_key key fact || has_key key facts

abbrev pub is_timeout : NotificationEventType → Bool
is_timeout NotificationEventType.system_timeout = true
is_timeout _ = false

abbrev pub is_alert : ℕ → AlertKey → Notification → Bool
is_alert transaction_id key n =
    n.transaction_id == transaction_id && is_timeout n.event_type && has_key key n.payload

-- `_alert_exists`
unfoldable pub alert_exists : ℕ → AlertKey → List Notification → Bool
alert_exists transaction_id key [] = false
alert_exists transaction_id key (n ∷ notes) =
    is_alert transaction_id key n || alert_exists transaction_id key notes

abbrev pub alert_to : Alert → ℕ → Notification
alert_to alert user_id = record {
  user_id = user_id;
  transaction_id = alert.transaction_id;
  event_type = NotificationEventType.system_timeout;
  title = alert.title;
  message = plain alert.message;
  payload = ("alert_key", alert_key alert.key) ∷ alert.facts;
}

unfoldable pub tell_admins : List ℕ → Alert → List Notification → List Notification
tell_admins [] alert notes = notes
tell_admins (admin ∷ admins) alert notes = tell_admins admins alert (alert_to alert admin ∷ notes)

-- A loop of alerts, each raised once; the number counts those that are new.
unfoldable pub raise_alerts : List ℕ → List Alert → List Notification × ℕ → List Notification × ℕ
unfolding alert_exists tell_admins
raise_alerts admins [] s = s
raise_alerts admins (alert ∷ alerts) (notes, count) =
    elim (alert_exists alert.transaction_id alert.key notes) [
      | true ↦ raise_alerts admins alerts (notes, count)
      | false ↦ raise_alerts admins alerts (tell_admins admins alert notes, count + 1)
    ]

abbrev pub is_admin : UserRole → Bool
is_admin UserRole.admin = true
is_admin _ = false

-- The identifiers of the active administrators.
unfoldable pub admin_user_ids : Table User → List ℕ
admin_user_ids [] = []
admin_user_ids ((_, user) ∷ users) =
    let rest = admin_user_ids users in
    if is_admin user.role && user.is_active then user.id ∷ rest else rest

abbrev pub has_provider_reference : PayoutAttempt → Bool
has_provider_reference a = elim a.provider_reference [ some _ ↦ true | none ↦ false ]

-- `max(1, unknown_age_minutes)`, in seconds
abbrev pub unknown_age : ℕ → ℕ
unknown_age minutes = 60 * (if leb minutes 1 then 1 else minutes)

-- An attempt that a rail has taken and that is open since the cutoff.
abbrev pub is_stuck : ℕ → ℕ → PayoutAttempt → Bool
is_stuck now minutes a =
    is_unknown a.outcome
    && has_provider_reference a
    && leb (a.attempted_at + unknown_age minutes) now

-- `order_by(attempted_at.asc())`
unfoldable pub place : PayoutAttempt → List PayoutAttempt → List PayoutAttempt
place a [] = a ∷ []
place a (b ∷ rows) =
    let rest = place a rows in if ltb b.attempted_at a.attempted_at then b ∷ rest else a ∷ b ∷ rows

unfoldable pub oldest_first : List PayoutAttempt → List PayoutAttempt
unfolding place
oldest_first [] = []
oldest_first (a ∷ rows) = place a (oldest_first rows)

-- The alert on an attempt; none without its escrow or its transaction.
unfoldable pub unknown_alert : Db → PayoutAttempt → Option Alert
unfolding escrow_by_id
unknown_alert db a = elim (escrow_by_id a.escrow_id db.escrows) [
  | none ↦ none
  | some escrow ↦ elim (lookup escrow.transaction_id db.transactions) [
    | none ↦ none
    | some t ↦ some (record {
      transaction_id = t.id;
      key = payout_unknown a.id;
      title = "Payout reconciliation required";
      message = "Payout attempt remains UNKNOWN and requires manual follow-up.";
      facts = ("attempt_id", uuid a.id) ∷ ("provider_reference", text a.provider_reference) ∷ [];
    })
  ]
]

unfoldable pub alerts_on : Db → List PayoutAttempt → List Alert
unfolding unknown_alert
alerts_on db [] = []
alerts_on db (a ∷ rows) = elim (unknown_alert db a) [
  | none ↦ alerts_on db rows
  | some alert ↦ alert ∷ alerts_on db rows
]

unfoldable pub unknown_alerts : Env → ℕ → Db → List Alert
unfolding alerts_on oldest_first
unknown_alerts env minutes db =
    alerts_on db (oldest_first (keep (is_stuck env.now minutes) db.payout_attempts))

-- `payout_required_statuses`
abbrev pub requires_payout : TransactionStatus → Bool
requires_payout TransactionStatus.released = true
requires_payout TransactionStatus.refunded_buyer = true
requires_payout TransactionStatus.resolved_release = true
requires_payout TransactionStatus.resolved_refund = true
requires_payout TransactionStatus.resolved_split = true
requires_payout _ = false

abbrev pub is_not_required : TransactionPayoutStatus → Bool
is_not_required TransactionPayoutStatus.not_required = true
is_not_required _ = false

abbrev pub mismatch_alert : Transaction → Alert
mismatch_alert t = record {
  transaction_id = t.id;
  key = payout_mismatch t.id t.status;
  title = "Payout status mismatch";
  message = "Transaction is terminal but payout_status is not synchronized.";
  facts = ("transaction_status", status t.status) ∷ ("payout_status", word "not_required") ∷ [];
}

unfoldable pub mismatch_alerts : Table Transaction → List Alert
mismatch_alerts [] = []
mismatch_alerts ((_, t) ∷ rows) =
    let rest = mismatch_alerts rows in
    if requires_payout t.status && is_not_required t.payout_status
    then mismatch_alert t ∷ rest
    else rest

pub record PayoutReconciliationResult : Type 0 where
  pub unknown_alerts : ℕ
  pub mismatch_alerts : ℕ

abbrev pub no_alerts : PayoutReconciliationResult
no_alerts = record { unknown_alerts = 0; mismatch_alerts = 0 }

unfoldable pub commit_alerts :
    List Notification → PayoutReconciliationResult → Action PayoutReconciliationResult
commit_alerts notes result =
    if result.unknown_alerts == 0 && result.mismatch_alerts == 0
    then pure result
    else (do modify λ db. record db { notifications = notes }; commit; pure result)

unfoldable pub reconcile : Env → ℕ → Db → Action PayoutReconciliationResult
unfolding raise_alerts admin_user_ids unknown_alerts mismatch_alerts
reconcile env minutes db =
    let admins = admin_user_ids db.users in
    let on_unknown = raise_alerts admins (unknown_alerts env minutes db) (db.notifications, 0) in
    let on_mismatch = raise_alerts admins (mismatch_alerts db.transactions) (on_unknown.0, 0) in
    commit_alerts on_mismatch.0
      (record { unknown_alerts = on_unknown.1; mismatch_alerts = on_mismatch.1 })

-- `run_payout_reconciliation`
unfoldable pub run_payout_reconciliation : Env → ℕ → Action PayoutReconciliationResult
run_payout_reconciliation env minutes =
    if env.outbox_ready then (do db ← gets (λ db. db); reconcile env minutes db) else pure no_alerts
