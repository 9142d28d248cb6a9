-- ===== src/Escrow/Reconciliation/Repeat.antt =====
-- The payout reconciliation run twice.
use vekro_backend.Base.{
  ℕ, ◌+◌, ◌==◌, ◌≡◌, refl, sym, ap, ◌∙◌, arith, Bool-cases, true, inl, inr, none, some, keep, subst,
  List, [], ◌∷◌, ◌&&◌,
}
use vekro_backend.Model.Status.{TransactionStatus, is_status}
use vekro_backend.Model.Payload.{AlertKey, payout_unknown, payout_mismatch}
use vekro_backend.Model.Rows.{Notification, PayoutAttempt}
use vekro_backend.Model.Db.{Db}
use vekro_backend.Session.{Env, Session, Action, ok, request}
use vekro_backend.Escrow.Reconciliation.{
  Alert, same_key, is_alert, alert_to, has_key, alert_exists, tell_admins, raise_alerts,
  admin_user_ids, unknown_alerts, mismatch_alerts, PayoutReconciliationResult, no_alerts,
  commit_alerts, reconcile, alerts_on, unknown_alert, oldest_first, is_stuck,
  run_payout_reconciliation,
}

is_status_refl : (s : TransactionStatus) → is_status s s ≡ true
is_status_refl s = ground arith

same_key_refl : (key : AlertKey) → same_key key key ≡ true
same_key_refl (payout_unknown a) = ground arith
same_key_refl (payout_mismatch a s) = ground (arith, is_status_refl s)

own_alert :
    (alert : Alert) (admin : ℕ)
    → is_alert alert.transaction_id alert.key (alert_to alert admin) ≡ true
unfolding has_key
own_alert alert admin = ground (arith, same_key_refl alert.key)

exists_more :
    (i : ℕ) (key : AlertKey) (n : Notification) (notes : List Notification)
    → alert_exists i key notes ≡ true
    → alert_exists i key (n ∷ notes) ≡ true
unfolding alert_exists
exists_more i key n notes h = ground arith

tell_admins-keeps :
    (i : ℕ) (key : AlertKey) (alert : Alert) (admins : List ℕ) (notes : List Notification)
    → alert_exists i key notes ≡ true
    → alert_exists i key (tell_admins admins alert notes) ≡ true
unfolding tell_admins
tell_admins-keeps i key alert [] notes h = h
tell_admins-keeps i key alert (admin ∷ admins) notes h =
    tell_admins-keeps i key alert admins (alert_to alert admin ∷ notes)
      (exists_more i key (alert_to alert admin) notes h)

tell_admins-tells :
    (alert : Alert) (admin : ℕ) (admins : List ℕ) (notes : List Notification)
    → alert_exists alert.transaction_id alert.key (tell_admins (admin ∷ admins) alert notes) ≡ true
unfolding tell_admins alert_exists
tell_admins-tells alert admin admins notes =
    tell_admins-keeps alert.transaction_id alert.key alert admins (alert_to alert admin ∷ notes)
      (ground (arith, own_alert alert admin))

raise_alerts-keeps :
    (i : ℕ) (key : AlertKey) (admins : List ℕ) (alerts : List Alert) (notes : List Notification)
    (count : ℕ)
    → alert_exists i key notes ≡ true
    → alert_exists i key (raise_alerts admins alerts (notes, count)).0 ≡ true
unfolding raise_alerts
raise_alerts-keeps i key admins [] notes count h = h
raise_alerts-keeps i key admins (alert ∷ alerts) notes count h =
    elim (Bool-cases (alert_exists alert.transaction_id alert.key notes)) [
      | inl there ↦ rw (there, raise_alerts) (raise_alerts-keeps i key admins alerts notes count h)
      | inr new ↦
          rw (new, raise_alerts)
            (raise_alerts-keeps i key admins alerts (tell_admins admins alert notes) (count + 1)
              (tell_admins-keeps i key alert admins notes h))
    ]

abbrev AreTold : List Alert → List Notification → Type 0
AreTold [] notes = Unit
AreTold (alert ∷ alerts) notes =
    (alert_exists alert.transaction_id alert.key notes ≡ true) × AreTold alerts notes

raised-AreTold :
    (admins : List ℕ) (told alerts : List Alert) (notes : List Notification) (count : ℕ)
    → AreTold told notes
    → AreTold told (raise_alerts admins alerts (notes, count)).0
raised-AreTold admins [] alerts notes count h = tt
raised-AreTold admins (alert ∷ told) alerts notes count h = (
  raise_alerts-keeps alert.transaction_id alert.key admins alerts notes count h.0,
  raised-AreTold admins told alerts notes count h.1,
)

raise_alerts-AreTold :
    (admin : ℕ) (admins : List ℕ) (alerts : List Alert) (notes : List Notification) (count : ℕ)
    → AreTold alerts (raise_alerts (admin ∷ admins) alerts (notes, count)).0
unfolding raise_alerts
raise_alerts-AreTold admin admins [] notes count = tt
raise_alerts-AreTold admin admins (alert ∷ alerts) notes count =
    elim (Bool-cases (alert_exists alert.transaction_id alert.key notes)) [
      | inl there ↦
          rw (there, raise_alerts)
            (
              raise_alerts-keeps alert.transaction_id alert.key (admin ∷ admins) alerts notes count
                  there,
              raise_alerts-AreTold admin admins alerts notes count,
            )
      | inr new ↦
          let told = tell_admins (admin ∷ admins) alert notes in
          rw (new, raise_alerts)
            (
              raise_alerts-keeps alert.transaction_id alert.key (admin ∷ admins) alerts told
                  (count + 1) (tell_admins-tells alert admin admins notes),
              raise_alerts-AreTold admin admins alerts told (count + 1),
            )
    ]

AreTold-silent :
    (admins : List ℕ) (alerts : List Alert) (notes : List Notification) (count : ℕ)
    → AreTold alerts notes
    → raise_alerts admins alerts (notes, count) ≡ (notes, count)
unfolding raise_alerts
AreTold-silent admins [] notes count h = refl
AreTold-silent admins (alert ∷ alerts) notes count h =
    let there = h.0 in rw (there, raise_alerts) (AreTold-silent admins alerts notes count h.1)

abbrev noted : Db → List Notification → Db
noted db notes = record db { notifications = notes }

alerts_on-noted :
    (db : Db) (notes : List Notification) (rows : List PayoutAttempt)
    → alerts_on (noted db notes) rows ≡ alerts_on db rows
unfolding alerts_on unknown_alert
alerts_on-noted db notes [] = refl
alerts_on-noted db notes (a ∷ rows) =
    ap (λ more. elim (unknown_alert db a) [ none ↦ more | some alert ↦ alert ∷ more ])
      (alerts_on-noted db notes rows)

-- What a run has seen: both lists of alerts against the notifications it leaves.
quiet_run :
    (env : Env) (minutes : ℕ) (db : Db)
    → AreTold (unknown_alerts env minutes db) db.notifications
    → AreTold (mismatch_alerts db.transactions) db.notifications
    → (s : Session) → reconcile env minutes db s ≡ (ok no_alerts, s)
unfolding reconcile commit_alerts
quiet_run env minutes db unknown mismatch s =
    let admins = admin_user_ids db.users in
    let first_loop =
      AreTold-silent admins (unknown_alerts env minutes db) db.notifications 0 unknown in
    let second_loop =
      AreTold-silent admins (mismatch_alerts db.transactions) db.notifications 0 mismatch in
    rw (first_loop, reconcile) (rw (second_loop, reconcile) refl)

after_commit :
    (env : Env) (minutes : ℕ) (db : Db) (notes : List Notification)
    → AreTold (unknown_alerts env minutes db) notes
    → AreTold (mismatch_alerts db.transactions) notes
    → (s : Session) → reconcile env minutes (noted db notes) s ≡ (ok no_alerts, s)
unfolding unknown_alerts
after_commit env minutes db notes unknown mismatch =
    let stuck = oldest_first (keep (is_stuck env.now minutes) db.payout_attempts) in
    quiet_run env minutes (noted db notes)
      (subst (λ alerts. AreTold alerts notes) (sym (alerts_on-noted db notes stuck)) unknown)
      mismatch

abbrev Settles : (m : Db → Action PayoutReconciliationResult) → Db → Type 0
Settles m db = let db' = (request (m db) db).1 in request (m db') db' ≡ (ok no_alerts, db')

both_zero :
    (result : PayoutReconciliationResult)
    → (result.unknown_alerts == 0 && result.mismatch_alerts == 0) ≡ true
    → result ≡ no_alerts
both_zero result h =
    let first_zero : result.unknown_alerts ≡ 0 = ground arith in
    let second_zero : result.mismatch_alerts ≡ 0 = ground arith in
    λ i. record { unknown_alerts = first_zero i; mismatch_alerts = second_zero i }

abbrev opened : Db → Session
opened db = record { committed = db; work = db }

commit-Settles :
    (m : Db → Action PayoutReconciliationResult) (db : Db) (notes : List Notification)
    (result : PayoutReconciliationResult)
    → m db ≡ commit_alerts notes result
    → ((s : Session) → m (noted db notes) s ≡ (ok no_alerts, s))
    → Settles m db
unfolding commit_alerts
commit-Settles m db notes result same again =
    let run = ap (λ act. request act db) same in
    elim (Bool-cases (result.unknown_alerts == 0 && result.mismatch_alerts == 0)) [
      | inl none_new ↦
          let ended : request (m db) db ≡ (ok result, db) =
            run ∙ rw (none_new, commit_alerts) refl in
          subst (λ x. request (m x) x ≡ (ok no_alerts, x)) (sym (ap (λ r. r.1) ended))
            (ended ∙ ap (λ r. (ok r, db)) (both_zero result none_new))
      | inr some_new ↦
          let ended : request (m db) db ≡ (ok result, noted db notes) =
            run ∙ rw (some_new, commit_alerts) refl in
          subst (λ x. request (m x) x ≡ (ok no_alerts, x)) (sym (ap (λ r. r.1) ended))
            (ap (λ r. (r.0, r.1.committed)) (again (opened (noted db notes))))
    ]

reconcile-Settles :
    (env : Env) (minutes admin : ℕ) (admins : List ℕ) (db : Db)
    → admin_user_ids db.users ≡ admin ∷ admins
    → Settles (reconcile env minutes) db
unfolding reconcile commit_alerts
reconcile-Settles env minutes admin admins db h =
    let us = admin_user_ids db.users in
    let unknown = unknown_alerts env minutes db in
    let mismatch = mismatch_alerts db.transactions in
    let one = raise_alerts us unknown (db.notifications, 0) in
    let two = raise_alerts us mismatch (one.0, 0) in
    let told : (bs : List ℕ) (alerts : List Alert) (ns : List Notification)
        → bs ≡ admin ∷ admins
        → AreTold alerts (raise_alerts bs alerts (ns, 0)).0 =
      λ bs alerts ns e. rw e (raise_alerts-AreTold admin admins alerts ns 0) in
    commit-Settles (reconcile env minutes) db two.0
      (record { unknown_alerts = one.1; mismatch_alerts = two.1 }) refl
      (after_commit env minutes db two.0
        (raised-AreTold us unknown mismatch one.0 0 (told us unknown db.notifications h))
        (told us mismatch one.0 h))

-- If there is an active administrator, the payout reconciliation run again at the same time on what
-- a run has left raises no alert and changes nothing.
pub reconciliation_settles :
    (env : Env) (minutes admin : ℕ) (admins : List ℕ) (db : Db)
    → admin_user_ids db.users ≡ admin ∷ admins
    → let db' = (request (run_payout_reconciliation env minutes) db).1 in
      request (run_payout_reconciliation env minutes) db' ≡ (ok no_alerts, db')
unfolding run_payout_reconciliation reconcile
reconciliation_settles env minutes admin admins db h = elim (Bool-cases env.outbox_ready) [
  | inl ready ↦
      rw (ready, run_payout_reconciliation) (reconcile-Settles env minutes admin admins db h)
  | inr off ↦ rw (off, run_payout_reconciliation) refl
]
