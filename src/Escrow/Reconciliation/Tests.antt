-- ===== src/Escrow/Reconciliation/Tests.antt =====
-- Runs of the payout reconciliation on an attempt that is open for hours and a released transaction
-- without a payout.
use vekro_backend.Base.{ℕ, ◌≡◌, refl, true, none, some, [], ◌∷◌, codes, length, lookup}
use vekro_backend.Model.Status.{UserRole, TransactionPayoutStatus}
use vekro_backend.Model.Db.{Db}
use vekro_backend.Session.{ok, request}
use vekro_backend.Escrow.Executor.{escrow_by_id}
use vekro_backend.Escrow.Executor.Tests.{test_env, outbox, attempt_to, sold}
use vekro_backend.Escrow.Reconciliation.{
  alert_exists, tell_admins, raise_alerts, admin_user_ids, place, oldest_first, unknown_alert,
  alerts_on, unknown_alerts, mismatch_alerts, no_alerts, commit_alerts, reconcile, has_key,
  run_payout_reconciliation,
}
use vekro_backend.Escrow.Reconciliation.Repeat.{reconciliation_settles}

abbrev neglected : Db
neglected = record (outbox (codes "0712345678")) {
  users =
      (
        9,
        record {
          id = 9;
          role = UserRole.admin;
          phone = codes "0700000000";
          mpesa_phone = none;
          is_active = true;
        },
      )
      ∷ [];
  transactions =
      (1, sold 1)
      ∷ (2, record (sold 2) { payout_status = TransactionPayoutStatus.not_required })
      ∷ [];
  payout_attempts =
      record (attempt_to 71 61 (codes "0712345678")) { provider_reference = some (codes "ref") }
      ∷ [];
}

abbrev alerted : ℕ
alerted = length (request (run_payout_reconciliation test_env 30) neglected).1.notifications

two_alerts : alerted ≡ 2
unfolding run_payout_reconciliation reconcile commit_alerts raise_alerts alert_exists tell_admins
    has_key admin_user_ids unknown_alerts alerts_on unknown_alert oldest_first place mismatch_alerts
    escrow_by_id lookup
two_alerts = refl

reconciliation_settles_example :
    let db' = (request (run_payout_reconciliation test_env 30) neglected).1 in
    request (run_payout_reconciliation test_env 30) db' ≡ (ok no_alerts, db')
unfolding admin_user_ids
reconciliation_settles_example = reconciliation_settles test_env 30 9 [] neglected refl
