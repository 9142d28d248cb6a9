-- ===== src/Escrow.antt =====
-- Money in escrow: the payout outbox, its executor (app/services/escrow_service.py) and the ledger
-- (app/services/ledger.py).
pub mod Outbox
pub mod Ledger
pub mod Split
pub mod Settlement
pub mod Executor
pub mod Reconciliation
pub mod Tests
