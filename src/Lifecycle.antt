-- ===== src/Lifecycle.antt =====
-- The life of an escrow transaction (app/services/transaction.py, app/services/transitions.py,
-- app/services/dispute_escalation.py, app/services/dispute.py).
pub mod Notices
pub mod Transitions
pub mod Payment
pub mod Delivery
pub mod Returns
pub mod Resolution
pub mod Reconfirmation
pub mod Closure
pub mod Support
pub mod Deadlines
pub mod History
pub mod Moves
pub mod Effects
pub mod Story
pub mod Sweep
pub mod Requests
