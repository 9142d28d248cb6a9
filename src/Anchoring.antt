-- ===== src/Anchoring.antt =====
-- The anchor log (app/services/anchoring): the canonical text of payloads, the hash chain over the
-- events of a transaction, and the Merkle trees over batches of events.
pub mod Merkle
pub mod Collision
pub mod Canonical
pub mod Chain
pub mod Tests
