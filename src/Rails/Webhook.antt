-- ===== src/Rails/Webhook.antt =====
-- The collection callback of the Loop rail: app/services/custody/loop_webhook.py.
pub mod Payload
pub mod Signature
pub mod Process
pub mod Repeated
pub mod Forged
pub mod Funding
pub mod First
pub mod Redaction
pub mod Tests
