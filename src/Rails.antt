-- ===== src/Rails.antt =====
-- Payment rails: their health and circuit breaker (app/services/custody/rail_breaker.py,
-- app/models/rail_health.py), the routing over them (app/services/custody/registry.py) and the
-- collection callback of one of them (app/services/custody/loop_webhook.py).
pub mod Health
pub mod Breaker
pub mod Registry
pub mod Webhook
pub mod Tests
