-- ===== src/Accounts.antt =====
-- Accounts: the limits on codes and logins, phone codes, logins and the sessions of signed-in devices
-- (app/services/phone_auth.py, auth.py and account_security.py).
pub mod Window
pub mod State
pub mod Codes
pub mod Sessions
pub mod Login
pub mod Tests
