-- ===== src/Accounts/State.antt =====
-- The rows behind sign-in: app/models/phone_code.py, user_session.py and the columns of user.py that a
-- login reads or writes. Names of devices and their addresses are left out.
use vekro_backend.Base.{ℕ, Bool, Option, List, Text}
use vekro_backend.Model.Rows.{User}

-- `Purpose` of app/services/phone_auth.py
pub data CodePurpose : Type 0 where
  sign_in payout reset : CodePurpose

pub record PhoneCode : Type 0 where
  pub phone : Text
  pub purpose : CodePurpose
  pub code_hash : ℕ
  pub attempts : ℕ
  pub expires_at : ℕ
  pub consumed_at : Option ℕ
  pub locked_until : Option ℕ
  pub created_at : ℕ

pub record UserSession : Type 0 where
  pub id : ℕ
  pub user_id : ℕ
  pub session_token_hash : ℕ
  pub csrf_token_hash : ℕ
  pub expires_at : ℕ
  pub revoked_at : Option ℕ
  pub last_seen_at : Option ℕ

pub record Account : Type 0 where
  pub user : User
  pub password_hash : Text
  pub failed_login_attempts : ℕ
  pub locked_until : Option ℕ

pub record AccountDb : Type 0 where
  pub accounts : List Account
  -- newest first
  pub phone_codes : List PhoneCode
  pub sessions : List UserSession
  -- Stands for `uuid4`.
  pub next_id : ℕ

-- What a request reads from outside: the clock, the settings, the random codes and tokens, and the
-- hashes, which are library code: `hmac` is hash_session_token of app/core/security.py under the
-- secret key, the passwords are passlib's.
pub record AccountEnv : Type 0 where
  pub now : ℕ
  pub phone_code_ttl_seconds : ℕ
  pub phone_code_resend_seconds : ℕ
  pub phone_code_max_attempts : ℕ
  pub phone_code_lockout_seconds : ℕ
  pub phone_code_hourly_limit : ℕ
  pub login_rate_limit_max_attempts : ℕ
  pub login_rate_limit_window_seconds : ℕ
  pub login_lockout_max_attempts : ℕ
  pub login_lockout_seconds : ℕ
  pub session_cookie_max_age_seconds : ℕ
  pub random_code : Text
  pub session_token : Text
  pub csrf_token : Text
  pub random_password : Text
  pub hmac : Text → ℕ
  pub hash_password : Text → Text
  pub verify_password : Text → Text → Bool
  pub password_hash_needs_upgrade : Text → Bool
