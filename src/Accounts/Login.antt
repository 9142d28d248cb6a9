-- ===== src/Accounts/Login.antt =====
-- Signing in: authenticate_and_create_session of app/services/auth.py, verify_phone_code of
-- app/services/phone_auth.py, and the passwords of app/services/account_security.py. Each function
-- gives back the database as it is committed. A name is left out.
pub mod Laws
pub mod Lockout
use vekro_backend.Base.{
  ℕ, suc, ◌+◌, ◌-◌, ◌==◌, leb, ltb, Bool, true, false, not, ◌&&◌, ◌||◌, Option, none, some, is_some,
  List, [], ◌∷◌, ◌++◌, first, map, Text, text_eq, if◌then◌else◌,
}
use vekro_backend.Model.Status.{UserRole, is_buyer}
use vekro_backend.Accounts.Window.{
  Buckets, Verdict, admitted, retry_after, index_error, check_login_rate_limit,
  clear_login_rate_limit,
}
use vekro_backend.Accounts.State.{CodePurpose, sign_in, reset, Account, AccountDb, AccountEnv}
use vekro_backend.Accounts.Codes.{
  CodeError, code_expired, not_buyer, CodeResult, done, failed, at_least_one, consume_phone_code,
}
use vekro_backend.Accounts.Sessions.{AuthenticatedSession, create_session, revoke}

-- The exceptions of a login.
pub data LoginError : Type 0 where
  too_many_login_attempts : ℕ → LoginError
  account_locked : ℕ → LoginError
  invalid_credentials : LoginError
  limit_broken token_taken : LoginError
  code_error : CodeError → LoginError

pub data LoginResult : Type 0 where
  signed_in : AuthenticatedSession → LoginResult
  refused : LoginError → LoginResult

abbrev pub has_phone : Text → Account → Bool
has_phone phone a = text_eq a.user.phone phone

abbrev pub write_account : Account → List Account → List Account
write_account new accounts = map (λ a. if a.user.id == new.user.id then new else a) accounts

abbrev pub save_account : Account → AccountDb → AccountDb
save_account a db = record db { accounts = write_account a db.accounts }

-- `_ensure_user_not_locked`; `none` lets the login go on.
unfoldable pub locked_for : ℕ → Account → Option ℕ
locked_for now a = elim a.locked_until [
  | none ↦ none
  | some until ↦ if leb until now then none else some (at_least_one (until - now))
]

-- `_register_failed_user_login`, which commits, and the exception of its caller.
unfoldable pub register_failed_user_login :
    AccountEnv → Account → AccountDb → LoginError × AccountDb
register_failed_user_login env a db =
    if leb env.login_lockout_max_attempts (a.failed_login_attempts + 1)
    then (
      account_locked env.login_lockout_seconds,
      save_account
          (record a {
            locked_until = some (env.now + env.login_lockout_seconds);
            failed_login_attempts = 0;
          })
          db,
    )
    else (
      invalid_credentials,
      save_account (record a { failed_login_attempts = a.failed_login_attempts + 1 }) db,
    )

-- `_reset_user_lockout_state` and the upgrade of an old hash.
abbrev pub refreshed : AccountEnv → Text → Account → Account
refreshed env password a = record a {
  failed_login_attempts = 0;
  locked_until = none;
  password_hash =
      if env.password_hash_needs_upgrade a.password_hash
      then env.hash_password password
      else a.password_hash;
}

-- The session is opened; without one nothing of the login is committed.
abbrev pub opened_or : AccountDb → Option AuthenticatedSession × AccountDb → LoginResult × AccountDb
opened_or db (none, _) = (refused token_taken, db)
opened_or db (some s, db') = (signed_in s, db')

unfoldable pub open_login : AccountEnv → Text → Account → AccountDb → LoginResult × AccountDb
unfolding create_session
open_login env password a db =
    opened_or db
      (create_session env (refreshed env password a) (save_account (refreshed env password a) db))

unfoldable pub login_unlocked : AccountEnv → Text → Account → AccountDb → LoginResult × AccountDb
unfolding register_failed_user_login open_login
login_unlocked env password a db =
    if not (env.verify_password password a.password_hash)
    then (let r = register_failed_user_login env a db in (refused r.0, r.1))
    else if not a.user.is_active
    then (refused invalid_credentials, db)
    else open_login env password a db

unfoldable pub login_found :
    AccountEnv → Text → Option Account → AccountDb → LoginResult × AccountDb
unfolding locked_for login_unlocked
login_found env password none db = (refused invalid_credentials, db)
login_found env password (some a) db = elim (locked_for env.now a) [
  | some wait ↦ (refused (account_locked wait), db)
  | none ↦ login_unlocked env password a db
]

abbrev pub is_signed_in : LoginResult → Bool
is_signed_in (signed_in _) = true
is_signed_in (refused _) = false

abbrev pub login_admitted :
    AccountEnv
    → Text
    → Text
    → Text
    → AccountDb
    → Verdict × Buckets
    → LoginResult × AccountDb × Buckets
login_admitted env phone password client db (admitted, buckets) =
    let r = login_found env password (first (has_phone phone) db.accounts) db in
    (r.0, r.1, if is_signed_in r.0 then clear_login_rate_limit client phone buckets else buckets)
login_admitted env phone password client db (retry_after wait, buckets) =
    (refused (too_many_login_attempts wait), db, buckets)
login_admitted env phone password client db (index_error, buckets) =
    (refused limit_broken, db, buckets)

-- `authenticate_and_create_session`
unfoldable pub authenticate_and_create_session :
    AccountEnv → Text → Text → Text → AccountDb → Buckets → LoginResult × AccountDb × Buckets
unfolding check_login_rate_limit login_found
authenticate_and_create_session env phone password client db buckets =
    login_admitted env phone password client db (
      check_login_rate_limit env.login_rate_limit_max_attempts env.login_rate_limit_window_seconds
        client phone env.now buckets)

-- A buyer that is new to the phone: no password but an unusable random one.
abbrev pub new_buyer : AccountEnv → ℕ → Text → Account
new_buyer env id phone = record {
  user = record {
    id = id;
    role = UserRole.buyer;
    phone = phone;
    mpesa_phone = none;
    is_active = true;
  };
  password_hash = env.hash_password env.random_password;
  failed_login_attempts = 0;
  locked_until = none;
}

-- Behind a right code: a seller, an admin and an inactive account roll its use back.
unfoldable pub open_by_code :
    AccountEnv → Text → Option Account → AccountDb → AccountDb → LoginResult × AccountDb
unfolding create_session
open_by_code env phone none before db = opened_or before (
    create_session env (new_buyer env db.next_id phone) (record db {
      accounts = new_buyer env db.next_id phone ∷ db.accounts;
      next_id = suc db.next_id;
    }))
open_by_code env phone (some a) before db =
    if not (is_buyer a.user.role)
    then (refused (code_error not_buyer), before)
    else if not a.user.is_active
    then (refused (code_error code_expired), before)
    else opened_or before (create_session env a db)

abbrev pub after_code :
    AccountEnv
    → Text
    → Option Account
    → AccountDb
    → CodeResult (Unit {0}) × AccountDb
    → LoginResult × AccountDb
after_code env phone found before (failed e, db) = (refused (code_error e), db)
after_code env phone found before (done _, db) = open_by_code env phone found before db

-- `verify_phone_code`
unfoldable pub verify_phone_code : AccountEnv → Text → Text → AccountDb → LoginResult × AccountDb
unfolding consume_phone_code open_by_code
verify_phone_code env phone code db =
    after_code env phone (first (has_phone phone) db.accounts) db
      (consume_phone_code env phone code sign_in db)

abbrev pub with_password : AccountEnv → Text → Account → Account
with_password env new_password a = record a { password_hash = env.hash_password new_password }

-- `change_password`; `none` is WrongPasswordError.
unfoldable pub change_password :
    AccountEnv → Account → Text → Text → ℕ → AccountDb → Option ℕ × AccountDb
unfolding revoke
change_password env a current_password new_password keep_session db =
    if not (env.verify_password current_password a.password_hash)
    then (none, db)
    else let r =
        revoke env.now a.user.id (some keep_session)
          (save_account (with_password env new_password a) db) in
      (some r.0, r.1)

abbrev pub reset_account : AccountEnv → Text → Account → Account
reset_account env new_password a = record a {
  password_hash = env.hash_password new_password;
  failed_login_attempts = 0;
  locked_until = none;
}

abbrev pub reset_found :
    AccountEnv
    → Text
    → Option Account
    → AccountDb
    → CodeResult (Unit {0}) × AccountDb
    → Option CodeError × AccountDb
reset_found env new_password found before (failed e, db) = (some e, db)
reset_found env new_password none before (done _, db) = (some code_expired, before)
reset_found env new_password (some a) before (done _, db) =
    (none, (revoke env.now a.user.id none (save_account (reset_account env new_password a) db)).1)

-- `reset_password`; `none` is success.
unfoldable pub reset_password :
    AccountEnv → Text → Text → Text → AccountDb → Option CodeError × AccountDb
unfolding consume_phone_code revoke
reset_password env phone code new_password db =
    reset_found env new_password (first (has_phone phone) db.accounts) db
      (consume_phone_code env phone code reset db)
