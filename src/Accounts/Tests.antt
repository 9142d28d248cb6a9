-- ===== src/Accounts/Tests.antt =====
-- Small runs of the codes, the logins and the sessions.
use vekro_backend.Base.{
  ℕ, ◌+◌, ◌*◌, ◌≤◌, ◌≡◌, ◌≢◌, refl, arith, true, false, none, some, List, [], ◌∷◌, codes, text_eq,
  Text,
}
use vekro_backend.Model.Status.{UserRole}
use vekro_backend.Accounts.Window.{
  no_buckets, client_hourly_limit, expire, put_bucket, check_client_quota, check_login_rate_limit,
}
use vekro_backend.Accounts.Window.Refine.{
  Call, admitted_calls, window_calls, times_of, quota_refines,
}
use vekro_backend.Accounts.Window.Bound.{count_within, quota_bounds}
use vekro_backend.Accounts.State.{sign_in, reset, UserSession, Account, AccountDb, AccountEnv}
use vekro_backend.Accounts.Codes.{
  latest_code, write_latest, done, lock_left, resend_left, request_checked, request_phone_code,
  reject_code, try_code, consume_latest, consume_unlocked, consume_phone_code, code_hash, issued,
}
use vekro_backend.Accounts.Codes.Guesses.{CodeOp, asked, tried, perform, perform_all, count_chances}
use vekro_backend.Accounts.Codes.Laws.{guess_limit, issued_code_works, used_code_fails}
use vekro_backend.Accounts.Sessions.{
  ActiveSessionContext, resolve_row, resolve_active_session, create_session, session_for, revoke,
}
use vekro_backend.Accounts.Login.{
  locked_for, login_unlocked, open_login, login_found, authenticate_and_create_session,
  reset_password, register_failed_user_login,
}
use vekro_backend.Accounts.Login.Laws.{reset_signs_out, login_opens_session}
use vekro_backend.Accounts.Login.Lockout.{Try, lockout_bounds}
use vekro_backend.Accounts.Login.Lockout

abbrev caller : Text
caller = codes "c"

abbrev calls : List Call
calls = (caller, 10) ∷ (codes "d", 20) ∷ (caller, 3700) ∷ []

quota_refines_example : admitted_calls no_buckets calls ≡ window_calls [] calls
quota_refines_example = quota_refines calls (omega arith, (omega arith, (omega arith, tt)))

quota_bounds_example :
    count_within 0 (times_of caller (admitted_calls no_buckets calls)) ≤ client_hourly_limit
quota_bounds_example = quota_bounds calls caller 0 (omega arith, (omega arith, (omega arith, tt)))

both_admitted : times_of caller (admitted_calls no_buckets calls) ≡ 10 ∷ 3700 ∷ []
unfolding times_of admitted_calls check_client_quota expire put_bucket text_eq
both_admitted = refl

abbrev number_of : Text → ℕ
number_of [] = 0
number_of (c ∷ cs) = c + 256 * number_of cs

abbrev env_at : ℕ → AccountEnv
env_at now = record {
  now = now;
  phone_code_ttl_seconds = 300;
  phone_code_resend_seconds = 30;
  phone_code_max_attempts = 5;
  phone_code_lockout_seconds = 300;
  phone_code_hourly_limit = 5;
  login_rate_limit_max_attempts = 10;
  login_rate_limit_window_seconds = 60;
  login_lockout_max_attempts = 5;
  login_lockout_seconds = 900;
  session_cookie_max_age_seconds = 604800;
  random_code = codes "123456";
  session_token = codes "token";
  csrf_token = codes "csrf";
  random_password = codes "random";
  hmac = number_of;
  hash_password = λ password. password;
  verify_password = text_eq;
  password_hash_needs_upgrade = λ hash. false;
}

abbrev account_of : ℕ → Text → Account
account_of id phone = record {
  user = record {
    id = id;
    role = UserRole.buyer;
    phone = phone;
    mpesa_phone = none;
    is_active = true;
  };
  password_hash = codes "secret";
  failed_login_attempts = 0;
  locked_until = none;
}

abbrev mine : Text
mine = codes "0711"

abbrev other : Text
other = codes "0722"

abbrev open_session : UserSession
open_session = record {
  id = 50;
  user_id = 2;
  session_token_hash = number_of (codes "theirs");
  csrf_token_hash = 0;
  expires_at = 100000;
  revoked_at = none;
  last_seen_at = some 990;
}

abbrev accounts_db : AccountDb
accounts_db = record {
  accounts = account_of 1 mine ∷ account_of 2 other ∷ [];
  phone_codes = [];
  sessions = open_session ∷ [];
  next_id = 100;
}

abbrev wrong_tries : List CodeOp
wrong_tries =
    tried (env_at 1010) mine (codes "000000") sign_in
    ∷ asked (env_at 1015) other sign_in caller
    ∷ tried (env_at 1020) mine (codes "111111") sign_in
    ∷ []

guess_limit_example :
    count_chances mine sign_in
      (codes "123456")
      wrong_tries
      (perform (asked (env_at 1000) mine sign_in caller) (accounts_db, no_buckets))
    ≤ 5
unfolding request_phone_code request_checked check_client_quota latest_code lock_left resend_left
    expire put_bucket text_eq
guess_limit_example =
    guess_limit (env_at 1000) mine caller sign_in accounts_db no_buckets (issued (env_at 1000))
      (codes "123456") wrong_tries (omega arith) refl (refl, (refl, (refl, tt)))

two_chances :
    count_chances mine sign_in
      (codes "123456")
      wrong_tries
      (perform (asked (env_at 1000) mine sign_in caller) (accounts_db, no_buckets))
    ≡ 2
unfolding count_chances perform request_phone_code request_checked check_client_quota latest_code
    lock_left resend_left expire put_bucket text_eq consume_phone_code consume_unlocked
    consume_latest try_code reject_code write_latest
two_chances = refl

-- The sixth wrong try finds the code used up.
abbrev six_tries : List CodeOp
six_tries =
    let wrong : CodeOp = tried (env_at 1010) mine (codes "000000") sign_in in
    wrong ∷ wrong ∷ wrong ∷ wrong ∷ wrong ∷ wrong ∷ []

five_chances :
    count_chances mine sign_in
      (codes "123456")
      six_tries
      (perform (asked (env_at 1000) mine sign_in caller) (accounts_db, no_buckets))
    ≡ 5
unfolding count_chances perform request_phone_code request_checked check_client_quota latest_code
    lock_left resend_left expire put_bucket text_eq consume_phone_code consume_unlocked
    consume_latest try_code reject_code write_latest
five_chances = refl

issued_code_works_example :
    (consume_phone_code
      (env_at 1200)
      mine
      (codes "123456")
      sign_in
      (request_phone_code (env_at 1000) mine sign_in caller accounts_db no_buckets).1).0
    ≡ done tt
unfolding request_phone_code request_checked check_client_quota latest_code lock_left resend_left
    expire put_bucket text_eq
issued_code_works_example =
    issued_code_works (env_at 1000) (env_at 1200) mine caller sign_in accounts_db no_buckets
      (issued (env_at 1000)) refl (omega arith) refl

-- A database with one open code.
abbrev coded : Text → AccountDb
coded phone = record accounts_db {
  phone_codes =
      record {
        phone = phone;
        purpose = reset;
        code_hash = code_hash (env_at 1000) phone (codes "123456") reset;
        attempts = 0;
        expires_at = 1300;
        consumed_at = none;
        locked_until = none;
        created_at = 1000;
      }
      ∷ [];
}

used_code_fails_example :
    (consume_phone_code
      (env_at 1020)
      mine
      (codes "123456")
      reset
      (perform_all
        (asked (env_at 1015) other sign_in caller ∷ [])
        (perform (tried (env_at 1010) mine (codes "123456") reset) (coded mine, no_buckets))).0).0
    ≢ done tt
unfolding consume_phone_code consume_unlocked consume_latest try_code latest_code lock_left text_eq
used_code_fails_example =
    used_code_fails (env_at 1010) (env_at 1020) mine (codes "123456") (codes "123456") reset
      (coded mine) no_buckets 5 (asked (env_at 1015) other sign_in caller ∷ []) refl (refl, tt)

reset_signs_out_example : open_session.user_id ≢ (account_of 1 mine).user.id
unfolding reset_password consume_phone_code consume_unlocked consume_latest try_code latest_code
    lock_left text_eq revoke resolve_active_session resolve_row
reset_signs_out_example =
    reset_signs_out (env_at 1010) (env_at 1020) mine (codes "123456") (codes "new") (codes "theirs")
      (coded mine) (account_of 1 mine)
      (record { account = account_of 2 other; session = open_session }) refl refl refl

login_opens_session_example :
    ((ctx : ActiveSessionContext) × ((resolve_active_session
          (env_at 2000)
          (codes "token")
          (authenticate_and_create_session
            (env_at 1000)
            mine
            (codes "secret")
            caller
            accounts_db
            no_buckets).1).0
        ≡ some ctx)
      × (ctx.account ≡ account_of 1 mine))
    × (mine ≡ mine)
unfolding authenticate_and_create_session check_login_rate_limit expire put_bucket login_found
    login_unlocked open_login create_session locked_for text_eq
login_opens_session_example =
    login_opens_session (env_at 1000) (env_at 2000) mine (codes "secret") caller accounts_db
      no_buckets (session_for (env_at 1000) (account_of 1 mine)) refl (omega arith) refl

abbrev wrong_logins : List Try
wrong_logins = (env_at 1000, codes "a") ∷ (env_at 1100, codes "b") ∷ []

lockout_bounds_example : Lockout.count_chances mine (codes "secret") wrong_logins accounts_db ≤ 5
unfolding text_eq
lockout_bounds_example =
    lockout_bounds 1000 5 900 mine (codes "secret") wrong_logins (account_of 1 mine) accounts_db
      (omega arith) refl
      (refl, omega arith, omega arith, refl, refl, (refl, omega arith, omega arith, refl, refl, tt))

both_chances : Lockout.count_chances mine (codes "secret") wrong_logins accounts_db ≡ 2
unfolding Lockout.count_chances login_found login_unlocked open_login create_session
    register_failed_user_login locked_for text_eq
both_chances = refl
