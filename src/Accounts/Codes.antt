-- ===== src/Accounts/Codes.antt =====
-- One-time codes by SMS: request_phone_code and consume_phone_code of app/services/phone_auth.py. The
-- job that sends the message is left out. A function gives back the database as it leaves it; where
-- consume_phone_code commits or not is said below.
pub mod Latest
pub mod Others
pub mod Guesses
pub mod Laws
use vekro_backend.Base.{
  ℕ, ◌+◌, ◌-◌, ◌==◌, leb, ltb, Bool, true, false, not, ◌&&◌, ◌||◌, Option, none, some, List, [],
  ◌∷◌, ◌++◌, length, keep, first, map, codes, Text, text_eq, is_some, if◌then◌else◌,
}
use vekro_backend.Accounts.Window.{
  Buckets, Verdict, admitted, retry_after, index_error, check_client_quota, hour, is_hour_old,
}
use vekro_backend.Accounts.State.{
  CodePurpose, sign_in, payout, reset, PhoneCode, AccountDb, AccountEnv,
}

abbrev pub same_purpose : CodePurpose → CodePurpose → Bool
same_purpose sign_in sign_in = true
same_purpose payout payout = true
same_purpose reset reset = true
same_purpose _ _ = false

abbrev pub purpose_text : CodePurpose → Text
purpose_text sign_in = codes "sign_in"
purpose_text payout = codes "payout"
purpose_text reset = codes "reset"

-- `f"{purpose}:{phone}:{code}"`
abbrev pub code_text : Text → Text → CodePurpose → Text
code_text phone code purpose = purpose_text purpose ++ (codes ":" ++ (phone ++ (codes ":" ++ code)))

-- `_code_hash`
abbrev pub code_hash : AccountEnv → Text → Text → CodePurpose → ℕ
code_hash env phone code purpose = env.hmac (code_text phone code purpose)

abbrev pub is_code_for : Text → CodePurpose → PhoneCode → Bool
is_code_for phone purpose c = text_eq c.phone phone && same_purpose c.purpose purpose

-- `_latest_code`
unfoldable pub latest_code : Text → CodePurpose → List PhoneCode → Option PhoneCode
latest_code phone purpose [] = none
latest_code phone purpose (c ∷ cs) =
    let rest = latest_code phone purpose cs in if is_code_for phone purpose c then some c else rest

-- A changed row in place of the newest of its phone and purpose.
unfoldable pub write_latest : PhoneCode → List PhoneCode → List PhoneCode
write_latest new [] = []
write_latest new (c ∷ cs) =
    let rest = write_latest new cs in
    if is_code_for new.phone new.purpose c then new ∷ cs else c ∷ rest

abbrev pub at_least_one : ℕ → ℕ
at_least_one n = if leb n 1 then 1 else n

-- The exceptions of app/services/phone_auth.py.
pub data CodeError : Type 0 where
  rate_limited : ℕ → CodeError
  invalid_code : ℕ → CodeError
  code_expired : CodeError
  not_buyer : CodeError
  quota_broken : CodeError

pub data CodeResult {ℓ} (A : Type ℓ) : Type ℓ where
  done : A → CodeResult A
  failed : CodeError → CodeResult A

pub record IssuedCode : Type 0 where
  pub expires_at : ℕ
  pub resend_after_seconds : ℕ
  pub code : Text

-- How long a code holds up the next one: while it locks the phone, and shortly after it was sent.
unfoldable pub lock_left : ℕ → Option PhoneCode → Option ℕ
lock_left now none = none
lock_left now (some c) = elim c.locked_until [
  | none ↦ none
  | some until ↦ if ltb now until then some (until - now) else none
]

unfoldable pub resend_left : AccountEnv → Option PhoneCode → Option ℕ
resend_left env none = none
resend_left env (some c) = elim c.consumed_at [
  | some _ ↦ none
  | none ↦
      if ltb env.now (c.created_at + env.phone_code_resend_seconds)
      then some (c.created_at + env.phone_code_resend_seconds - env.now)
      else none
]

-- The codes that were sent to the phone within the hour, whatever their purpose.
abbrev pub sent_this_hour : ℕ → Text → List PhoneCode → List PhoneCode
sent_this_hour now phone cs =
    keep (λ c. text_eq c.phone phone && not (is_hour_old now c.created_at)) cs

-- `func.min(PhoneCode.created_at)`
abbrev pub min_created : PhoneCode → List PhoneCode → ℕ
min_created c [] = c.created_at
min_created c (d ∷ ds) =
    let rest = min_created d ds in if leb c.created_at rest then c.created_at else rest

-- `min` of no rows is none, whose arithmetic raises TypeError; the positive limit rules that out.
abbrev pub hourly_wait : ℕ → List PhoneCode → CodeError
hourly_wait now [] = quota_broken
hourly_wait now (c ∷ cs) = rate_limited (at_least_one (min_created c cs + hour - now))

-- A new code replaces any earlier one that is still unused.
abbrev pub replaced : ℕ → Text → CodePurpose → PhoneCode → PhoneCode
replaced now phone purpose c =
    if is_code_for phone purpose c && not (is_some c.consumed_at)
    then record c { consumed_at = some now }
    else c

abbrev pub new_code : AccountEnv → Text → CodePurpose → PhoneCode
new_code env phone purpose = record {
  phone = phone;
  purpose = purpose;
  code_hash = code_hash env phone env.random_code purpose;
  attempts = 0;
  expires_at = env.now + env.phone_code_ttl_seconds;
  consumed_at = none;
  locked_until = none;
  created_at = env.now;
}

abbrev pub issue_code : AccountEnv → Text → CodePurpose → AccountDb → AccountDb
issue_code env phone purpose db = record db {
  phone_codes = new_code env phone purpose ∷ map (replaced env.now phone purpose) db.phone_codes;
}

abbrev pub issued : AccountEnv → IssuedCode
issued env = record {
  expires_at = env.now + env.phone_code_ttl_seconds;
  resend_after_seconds = env.phone_code_resend_seconds;
  code = env.random_code;
}

-- The part behind the client's quota.
abbrev pub issue_if :
    AccountEnv
    → Text
    → CodePurpose
    → AccountDb
    → Verdict × Buckets
    → CodeResult IssuedCode × AccountDb × Buckets
issue_if env phone purpose db (admitted, buckets) =
    (done (issued env), issue_code env phone purpose db, buckets)
issue_if env phone purpose db (retry_after wait, buckets) =
    (failed (rate_limited wait), db, buckets)
issue_if env phone purpose db (index_error, buckets) = (failed quota_broken, db, buckets)

unfoldable pub request_checked :
    AccountEnv
    → Text
    → CodePurpose
    → Text
    → AccountDb
    → Buckets
    → CodeResult IssuedCode × AccountDb × Buckets
unfolding check_client_quota
request_checked env phone purpose client db buckets =
    if leb env.phone_code_hourly_limit (length (sent_this_hour env.now phone db.phone_codes))
    then (failed (hourly_wait env.now (sent_this_hour env.now phone db.phone_codes)), db, buckets)
    else issue_if env phone purpose db (check_client_quota client env.now buckets)

-- `request_phone_code`, which commits the new code.
unfoldable pub request_phone_code :
    AccountEnv
    → Text
    → CodePurpose
    → Text
    → AccountDb
    → Buckets
    → CodeResult IssuedCode × AccountDb × Buckets
unfolding latest_code lock_left resend_left request_checked
request_phone_code env phone purpose client db buckets =
    let latest = latest_code phone purpose db.phone_codes in
    elim (lock_left env.now latest) [
      | some wait ↦ (failed (rate_limited (at_least_one wait)), db, buckets)
      | none ↦ elim (resend_left env latest) [
        | some wait ↦ (failed (rate_limited (at_least_one wait)), db, buckets)
        | none ↦ request_checked env phone purpose client db buckets
      ]
    ]

abbrev pub save_code : PhoneCode → AccountDb → AccountDb
save_code c db = record db { phone_codes = write_latest c db.phone_codes }

abbrev pub used_code : ℕ → PhoneCode → PhoneCode
used_code now c = record c { consumed_at = some now }

abbrev pub missed_code : PhoneCode → PhoneCode
missed_code c = record c { attempts = c.attempts + 1 }

abbrev pub burnt_code : AccountEnv → PhoneCode → PhoneCode
burnt_code env c = record c {
  attempts = c.attempts + 1;
  consumed_at = some env.now;
  locked_until = some (env.now + env.phone_code_lockout_seconds);
}

-- A wrong try is committed; the last one burns the code and locks the phone.
unfoldable pub reject_code : AccountEnv → PhoneCode → AccountDb → CodeResult (Unit {0}) × AccountDb
unfolding write_latest
reject_code env c db =
    if leb env.phone_code_max_attempts (c.attempts + 1)
    then (
      failed (rate_limited (at_least_one env.phone_code_lockout_seconds)),
      save_code (burnt_code env c) db,
    )
    else (
      failed (invalid_code (env.phone_code_max_attempts - (c.attempts + 1))),
      save_code (missed_code c) db,
    )

-- A code that is found and open; the right one is used up, which is left to the caller to commit.
unfoldable pub try_code :
    AccountEnv
    → Text
    → Text
    → CodePurpose
    → PhoneCode
    → AccountDb
    → CodeResult (Unit {0}) × AccountDb
unfolding reject_code write_latest
try_code env phone code purpose c db =
    if code_hash env phone code purpose == c.code_hash
    then (done tt, save_code (used_code env.now c) db)
    else reject_code env c db

abbrev pub is_open_code : ℕ → PhoneCode → Bool
is_open_code now c = not (is_some c.consumed_at) && ltb now c.expires_at

unfoldable pub consume_latest :
    AccountEnv
    → Text
    → Text
    → CodePurpose
    → Option PhoneCode
    → AccountDb
    → CodeResult (Unit {0}) × AccountDb
unfolding try_code
consume_latest env phone code purpose none db = (failed code_expired, db)
consume_latest env phone code purpose (some c) db =
    if is_open_code env.now c
    then try_code env phone code purpose c db
    else (failed code_expired, db)

-- A code that locks the phone is no more compared.
unfoldable pub consume_unlocked :
    AccountEnv
    → Text
    → Text
    → CodePurpose
    → Option PhoneCode
    → AccountDb
    → CodeResult (Unit {0}) × AccountDb
unfolding lock_left consume_latest
consume_unlocked env phone code purpose latest db = elim (lock_left env.now latest) [
  | some wait ↦ (failed (rate_limited (at_least_one wait)), db)
  | none ↦ consume_latest env phone code purpose latest db
]

-- `consume_phone_code`
unfoldable pub consume_phone_code :
    AccountEnv → Text → Text → CodePurpose → AccountDb → CodeResult (Unit {0}) × AccountDb
unfolding latest_code consume_unlocked
consume_phone_code env phone code purpose db =
    consume_unlocked env phone code purpose (latest_code phone purpose db.phone_codes) db
