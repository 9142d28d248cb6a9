-- ===== src/Accounts/Window.antt =====
-- The two limits that are kept in memory: _check_client_quota of app/services/phone_auth.py and
-- _check_login_rate_limit of app/services/auth.py. A bucket is a deque of times, oldest first; the
-- dictionary of buckets, which makes an empty one for a key that it lacks, is a function.
pub mod Ordered
pub mod Refine
pub mod Bound
use vekro_backend.Base.{
  ℕ, ◌+◌, ◌-◌, leb, ltb, Bool, List, [], ◌∷◌, ◌++◌, length, Text, text_eq, codes, if◌then◌else◌,
}

abbrev pub Bucket : Type 0
Bucket = List ℕ

abbrev pub Buckets : Type 0
Buckets = Text → Bucket

abbrev pub no_buckets : Buckets
no_buckets key = []

-- The rest of a dictionary stays as it is.
unfoldable pub put_bucket : Text → Bucket → Buckets → Buckets
put_bucket key bucket buckets other = if text_eq key other then bucket else buckets other

-- `while bucket and stale(bucket[0]): bucket.popleft()`
unfoldable pub expire : (ℕ → Bool) → Bucket → Bucket
expire stale [] = []
expire stale (t ∷ ts) = let rest = expire stale ts in if stale t then rest else t ∷ ts

-- What a call is told: to go on, or to wait that many seconds. `bucket[0]` of an empty bucket raises
-- IndexError, which takes a limit of 0.
pub data Verdict : Type 0 where
  admitted : Verdict
  retry_after : ℕ → Verdict
  index_error : Verdict

-- `max(int((bucket[0] + window - now).total_seconds()), 1)`
abbrev pub wait_for : ℕ → ℕ → Bucket → Verdict
wait_for window now [] = index_error
wait_for window now (t ∷ _) = retry_after (if leb (t + window - now) 1 then 1 else t + window - now)

-- The bucket that a call finds, cleared of what is stale, decides.
abbrev pub decide_call : ℕ → ℕ → ℕ → Bucket → Verdict × Bucket
decide_call limit window now live =
    if leb limit (length live)
    then (wait_for window now live, live)
    else (admitted, live ++ now ∷ [])

abbrev pub client_hourly_limit : ℕ
client_hourly_limit = 20

abbrev pub hour : ℕ
hour = 3600

-- `bucket[0] <= cutoff`, an hour back
abbrev pub is_hour_old : ℕ → ℕ → Bool
is_hour_old now t = leb (t + hour) now

-- `_check_client_quota`
unfoldable pub check_client_quota : Text → ℕ → Buckets → Verdict × Buckets
unfolding expire put_bucket
check_client_quota client_identifier current buckets =
    let r =
      decide_call client_hourly_limit hour current
        (expire (is_hour_old current) (buckets client_identifier)) in
    (r.0, put_bucket client_identifier r.1 buckets)

-- `bucket[0] < cutoff`, a window back
abbrev pub is_past : ℕ → ℕ → ℕ → Bool
is_past window now t = ltb (t + window) now

-- `f"{client_identifier}|{phone}"`
abbrev pub rate_limit_key : Text → Text → Text
rate_limit_key client_identifier phone = client_identifier ++ (codes "|" ++ phone)

-- `_check_login_rate_limit`, of the settings `login_rate_limit_max_attempts` and
-- `login_rate_limit_window_seconds`
unfoldable pub check_login_rate_limit : ℕ → ℕ → Text → Text → ℕ → Buckets → Verdict × Buckets
unfolding expire put_bucket
check_login_rate_limit max_attempts window client_identifier phone now buckets =
    let key = rate_limit_key client_identifier phone in
    let r = decide_call max_attempts window now (expire (is_past window now) (buckets key)) in
    (r.0, put_bucket key r.1 buckets)

-- `_clear_login_rate_limit`
unfoldable pub clear_login_rate_limit : Text → Text → Buckets → Buckets
unfolding put_bucket
clear_login_rate_limit client_identifier phone buckets =
    put_bucket (rate_limit_key client_identifier phone) [] buckets
