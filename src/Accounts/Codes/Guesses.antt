-- ===== src/Accounts/Codes/Guesses.antt =====
-- What requests and tries do to the tries that a code has left.
use vekro_backend.Base.{
  ℕ, ◌+◌, ◌-◌, ◌==◌, ◌≤◌, ◌<◌, ◌≡◌, refl, subst, arith, leb, Bool, true, false, Bool-cases,
  Option-cases, inl, inr, ◌&&◌, Option, none, some, is_some, List, [], ◌∷◌, Text, text_eq,
  text_eq→eq, if◌then◌else◌,
}
use vekro_backend.Accounts.Window.{Buckets}
use vekro_backend.Accounts.State.{CodePurpose, PhoneCode, AccountDb, AccountEnv}
use vekro_backend.Accounts.Codes.{
  CodeResult, done, failed, same_purpose, lock_left, request_phone_code, reject_code, try_code,
  is_open_code, consume_latest, consume_unlocked, consume_phone_code, code_hash, used_code,
  missed_code, burnt_code,
}
use vekro_backend.Accounts.Codes.Latest.{latest_phone, latest-written, same_purpose→eq, both}
use vekro_backend.Accounts.Codes.Others.{is_for, newest, other_try-same, other_request-same}

-- A request for a code, by a client for a phone, or a try at one.
pub data CodeOp : Type 0 where
  asked : AccountEnv → Text → CodePurpose → Text → CodeOp
  tried : AccountEnv → Text → Text → CodePurpose → CodeOp

-- What an operation leaves behind, where a right code is committed as used.
unfoldable pub perform : CodeOp → AccountDb × Buckets → AccountDb × Buckets
unfolding request_phone_code consume_phone_code
perform (asked env phone purpose client) (db, buckets) =
    let r = request_phone_code env phone purpose client db buckets in (r.1, r.2)
perform (tried env phone code purpose) (db, buckets) =
    ((consume_phone_code env phone code purpose db).1, buckets)

unfoldable pub perform_all : List CodeOp → AccountDb × Buckets → AccountDb × Buckets
unfolding perform
perform_all [] s = s
perform_all (op ∷ ops) s = perform_all ops (perform op s)

abbrev pub is_done : {A : Type 0} → CodeResult A → Bool
is_done (done a) = true
is_done (failed e) = false

-- Whether an operation is a try for the phone and purpose at which that text would be accepted.
abbrev pub is_chance : Text → CodePurpose → Text → CodeOp → AccountDb → Bool
is_chance phone purpose guess (asked env other wanted client) db = false
is_chance phone purpose guess (tried env other code wanted) db =
    is_for phone purpose other wanted && is_done (consume_phone_code env other guess wanted db).0

-- How many of the operations are such tries.
unfoldable pub count_chances : Text → CodePurpose → Text → List CodeOp → AccountDb × Buckets → ℕ
unfolding perform consume_phone_code
count_chances phone purpose guess [] s = 0
count_chances phone purpose guess (op ∷ ops) s =
    (if is_chance phone purpose guess op s.0 then 1 else 0)
    + count_chances phone purpose guess ops (perform op s)

-- An operation that is no request for that phone and purpose, under that many allowed tries.
abbrev pub LeavesCode : Text → CodePurpose → ℕ → CodeOp → Type 0
LeavesCode phone purpose max (asked env other wanted client) =
    is_for phone purpose other wanted ≡ false
LeavesCode phone purpose max (tried env other code wanted) = env.phone_code_max_attempts ≡ max

abbrev pub AllLeave : Text → CodePurpose → ℕ → List CodeOp → Type 0
AllLeave phone purpose max [] = Unit
AllLeave phone purpose max (op ∷ ops) =
    LeavesCode phone purpose max op × AllLeave phone purpose max ops

-- A code that can still be tried has tries left.
abbrev pub IsTriable : ℕ → Option PhoneCode → Type 0
IsTriable max none = Unit
IsTriable max (some c) = c.consumed_at ≡ none → c.attempts < max

abbrev pub tries_left : ℕ → Option PhoneCode → ℕ
tries_left max none = 0
tries_left max (some c) = if is_some c.consumed_at then 0 else max - c.attempts

-- From one newest code to the next, with so many chances.
abbrev pub Spends : ℕ → Option PhoneCode → ℕ → Option PhoneCode → Type 0
Spends max before n after =
    IsTriable max before → IsTriable max after × (tries_left max after + n ≤ tries_left max before)

Spends-same : (max : ℕ) (o : Option PhoneCode) → Spends max o 0 o
Spends-same max o t = (t, omega arith)

not_consumed : (o : Option ℕ) → is_some o ≡ false → o ≡ none
not_consumed none h = refl
not_consumed (some x) h = cc

reject-Spends :
    (env : AccountEnv) (phone : Text) (purpose : CodePurpose) (c : PhoneCode) (db : AccountDb)
    → newest phone purpose db ≡ some c
    → c.consumed_at ≡ none
    → Spends env.phone_code_max_attempts (some c) 1 (newest phone purpose (reject_code env c db).1)
unfolding reject_code
reject-Spends env phone purpose c db found unused t =
    let (p, q) = latest_phone phone purpose db.phone_codes c found in
    let max = env.phone_code_max_attempts in
    let left = t unused in
    elim (Bool-cases (leb max (c.attempts + 1))) [
      | inl last ↦
          rw (last, reject_code)
            (rw (latest-written phone purpose (burnt_code env c) db.phone_codes c p q found)
              (λ used. cc, rw unused (omega arith)))
      | inr more ↦
          rw (more, reject_code)
            (rw (latest-written phone purpose (missed_code c) db.phone_codes c p q found)
              (λ used. ground arith, rw unused (ground arith)))
    ]

try-Spends :
    (env : AccountEnv) (phone code : Text) (purpose : CodePurpose) (c : PhoneCode) (db : AccountDb)
    → newest phone purpose db ≡ some c
    → c.consumed_at ≡ none
    → Spends env.phone_code_max_attempts
        (some c)
        1
        (newest phone purpose (try_code env phone code purpose c db).1)
unfolding try_code
try-Spends env phone code purpose c db found unused t =
    let (p, q) = latest_phone phone purpose db.phone_codes c found in
    let left = t unused in
    elim (Bool-cases (code_hash env phone code purpose == c.code_hash)) [
      | inl right ↦
          rw (right, try_code)
            (rw (latest-written phone purpose (used_code env.now c) db.phone_codes c p q found)
              (λ used. cc, rw unused (omega arith)))
      | inr wrong ↦ rw (wrong, try_code) (reject-Spends env phone purpose c db found unused t)
    ]

pub unused_code : (now : ℕ) (c : PhoneCode) → is_open_code now c ≡ true → c.consumed_at ≡ none
unused_code now c h = elim (Bool-cases (is_some c.consumed_at)) [
  | inl used ↦ let clash : false ≡ true = rw used at h in cc
  | inr unused ↦ not_consumed c.consumed_at unused
]

at_most_one : (b : Bool) → (if b then 1 else 0) ≤ 1
at_most_one b = ground arith

Spends-fewer :
    (max : ℕ) (before after : Option PhoneCode) (m n : ℕ)
    → m ≤ n
    → Spends max before n after
    → Spends max before m after
Spends-fewer max before after m n less spent t = let (t', h) = spent t in (t', omega arith)

-- A try, and whether another text would have been accepted in its place.
unlocked-Spends :
    (env : AccountEnv) (phone code guess : Text) (purpose : CodePurpose) (o : Option PhoneCode)
    (db : AccountDb)
    → newest phone purpose db ≡ o
    → Spends env.phone_code_max_attempts o
        (if is_done (consume_unlocked env phone guess purpose o db).0 then 1 else 0)
        (newest phone purpose (consume_unlocked env phone code purpose o db).1)
unfolding consume_unlocked consume_latest lock_left
unlocked-Spends env phone code guess purpose none db found =
    rw found (Spends-same env.phone_code_max_attempts none)
unlocked-Spends env phone code guess purpose (some c) db found =
    let max = env.phone_code_max_attempts in
    elim (Option-cases (lock_left env.now (some c))) [
      | inr (wait, locked) ↦ rw (locked, consume_unlocked) (rw found (Spends-same max (some c)))
      | inl free ↦ elim (Bool-cases (is_open_code env.now c)) [
        | inl ready ↦
            let accepted = is_done (try_code env phone guess purpose c db).0 in
            rw (free, consume_unlocked)
              (rw (ready, consume_latest)
                (Spends-fewer max (some c)
                  (newest phone purpose (try_code env phone code purpose c db).1)
                  (if accepted then 1 else 0) 1 (at_most_one accepted)
                  (try-Spends env phone code purpose c db found (unused_code env.now c ready))))
        | inr closed ↦
            rw (free, consume_unlocked)
              (rw (closed, consume_latest) (rw found (Spends-same max (some c))))
      ]
    ]

own_try-Spends :
    (env : AccountEnv) (phone other code guess : Text) (purpose wanted : CodePurpose)
    (db : AccountDb)
    → other ≡ phone
    → wanted ≡ purpose
    → Spends env.phone_code_max_attempts
        (newest phone purpose db)
        (if is_done (consume_phone_code env other guess wanted db).0 then 1 else 0)
        (newest phone purpose (consume_phone_code env other code wanted db).1)
unfolding consume_phone_code
own_try-Spends env phone other code guess purpose wanted db p q =
    let after = (consume_phone_code env other code wanted db).1 in
    let n = if is_done (consume_phone_code env other guess wanted db).0 then 1 else 0 in
    let max = env.phone_code_max_attempts in
    subst (λ x. Spends max (newest x purpose db) n (newest x purpose after)) p
      (subst (λ y. Spends max (newest other y db) n (newest other y after)) q
        (unlocked-Spends env other code guess wanted (newest other wanted db) db refl))

step-Spends :
    (phone : Text) (purpose : CodePurpose) (guess : Text) (max : ℕ) (op : CodeOp)
    (s : AccountDb × Buckets)
    → LeavesCode phone purpose max op
    → Spends max
        (newest phone purpose s.0)
        (if is_chance phone purpose guess op s.0 then 1 else 0)
        (newest phone purpose (perform op s).0)
unfolding perform consume_phone_code
step-Spends phone purpose guess max (asked env other wanted client) (db, b) h =
    rw (other_request-same env phone other client purpose wanted db b h)
      (Spends-same max (newest phone purpose db))
step-Spends phone purpose guess max (tried env other code wanted) (db, b) h =
    elim (Bool-cases (is_for phone purpose other wanted)) [
      | inr apart ↦ rw apart (
          rw
            (other_try-same env phone other code purpose wanted (newest other wanted db) db apart
              refl)
            (Spends-same max (newest phone purpose db)))
      | inl same ↦ rw same (
          subst
            (λ m.
              Spends m (newest phone purpose db)
                (if is_done (consume_phone_code env other guess wanted db).0 then 1 else 0)
                (newest phone purpose (consume_phone_code env other code wanted db).1))
            h
            (let (p, q) = both (text_eq other phone) (same_purpose wanted purpose) same in
              own_try-Spends env phone other code guess purpose wanted db (text_eq→eq other phone p)
                (same_purpose→eq wanted purpose q)))
    ]

pub all-Spends :
    (phone : Text) (purpose : CodePurpose) (guess : Text) (max : ℕ) (ops : List CodeOp)
    (s : AccountDb × Buckets)
    → AllLeave phone purpose max ops
    → Spends max
        (newest phone purpose s.0)
        (count_chances phone purpose guess ops s)
        (newest phone purpose (perform_all ops s).0)
unfolding perform_all count_chances
all-Spends phone purpose guess max [] s h t = (t, omega arith)
all-Spends phone purpose guess max (op ∷ ops) s h t =
    let (t1, first) = step-Spends phone purpose guess max op s h.0 t in
    let (t2, rest) = all-Spends phone purpose guess max ops (perform op s) h.1 t1 in
    (t2, omega arith)
