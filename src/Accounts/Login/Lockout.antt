-- ===== src/Accounts/Login/Lockout.antt =====
-- How many chances to sign in there are on an account before it locks.
use vekro_backend.Base.{
  ℕ, ◌+◌, ◌-◌, ◌==◌, ◌≤◌, ◌<◌, ◌≡◌, refl, sym, ap, ◌∙◌, subst, arith, leb, eqb_refl, Bool, true,
  false, Bool-cases, Option-cases, inl, inr, Option, none, some, List, [], ◌∷◌, first, Text,
  text_eq, if◌then◌else◌,
}
use vekro_backend.Accounts.State.{Account, AccountDb, AccountEnv}
use vekro_backend.Accounts.Login.{
  has_phone, write_account, locked_for, login_unlocked, login_found, is_signed_in,
  register_failed_user_login,
}

-- A try: what the request reads and the password.
abbrev pub Try : Type 0
Try = AccountEnv × Text

unfoldable pub try_all : Text → List Try → AccountDb → AccountDb
unfolding login_found
try_all phone [] db = db
try_all phone ((env, password) ∷ tries) db =
    try_all phone tries (login_found env password (first (has_phone phone) db.accounts) db).1

-- Whether a password would sign in to the account of a phone.
abbrev pub signs_in : AccountEnv → Text → Text → AccountDb → Bool
signs_in env phone guess db =
    is_signed_in (login_found env guess (first (has_phone phone) db.accounts) db).0

-- How many of the tries are made while that password would sign in.
unfoldable pub count_chances : Text → Text → List Try → AccountDb → ℕ
unfolding login_found
count_chances phone guess [] db = 0
count_chances phone guess ((env, password) ∷ tries) db =
    (if signs_in env phone guess db then 1 else 0)
    + count_chances phone guess tries
        (login_found env password (first (has_phone phone) db.accounts) db).1

-- Wrong passwords, all within one lockout from the start, under the same settings.
abbrev pub AreWrong : ℕ → ℕ → ℕ → Text → List Try → Type 0
AreWrong start max seconds stored [] = Unit
AreWrong start max seconds stored ((env, password) ∷ tries) =
    (env.verify_password password stored ≡ false)
    × (start ≤ env.now)
    × (env.now < start + seconds)
    × (env.login_lockout_max_attempts ≡ max)
    × (env.login_lockout_seconds ≡ seconds)
    × AreWrong start max seconds stored tries

found_named :
    (phone : Text) (a : Account) (accounts : List Account)
    → first (has_phone phone) accounts ≡ some a
    → text_eq a.user.phone phone ≡ true
found_named phone a [] h = cc
found_named phone a (x ∷ xs) h = elim (Bool-cases (text_eq x.user.phone phone)) [
  | inl here ↦
      let e : some x ≡ some a = rw here at h in
      let one : x ≡ a = cc in ap (λ y. text_eq y.user.phone phone) (sym one) ∙ here
  | inr apart ↦ found_named phone a xs (rw apart at h)
]

saved_account :
    (phone : Text) (a new : Account) (accounts : List Account)
    → new.user ≡ a.user
    → text_eq new.user.phone phone ≡ true
    → first (has_phone phone) accounts ≡ some a
    → first (has_phone phone) (write_account new accounts) ≡ some new
saved_account phone a new [] same named h = cc
saved_account phone a new (x ∷ xs) same named h = elim (Bool-cases (x.user.id == new.user.id)) [
  | inl taken ↦ rw taken (rw named refl)
  | inr other ↦ rw other (elim (Bool-cases (text_eq x.user.phone phone)) [
    | inr apart ↦ rw apart (saved_account phone a new xs same named (rw apart at h))
    | inl here ↦
        let e : some x ≡ some a = rw here at h in
        let one : x ≡ a = cc in
        let id : (x.user.id == new.user.id) ≡ true =
          (λ i. (one i).user.id == (same i).id) ∙ eqb_refl a.user.id in
        let clash : false ≡ true = sym other ∙ id in cc
  ])
]

-- The tries that are left on an account until the end of a lockout that begins at the start.
abbrev room : ℕ → ℕ → ℕ
room max failed = if leb max (failed + 1) then 1 else max - failed

abbrev tries_left : ℕ → ℕ → ℕ → Option ℕ → ℕ → ℕ
tries_left start max seconds none failed = room max failed
tries_left start max seconds (some until) failed =
    if leb (start + seconds) until then 0 else room max failed

abbrev left_on : ℕ → ℕ → ℕ → Account → ℕ
left_on start max seconds a = tries_left start max seconds a.locked_until a.failed_login_attempts

some_left :
    (start max seconds now failed : ℕ) (o : Option ℕ)
    → now < start + seconds
    → elim o [ none ↦ true | some until ↦ leb until now ] ≡ true
    → room max failed ≡ tries_left start max seconds o failed
some_left start max seconds now failed none h free = refl
some_left start max seconds now failed (some until) h free = ground arith

fewer_left :
    (start max seconds failed : ℕ) (o : Option ℕ)
    → leb max (failed + 1) ≡ false
    → tries_left start max seconds o (failed + 1) + 1 ≤ room max failed
fewer_left start max seconds failed none h = ground arith
fewer_left start max seconds failed (some until) h = ground arith

-- A wrong password on an account that is found: the account stays, with its hash and fewer tries.
abbrev Missed : ℕ → ℕ → ℕ → Text → Account → ℕ → AccountDb → Type 0
Missed start max seconds phone a n after =
    (b : Account) × (first (has_phone phone) after.accounts ≡ some b)
    × (b.password_hash ≡ a.password_hash)
    × (left_on start max seconds b + n ≤ left_on start max seconds a)

free_until :
    (now : ℕ) (a : Account)
    → locked_for now a ≡ none
    → elim a.locked_until [ none ↦ true | some until ↦ leb until now ] ≡ true
unfolding locked_for
free_until now a h = ground arith

register-Missed :
    (env : AccountEnv) (start : ℕ) (phone : Text) (a : Account) (db : AccountDb)
    → first (has_phone phone) db.accounts ≡ some a
    → start ≤ env.now
    → env.now < start + env.login_lockout_seconds
    → locked_for env.now a ≡ none
    → Missed start env.login_lockout_max_attempts env.login_lockout_seconds phone a 1
        (register_failed_user_login env a db).1
unfolding register_failed_user_login
register-Missed env start phone a db found from until free =
    let max = env.login_lockout_max_attempts in
    let seconds = env.login_lockout_seconds in
    let failed = a.failed_login_attempts in
    let named = found_named phone a db.accounts found in
    let left =
      some_left start max seconds env.now failed a.locked_until until (free_until env.now a free) in
    elim (Bool-cases (leb max (failed + 1))) [
      | inl last ↦
          let locked : Account = record a {
            locked_until = some (env.now + seconds);
            failed_login_attempts = 0;
          } in
          let late : leb (start + seconds) (env.now + seconds) ≡ true = ground arith in
          let one : room max failed ≡ 1 = rw last refl in
          rw (last, register_failed_user_login)
            (
              locked,
              saved_account phone a locked db.accounts refl named found,
              refl,
              rw late (omega (arith, left, one)),
            )
      | inr more ↦
          let next : Account = record a { failed_login_attempts = failed + 1 } in
          let fewer = fewer_left start max seconds failed a.locked_until more in
          rw (more, register_failed_user_login)
            (
              next,
              saved_account phone a next db.accounts refl named found,
              refl,
              omega (arith, left, fewer),
            )
    ]

at_most_one : (b : Bool) → (if b then 1 else 0) ≤ 1
at_most_one b = ground arith

try-Missed :
    (env : AccountEnv) (start : ℕ) (phone password guess : Text) (a : Account) (db : AccountDb)
    → first (has_phone phone) db.accounts ≡ some a
    → env.verify_password password a.password_hash ≡ false
    → start ≤ env.now
    → env.now < start + env.login_lockout_seconds
    → Missed start env.login_lockout_max_attempts env.login_lockout_seconds phone a
        (if is_signed_in (login_found env guess (some a) db).0 then 1 else 0)
        (login_found env password (some a) db).1
unfolding login_found login_unlocked
try-Missed env start phone password guess a db found wrong from until =
    elim (Option-cases (locked_for env.now a)) [
      | inr (wait, locked) ↦ rw (locked, login_found) (a, found, refl, omega arith)
      | inl free ↦
          let (b, found', hash, fewer) =
            register-Missed env start phone a db found from until free in
          let one = at_most_one (is_signed_in (login_unlocked env guess a db).0) in
          rw (free, login_found)
            (rw (wrong, login_unlocked) (b, found', hash, omega (arith, fewer, one)))
    ]

all-tries :
    (start max seconds : ℕ) (phone guess : Text) (tries : List Try) (a : Account) (db : AccountDb)
    → first (has_phone phone) db.accounts ≡ some a
    → AreWrong start max seconds a.password_hash tries
    → count_chances phone guess tries db ≤ left_on start max seconds a
unfolding count_chances
all-tries start max seconds phone guess [] a db found wrong = omega arith
all-tries start max seconds phone guess ((env, password) ∷ tries) a db found
      (wrong, from, until, same_max, same_seconds, rest) =
    let n = if is_signed_in (login_found env guess (some a) db).0 then 1 else 0 in
    let after = (login_found env password (some a) db).1 in
    let (b, found', hash, fewer) =
      subst (λ m. Missed start m seconds phone a n after) same_max
        (subst (λ x. Missed start env.login_lockout_max_attempts x phone a n after) same_seconds
          (try-Missed env start phone password guess a db found wrong from
            (rw same_seconds until))) in
    let later =
      all-tries start max seconds phone guess tries b (login_found env password (some a) db).1
        found' (rw hash rest) in
    rw found (omega (arith, later, fewer))

few_left :
    (start max seconds failed : ℕ) (o : Option ℕ)
    → 0 < max
    → tries_left start max seconds o failed ≤ max
few_left start max seconds failed none h = ground arith
few_left start max seconds failed (some until) h = ground arith

-- Of any sequence of logins with wrong passwords for an account, sent within `login_lockout_seconds`
-- of a start under the same two settings, at most `login_lockout_max_attempts` are sent while a given
-- password, the right one included, would sign in, if that setting is positive.
pub lockout_bounds :
    (start max seconds : ℕ) (phone guess : Text) (tries : List Try) (a : Account) (db : AccountDb)
    → 0 < max
    → first (has_phone phone) db.accounts ≡ some a
    → AreWrong start max seconds a.password_hash tries
    → count_chances phone guess tries db ≤ max
lockout_bounds start max seconds phone guess tries a db positive found wrong =
    let all = all-tries start max seconds phone guess tries a db found wrong in
    let few = few_left start max seconds a.failed_login_attempts a.locked_until positive in
    omega (arith, all, few)
