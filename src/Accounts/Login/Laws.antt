-- ===== src/Accounts/Login/Laws.antt =====
-- What signing in opens, and what a new password closes.
use vekro_backend.Base.{
  ◌+◌, ◌==◌, ◌<◌, ◌≡◌, ◌≢◌, refl, sym, ap, ◌∙◌, subst, arith, leb, eqb_refl, Bool, true, false,
  Bool-cases, Option-cases, inl, inr, not, Option, none, some, List, [], ◌∷◌, first, any, Text,
  text_eq, text_eq→eq, if◌then◌else◌,
}
use vekro_backend.Accounts.Window.{
  Buckets, Verdict, admitted, retry_after, index_error, check_login_rate_limit,
}
use vekro_backend.Accounts.State.{reset, UserSession, Account, AccountDb, AccountEnv}
use vekro_backend.Accounts.Codes.{CodeResult, done, failed, consume_phone_code}
use vekro_backend.Accounts.Sessions.{
  AuthenticatedSession, ActiveSessionContext, has_token, has_user_id, new_session, session_for,
  add_session, create_session, resolve_row, resolve_active_session, revoke, is_seen_lately,
}
use vekro_backend.Accounts.Sessions.Revoked.{revoked_stays_out}
use vekro_backend.Accounts.Login.{
  signed_in, refused, invalid_credentials, has_phone, write_account, save_account, locked_for,
  refreshed, open_login, login_unlocked, login_found, login_admitted,
  authenticate_and_create_session, reset_account, reset_found, reset_password,
  register_failed_user_login,
}

reset_by :
    (env : AccountEnv) (new_password : Text) (found : Option Account) (before : AccountDb)
    (r : CodeResult (Unit {0}) × AccountDb)
    → (reset_found env new_password found before r).0 ≡ none
    → (a : Account) × (found ≡ some a)
      × ((reset_found env new_password found before r).1
          ≡ (revoke env.now a.user.id none (save_account (reset_account env new_password a) r.1)).1)
reset_by env new_password found before (failed e, db) h = cc
reset_by env new_password none before (done _, db) h = cc
reset_by env new_password (some a) before (done _, db) h = (a, refl, refl)

-- After a password reset that succeeds, no token, old or guessed, opens a session of the account.
pub reset_signs_out :
    (env later : AccountEnv) (phone code new_password token : Text) (db : AccountDb) (a : Account)
    (ctx : ActiveSessionContext)
    → first (has_phone phone) db.accounts ≡ some a
    → (reset_password env phone code new_password db).0 ≡ none
    → (resolve_active_session later token (reset_password env phone code new_password db).1).0
      ≡ some ctx
    → ctx.session.user_id ≢ a.user.id
unfolding reset_password
reset_signs_out env later phone code new_password token db a ctx found ok_reset resolved same =
    let r = consume_phone_code env phone code reset db in
    let (b, owner, left) =
      reset_by env new_password (first (has_phone phone) db.accounts) db r ok_reset in
    let one : b ≡ a = cc in
    let whose : ctx.session.user_id ≡ b.user.id = same ∙ ap (λ x. x.user.id) (sym one) in
    let opened = subst (λ d. (resolve_active_session later token d).0 ≡ some ctx) left resolved in
    let kept : none ≡ some ctx.session.id =
      revoked_stays_out later env.now b.user.id none token
        (save_account (reset_account env new_password b) r.1) ctx opened whose in
    cc

written_account :
    (test : Account → Bool) (a new : Account) (accounts : List Account)
    → new.user.id ≡ a.user.id
    → first test accounts ≡ some a
    → first (has_user_id a.user.id) (write_account new accounts) ≡ some new
written_account test a new [] same h = cc
written_account test a new (x ∷ xs) same h = elim (Bool-cases (x.user.id == new.user.id)) [
  | inl here ↦
      let own : (new.user.id == a.user.id) ≡ true = ground (arith, same) in rw here (rw own refl)
  | inr apart ↦
      let other : (x.user.id == a.user.id) ≡ false = rw same at apart in
      rw apart (
        rw other (elim (Bool-cases (test x)) [
          | inr later ↦ written_account test a new xs same (rw later at h)
          | inl found ↦
              let e : some x ≡ some a = rw found at h in
              let one : x ≡ a = cc in
              let clash : (x.user.id == a.user.id) ≡ true =
                ap (λ y. y.user.id == a.user.id) one ∙ eqb_refl a.user.id in
              let no : false ≡ true = sym other ∙ clash in cc
        ]))
]

-- A session in the state that a login leaves.
abbrev Opens : AccountEnv → AuthenticatedSession → AccountDb → Type 0
Opens later s db =
    (ctx : ActiveSessionContext) × ((resolve_active_session later s.session_token db).0 ≡ some ctx)
    × (ctx.account ≡ s.account)

row_opens :
    (later : AccountEnv) (s : UserSession) (account : Account) (db : AccountDb)
    → s.revoked_at ≡ none
    → later.now < s.expires_at
    → account.user.is_active ≡ true
    → (ctx : ActiveSessionContext) × ((resolve_row later s account db).0 ≡ some ctx)
      × (ctx.account ≡ account)
unfolding resolve_row
row_opens later s account db fresh before active =
    let current : leb s.expires_at later.now ≡ false = ground arith in
    elim (Bool-cases (is_seen_lately later.now s.last_seen_at)) [
      | inl lately ↦ (
        record { account = account; session = s },
        rw (fresh, current, active, lately, resolve_row) refl,
        refl,
      )
      | inr long_ago ↦ (
        record { account = account; session = record s { last_seen_at = some later.now } },
        rw (fresh, current, active, long_ago, resolve_row) refl,
        refl,
      )
    ]

added-Opens :
    (env later : AccountEnv) (password : Text) (test : Account → Bool) (a : Account)
    (db : AccountDb)
    → first test db.accounts ≡ some a
    → a.user.is_active ≡ true
    → later.hmac ≡ env.hmac
    → later.now < env.now + env.session_cookie_max_age_seconds
    → let b = refreshed env password a in
      Opens later (session_for env b) (add_session env b (save_account b db))
unfolding resolve_active_session
added-Opens env later password test a db found active key before =
    let b = refreshed env password a in
    let after = add_session env b (save_account b db) in
    let s = new_session env db.next_id a.user.id in
    let own : (env.hmac env.session_token == later.hmac env.session_token) ≡ true =
      ap (λ hash. env.hmac env.session_token == hash env.session_token) key
      ∙ eqb_refl (env.hmac env.session_token) in
    let (ctx, row, whose) = row_opens later s b after refl before active in
    (
      ctx,
      rw (own, resolve_active_session)
          (rw (written_account test a b db.accounts refl found, resolve_active_session) row),
      whose,
    )

open_login-Opens :
    (env later : AccountEnv) (password : Text) (test : Account → Bool) (a : Account)
    (db : AccountDb) (s : AuthenticatedSession)
    → first test db.accounts ≡ some a
    → a.user.is_active ≡ true
    → later.hmac ≡ env.hmac
    → later.now < s.expires_at
    → (open_login env password a db).0 ≡ signed_in s
    → Opens later s (open_login env password a db).1 × (s.account.user ≡ a.user)
unfolding open_login create_session
open_login-Opens env later password test a db s found active key before h =
    elim (Bool-cases (any (has_token (env.hmac env.session_token)) db.sessions)) [
      | inl taken ↦ cc (rw (taken, open_login, create_session) at h)
      | inr free ↦
          let b = refreshed env password a in
          let e : signed_in (session_for env b) ≡ signed_in s =
            rw (free, open_login, create_session) at h in
          let one : session_for env b ≡ s = cc in
          let soon : later.now < env.now + env.session_cookie_max_age_seconds =
            subst (λ x. later.now < x.expires_at) (sym one) before in
          rw (free, open_login, create_session)
            (
              subst (λ x. Opens later x (add_session env b (save_account b db))) one
                  (added-Opens env later password test a db found active key soon),
              ap (λ x. x.account.user) (sym one),
            )
    ]

found_phone :
    (phone : Text) (accounts : List Account) (a : Account)
    → first (has_phone phone) accounts ≡ some a
    → a.user.phone ≡ phone
found_phone phone [] a h = cc
found_phone phone (x ∷ xs) a h = elim (Bool-cases (text_eq x.user.phone phone)) [
  | inr later ↦ found_phone phone xs a (rw later at h)
  | inl here ↦
      let e : some x ≡ some a = rw here at h in
      let one : x ≡ a = cc in ap (λ y. y.user.phone) (sym one) ∙ text_eq→eq x.user.phone phone here
]

login_goes_on :
    (env : AccountEnv) (password : Text) (a : Account) (db : AccountDb)
    → env.verify_password password a.password_hash ≡ true
    → a.user.is_active ≡ true
    → login_unlocked env password a db ≡ open_login env password a db
unfolding login_unlocked
login_goes_on env password a db right active =
    rw (right, login_unlocked)
      (ap (λ v. if not v then (refused invalid_credentials, db) else open_login env password a db)
        active)

found-Opens :
    (env later : AccountEnv) (phone password : Text) (o : Option Account) (db : AccountDb)
    (s : AuthenticatedSession)
    → first (has_phone phone) db.accounts ≡ o
    → later.hmac ≡ env.hmac
    → later.now < s.expires_at
    → (login_found env password o db).0 ≡ signed_in s
    → Opens later s (login_found env password o db).1 × (s.account.user.phone ≡ phone)
unfolding login_found login_unlocked register_failed_user_login
found-Opens env later phone password none db s found key before h = cc
found-Opens env later phone password (some a) db s found key before h =
    elim (Option-cases (locked_for env.now a)) [
      | inr (wait, locked) ↦ cc (rw (locked, login_found) at h)
      | inl free ↦ elim (Bool-cases (env.verify_password password a.password_hash)) [
        | inr wrong ↦ cc (rw (free, wrong, login_found, login_unlocked) at h)
        | inl right ↦ elim (Bool-cases a.user.is_active) [
          | inr gone ↦ cc (rw (free, right, gone, login_found, login_unlocked) at h)
          | inl active ↦
              let goes_on = login_goes_on env password a db right active in
              let e : (open_login env password a db).0 ≡ signed_in s =
                ap (λ r. r.0) (sym goes_on) ∙ (rw (free, login_found) at h) in
              let (opens, whose) =
                open_login-Opens env later password (has_phone phone) a db s found active key before
                  e in
              rw (free, login_found)
                (rw goes_on
                  (opens, ap (λ u. u.phone) whose ∙ found_phone phone db.accounts a found))
        ]
      ]
    ]

admitted-Opens :
    (env later : AccountEnv) (phone password client : Text) (db : AccountDb) (r : Verdict × Buckets)
    (s : AuthenticatedSession)
    → later.hmac ≡ env.hmac
    → later.now < s.expires_at
    → (login_admitted env phone password client db r).0 ≡ signed_in s
    → Opens later s (login_admitted env phone password client db r).1
      × (s.account.user.phone ≡ phone)
admitted-Opens env later phone password client db (admitted, b) s key before h =
    found-Opens env later phone password (first (has_phone phone) db.accounts) db s refl key before
      h
admitted-Opens env later phone password client db (retry_after n, b) s key before h = cc
admitted-Opens env later phone password client db (index_error, b) s key before h = cc

-- A login that succeeds gives a token that opens a session of the account of that phone until it
-- expires, on the database that the login left, under the same secret key.
pub login_opens_session :
    (env later : AccountEnv) (phone password client : Text) (db : AccountDb) (buckets : Buckets)
    (s : AuthenticatedSession)
    → later.hmac ≡ env.hmac
    → later.now < s.expires_at
    → (authenticate_and_create_session env phone password client db buckets).0 ≡ signed_in s
    → ((ctx : ActiveSessionContext) × ((resolve_active_session later s.session_token
            (authenticate_and_create_session env phone password client db buckets).1).0
          ≡ some ctx)
        × (ctx.account ≡ s.account))
      × (s.account.user.phone ≡ phone)
unfolding authenticate_and_create_session
login_opens_session env later phone password client db buckets s key before h =
    admitted-Opens env later phone password client db
      (check_login_rate_limit env.login_rate_limit_max_attempts env.login_rate_limit_window_seconds
        client phone env.now buckets)
      s key before h
