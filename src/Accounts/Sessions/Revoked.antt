-- ===== src/Accounts/Sessions/Revoked.antt =====
-- No revoked session is resolved.
use vekro_backend.Base.{
  ℕ, ◌≡◌, sym, ap, ◌∙◌, arith, leb, Bool, false, Bool-cases, Option-cases, inl, inr, not, Option,
  some, is_some, List, [], ◌∷◌, first, map, Text,
}
use vekro_backend.Accounts.State.{UserSession, Account, AccountDb, AccountEnv}
use vekro_backend.Accounts.Sessions.{
  ActiveSessionContext, has_token, has_user_id, resolve_row, resolve_active_session, revoked_if,
  revoke, is_seen_lately,
}

-- A session that is resolved was not revoked, and is what the context tells.
row_active :
    (env : AccountEnv) (s : UserSession) (account : Account) (db : AccountDb)
    (ctx : ActiveSessionContext)
    → (resolve_row env s account db).0 ≡ some ctx
    → (is_some s.revoked_at ≡ false)
      × (ctx.session.user_id ≡ s.user_id)
      × (ctx.session.id ≡ s.id)
      × (ctx.account ≡ account)
unfolding resolve_row
row_active env s account db ctx h = elim (Bool-cases (is_some s.revoked_at)) [
  | inl revoked ↦ cc (rw (revoked, resolve_row) at h)
  | inr active ↦ elim (Bool-cases (leb s.expires_at env.now)) [
    | inl expired ↦ cc (rw (active, expired, resolve_row) at h)
    | inr current ↦ elim (Bool-cases (not account.user.is_active)) [
      | inl gone ↦ cc (rw (active, current, gone, resolve_row) at h)
      | inr here ↦ elim (Bool-cases (is_seen_lately env.now s.last_seen_at)) [
        | inl lately ↦
            let e = rw (active, current, here, lately, resolve_row) at h in (active, cc, cc, cc)
        | inr long_ago ↦
            let e = rw (active, current, here, long_ago, resolve_row) at h in (active, cc, cc, cc)
      ]
    ]
  ]
]

pub resolved_row :
    (env : AccountEnv) (token : Text) (db : AccountDb) (ctx : ActiveSessionContext)
    → (resolve_active_session env token db).0 ≡ some ctx
    → (s : UserSession) × (first (has_token (env.hmac token)) db.sessions ≡ some s)
      × (is_some s.revoked_at ≡ false)
      × (ctx.session.user_id ≡ s.user_id)
      × (ctx.session.id ≡ s.id)
unfolding resolve_active_session
resolved_row env token db ctx h =
    elim (Option-cases (first (has_token (env.hmac token)) db.sessions)) [
      | inl missing ↦ cc (rw (missing, resolve_active_session) at h)
      | inr (s, found) ↦ elim (Option-cases (first (has_user_id s.user_id) db.accounts)) [
        | inl missing ↦ cc (rw (found, missing, resolve_active_session) at h)
        | inr (account, owner) ↦
            let row = rw (found, owner, resolve_active_session) at h in
            let (active, user, id, _) = row_active env s account db ctx row in
            (s, found, active, user, id)
      ]
    ]

first_mapped :
    (test : UserSession → Bool) (f : UserSession → UserSession) (xs : List UserSession)
    (y : UserSession)
    → first test (map f xs) ≡ some y
    → (x : UserSession) × (y ≡ f x)
first_mapped test f [] y h = cc
first_mapped test f (x ∷ xs) y h = elim (Bool-cases (test (f x))) [
  | inl here ↦ let e : some (f x) ≡ some y = rw here at h in (x, cc)
  | inr later ↦ first_mapped test f xs y (rw later at h)
]

survivor :
    (now user_id : ℕ) (keep_id : Option ℕ) (s : UserSession)
    → is_some (revoked_if now user_id keep_id s).revoked_at ≡ false
    → s.user_id ≡ user_id
    → keep_id ≡ some s.id
survivor now user_id keep_id s active same = ground arith

kept_fields :
    (now user_id : ℕ) (keep_id : Option ℕ) (s : UserSession)
    → ((revoked_if now user_id keep_id s).user_id ≡ s.user_id)
      × ((revoked_if now user_id keep_id s).id ≡ s.id)
kept_fields now user_id keep_id s = ground arith

-- Once a user's sessions are revoked, no token opens one of them, unless it is the one that was kept.
pub revoked_stays_out :
    (env : AccountEnv) (now user_id : ℕ) (keep_id : Option ℕ) (token : Text) (db : AccountDb)
    (ctx : ActiveSessionContext)
    → (resolve_active_session env token (revoke now user_id keep_id db).1).0 ≡ some ctx
    → ctx.session.user_id ≡ user_id
    → keep_id ≡ some ctx.session.id
unfolding revoke
revoked_stays_out env now user_id keep_id token db ctx h same =
    let (s, found, active, user, id) =
      resolved_row env token (revoke now user_id keep_id db).1 ctx h in
    let (x, image) =
      first_mapped (has_token (env.hmac token)) (revoked_if now user_id keep_id) db.sessions s
        found in
    let (own, name) = kept_fields now user_id keep_id x in
    let still : is_some (revoked_if now user_id keep_id x).revoked_at ≡ false =
      ap (λ z. is_some z.revoked_at) (sym image) ∙ active in
    let whose : x.user_id ≡ user_id = sym own ∙ ap (λ z. z.user_id) (sym image) ∙ sym user ∙ same in
    let named : x.id ≡ ctx.session.id = sym name ∙ ap (λ z. z.id) (sym image) ∙ sym id in
    survivor now user_id keep_id x still whose ∙ ap some named
