-- ===== src/Accounts/Sessions.antt =====
-- Server-side sessions: create_session, resolve_active_session and invalidate_session of
-- app/services/auth.py, and the revocations of app/services/account_security.py. Each function gives
-- back the database as it is committed.
pub mod Revoked
use vekro_backend.Base.{
  ℕ, suc, ◌+◌, ◌==◌, leb, ltb, Bool, true, false, not, ◌&&◌, ◌||◌, Option, none, some, is_some,
  List, [], ◌∷◌, length, keep, first, any, map, Text, text_eq, if◌then◌else◌,
}
use vekro_backend.Accounts.State.{UserSession, Account, AccountDb, AccountEnv}

pub record AuthenticatedSession : Type 0 where
  pub account : Account
  pub session_token : Text
  pub csrf_token : Text
  pub expires_at : ℕ

pub record ActiveSessionContext : Type 0 where
  pub account : Account
  pub session : UserSession

abbrev pub has_token : ℕ → UserSession → Bool
has_token token_hash s = s.session_token_hash == token_hash

abbrev pub new_session : AccountEnv → ℕ → ℕ → UserSession
new_session env id user_id = record {
  id = id;
  user_id = user_id;
  session_token_hash = env.hmac env.session_token;
  csrf_token_hash = env.hmac env.csrf_token;
  expires_at = env.now + env.session_cookie_max_age_seconds;
  revoked_at = none;
  last_seen_at = some env.now;
}

abbrev pub session_for : AccountEnv → Account → AuthenticatedSession
session_for env account = record {
  account = account;
  session_token = env.session_token;
  csrf_token = env.csrf_token;
  expires_at = env.now + env.session_cookie_max_age_seconds;
}

abbrev pub add_session : AccountEnv → Account → AccountDb → AccountDb
add_session env account db = record db {
  sessions = new_session env db.next_id account.user.id ∷ db.sessions;
  next_id = suc db.next_id;
}

-- `create_session`, which commits; `none` is the IntegrityError of the unique column
-- `session_token_hash`.
unfoldable pub create_session :
    AccountEnv → Account → AccountDb → Option AuthenticatedSession × AccountDb
create_session env account db =
    if any (has_token (env.hmac env.session_token)) db.sessions
    then (none, db)
    else (some (session_for env account), add_session env account db)

abbrev pub has_user_id : ℕ → Account → Bool
has_user_id id a = a.user.id == id

abbrev pub has_session_id : ℕ → UserSession → Bool
has_session_id id s = s.id == id

-- A changed row in place of the one with its identifier.
abbrev pub write_session : UserSession → List UserSession → List UserSession
write_session new sessions = map (λ s. if s.id == new.id then new else s) sessions

abbrev pub save_session : UserSession → AccountDb → AccountDb
save_session s db = record db { sessions = write_session s db.sessions }

abbrev pub last_seen_every : ℕ
last_seen_every = 300

abbrev pub is_seen_lately : ℕ → Option ℕ → Bool
is_seen_lately now none = false
is_seen_lately now (some seen) = leb now (seen + last_seen_every)

-- The session is active; when it was last seen is written every few minutes.
abbrev pub note_seen :
    AccountEnv → UserSession → Account → AccountDb → Option ActiveSessionContext × AccountDb
note_seen env s account db =
    if is_seen_lately env.now s.last_seen_at
    then (some (record { account = account; session = s }), db)
    else (
      some (record { account = account; session = record s { last_seen_at = some env.now } }),
      save_session (record s { last_seen_at = some env.now }) db,
    )

unfoldable pub resolve_row :
    AccountEnv → UserSession → Account → AccountDb → Option ActiveSessionContext × AccountDb
resolve_row env s account db =
    if is_some s.revoked_at
    then (none, db)
    else if leb s.expires_at env.now
    then (none, save_session (record s { revoked_at = some env.now }) db)
    else if not account.user.is_active
    then (none, db)
    else note_seen env s account db

-- `resolve_active_session`; the join finds no row without the session or without its user.
unfoldable pub resolve_active_session :
    AccountEnv → Text → AccountDb → Option ActiveSessionContext × AccountDb
unfolding resolve_row
resolve_active_session env session_token db =
    elim (first (has_token (env.hmac session_token)) db.sessions) [
      | none ↦ (none, db)
      | some s ↦ elim (first (has_user_id s.user_id) db.accounts) [
        | none ↦ (none, db)
        | some account ↦ resolve_row env s account db
      ]
    ]

-- `invalidate_session`; an empty token is none.
unfoldable pub invalidate_session : AccountEnv → Text → AccountDb → Bool × AccountDb
invalidate_session env [] db = (false, db)
invalidate_session env (c ∷ cs) db = elim (first (has_token (env.hmac (c ∷ cs))) db.sessions) [
  | none ↦ (false, db)
  | some s ↦
      if is_some s.revoked_at
      then (false, db)
      else (true, save_session (record s { revoked_at = some env.now }) db)
]

-- `is_valid_csrf_for_session`
abbrev pub is_valid_csrf_for_session : AccountEnv → Text → UserSession → Bool
is_valid_csrf_for_session env csrf_token s = env.hmac csrf_token == s.csrf_token_hash

-- The sessions that `_revoke` ends: those of a user but the one that is kept.
abbrev pub is_revocable : ℕ → Option ℕ → UserSession → Bool
is_revocable user_id keep_id s =
    s.user_id == user_id
    && not (is_some s.revoked_at)
    && elim keep_id [ none ↦ true | some id ↦ not (s.id == id) ]

abbrev pub revoked_if : ℕ → ℕ → Option ℕ → UserSession → UserSession
revoked_if now user_id keep_id s =
    if is_revocable user_id keep_id s then record s { revoked_at = some now } else s

-- `_revoke`, with the number of rows
unfoldable pub revoke : ℕ → ℕ → Option ℕ → AccountDb → ℕ × AccountDb
revoke now user_id keep_id db = (
  length (keep (is_revocable user_id keep_id) db.sessions),
  record db { sessions = map (revoked_if now user_id keep_id) db.sessions },
)

-- The exceptions of app/services/account_security.py.
pub data RevokeError : Type 0 where
  current_session session_not_found : RevokeError

-- `revoke_session`
unfoldable pub revoke_session : AccountEnv → ℕ → ℕ → ℕ → AccountDb → Option RevokeError × AccountDb
revoke_session env user_id session_id current db =
    if session_id == current
    then (some current_session, db)
    else elim (first (has_session_id session_id) db.sessions) [
      | none ↦ (some session_not_found, db)
      | some s ↦
          if not (s.user_id == user_id) || is_some s.revoked_at
          then (some session_not_found, db)
          else (none, save_session (record s { revoked_at = some env.now }) db)
    ]

-- `revoke_other_sessions`
unfoldable pub revoke_other_sessions : AccountEnv → ℕ → ℕ → AccountDb → ℕ × AccountDb
unfolding revoke
revoke_other_sessions env user_id current db = revoke env.now user_id (some current) db
