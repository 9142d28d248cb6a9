-- ===== src/Accounts/Codes/Laws.antt =====
-- What a phone code is good for: as many tries as the settings allow, and one use.
use vekro_backend.Base.{
  ℕ, ◌+◌, ◌-◌, ◌==◌, ◌≤◌, ◌<◌, ◌≡◌, ◌≢◌, refl, ap, ◌∙◌, arith, leb, ltb, true, Bool-cases,
  Option-cases, inl, inr, Option, none, some, List, length, Text, text_eq_refl,
}
use vekro_backend.Accounts.Window.{
  Buckets, Verdict, admitted, retry_after, index_error, check_client_quota,
}
use vekro_backend.Accounts.State.{CodePurpose, PhoneCode, AccountDb, AccountEnv}
use vekro_backend.Accounts.Codes.{
  latest_code, lock_left, resend_left, done, IssuedCode, issue_code, issue_if, new_code,
  request_checked, request_phone_code, save_code, reject_code, try_code, is_open_code,
  consume_latest, consume_unlocked, consume_phone_code, code_hash, sent_this_hour, used_code,
  issued,
}
use vekro_backend.Accounts.Codes.Latest.{latest_phone, latest-written, same_purpose_refl}
use vekro_backend.Accounts.Codes.Others.{newest}
use vekro_backend.Accounts.Codes.Guesses.{
  CodeOp, asked, tried, perform, perform_all, count_chances, AllLeave, IsTriable, tries_left,
  all-Spends, unused_code,
}

issued_by :
    (env : AccountEnv) (phone : Text) (purpose : CodePurpose) (db : AccountDb)
    (r : Verdict × Buckets) (i : IssuedCode)
    → (issue_if env phone purpose db r).0 ≡ done i
    → (i ≡ issued env) × ((issue_if env phone purpose db r).1 ≡ issue_code env phone purpose db)
issued_by env phone purpose db (admitted, b) i h = (cc, refl)
issued_by env phone purpose db (retry_after n, b) i h = cc
issued_by env phone purpose db (index_error, b) i h = cc

-- A request that is answered with a code stored it.
request-issued :
    (env : AccountEnv) (phone client : Text) (purpose : CodePurpose) (db : AccountDb)
    (buckets : Buckets) (i : IssuedCode)
    → (request_phone_code env phone purpose client db buckets).0 ≡ done i
    → (i ≡ issued env)
      × ((request_phone_code env phone purpose client db buckets).1
          ≡ issue_code env phone purpose db)
unfolding request_phone_code request_checked
request-issued env phone client purpose db buckets i h =
    let o = newest phone purpose db in
    elim (Option-cases (lock_left env.now o)) [
      | inr (wait, locked) ↦ cc (rw (locked, request_phone_code) at h)
      | inl free ↦ elim (Option-cases (resend_left env o)) [
        | inr (wait, soon) ↦ cc (rw (free, soon, request_phone_code) at h)
        | inl later ↦
            elim (Bool-cases (
              leb env.phone_code_hourly_limit
                (length (sent_this_hour env.now phone db.phone_codes)))) [
                  | inl full ↦ cc (rw (free, later, full, request_phone_code, request_checked) at h)
                  | inr room ↦
                      rw (free, later, room, request_phone_code, request_checked)
                        (issued_by env phone purpose db (check_client_quota client env.now buckets)
                          i (rw (free, later, room, request_phone_code, request_checked) at h))
                ]
      ]
    ]

newest-issued :
    (env : AccountEnv) (phone : Text) (purpose : CodePurpose) (db : AccountDb)
    → newest phone purpose (issue_code env phone purpose db) ≡ some (new_code env phone purpose)
unfolding latest_code
newest-issued env phone purpose db =
    rw (text_eq_refl phone, same_purpose_refl purpose, latest_code) refl

newest-requested :
    (env : AccountEnv) (phone client : Text) (purpose : CodePurpose) (db : AccountDb)
    (buckets : Buckets) (i : IssuedCode)
    → (request_phone_code env phone purpose client db buckets).0 ≡ done i
    → newest phone purpose (request_phone_code env phone purpose client db buckets).1
      ≡ some (new_code env phone purpose)
newest-requested env phone client purpose db buckets i h =
    ap (newest phone purpose) (request-issued env phone client purpose db buckets i h).1
    ∙ newest-issued env phone purpose db

-- After a request that is answered with a code, a given text, the right code included, would be
-- accepted at no more than `phone_code_max_attempts` of the tries that follow for that phone and
-- purpose, if that setting is positive and the same at all tries: whatever these tries are, and
-- whatever is requested and tried between them, as long as no other code for that phone and purpose
-- is requested.
pub guess_limit :
    (env : AccountEnv) (phone client : Text) (purpose : CodePurpose) (db : AccountDb)
    (buckets : Buckets) (i : IssuedCode) (guess : Text) (ops : List CodeOp)
    → 0 < env.phone_code_max_attempts
    → (request_phone_code env phone purpose client db buckets).0 ≡ done i
    → AllLeave phone purpose env.phone_code_max_attempts ops
    → count_chances phone purpose guess ops (perform (asked env phone purpose client) (db, buckets))
      ≤ env.phone_code_max_attempts
unfolding perform
guess_limit env phone client purpose db buckets i guess ops positive h leave =
    let s = perform (asked env phone purpose client) (db, buckets) in
    let max = env.phone_code_max_attempts in
    let found = newest-requested env phone client purpose db buckets i h in
    let triable : IsTriable max (newest phone purpose s.0) = rw found (λ unused. positive) in
    let left : tries_left max (newest phone purpose s.0) ≡ max - 0 = ap (tries_left max) found in
    let spent = (all-Spends phone purpose guess max ops s leave triable).1 in omega arith

hash_matches : (a b : ℕ) → a ≡ b → (a == b) ≡ true
hash_matches a b h = ground arith

-- The code of a request is accepted before it expires, for the phone and purpose that it was
-- requested for, if the secret key is the same.
pub issued_code_works :
    (env later : AccountEnv) (phone client : Text) (purpose : CodePurpose) (db : AccountDb)
    (buckets : Buckets) (i : IssuedCode)
    → later.hmac ≡ env.hmac
    → later.now < i.expires_at
    → (request_phone_code env phone purpose client db buckets).0 ≡ done i
    → (consume_phone_code later phone i.code purpose
        (request_phone_code env phone purpose client db buckets).1).0
      ≡ done tt
unfolding consume_phone_code consume_unlocked lock_left consume_latest try_code
issued_code_works env later phone client purpose db buckets i key before h =
    let stored = (request_phone_code env phone purpose client db buckets).1 in
    let found = newest-requested env phone client purpose db buckets i h in
    let same = (request-issued env phone client purpose db buckets i h).0 in
    let fresh : ltb later.now (env.now + env.phone_code_ttl_seconds) ≡ true =
      ground (arith, ap (λ x. x.expires_at) same) in
    let matches : (code_hash later phone i.code purpose
          == code_hash env phone env.random_code purpose)
        ≡ true =
      hash_matches (code_hash later phone i.code purpose)
        (code_hash env phone env.random_code purpose)
        (λ j. code_hash (record env { hmac = key j }) phone (same j).code purpose) in
    rw (found, consume_phone_code) (rw (fresh, consume_latest) (rw (matches, try_code) refl))

accepted_code :
    (env : AccountEnv) (phone code : Text) (purpose : CodePurpose) (o : Option PhoneCode)
    (db : AccountDb)
    → (consume_unlocked env phone code purpose o db).0 ≡ done tt
    → (c : PhoneCode) × (o ≡ some c)
      × (c.consumed_at ≡ none)
      × ((consume_unlocked env phone code purpose o db).1 ≡ save_code (used_code env.now c) db)
unfolding consume_unlocked lock_left consume_latest try_code reject_code
accepted_code env phone code purpose none db h = cc
accepted_code env phone code purpose (some c) db h =
    elim (Option-cases (lock_left env.now (some c))) [
      | inr (wait, locked) ↦ cc (rw (locked, consume_unlocked) at h)
      | inl free ↦ elim (Bool-cases (is_open_code env.now c)) [
        | inr closed ↦ cc (rw (free, closed, consume_unlocked, consume_latest) at h)
        | inl ready ↦ elim (Bool-cases (code_hash env phone code purpose == c.code_hash)) [
          | inl right ↦ (
            c,
            refl,
            unused_code env.now c ready,
            rw (free, ready, right, consume_unlocked, consume_latest, try_code) refl,
          )
          | inr wrong ↦ elim (Bool-cases (leb env.phone_code_max_attempts (c.attempts + 1))) [
            | inl last ↦ cc (
                rw
                  (
                    free, ready, wrong, last, consume_unlocked, consume_latest, try_code,
                    reject_code,
                  )
                  at h)
            | inr more ↦ cc (
                rw
                  (
                    free, ready, wrong, more, consume_unlocked, consume_latest, try_code,
                    reject_code,
                  )
                  at h)
          ]
        ]
      ]
    ]

-- A code that was accepted is accepted no more: whatever requests and tries follow, at whatever time
-- and with whatever text, as long as no other code for that phone and purpose is requested and
-- `phone_code_max_attempts` is the same at all tries.
pub used_code_fails :
    (env later : AccountEnv) (phone code again : Text) (purpose : CodePurpose) (db : AccountDb)
    (buckets : Buckets) (max : ℕ) (ops : List CodeOp)
    → (consume_phone_code env phone code purpose db).0 ≡ done tt
    → AllLeave phone purpose max ops
    → (consume_phone_code later phone again purpose
        (perform_all ops (perform (tried env phone code purpose) (db, buckets))).0).0
      ≢ done tt
unfolding consume_phone_code perform
used_code_fails env later phone code again purpose db buckets max ops h leave accepted =
    let s = perform (tried env phone code purpose) (db, buckets) in
    let end = perform_all ops s in
    let (c, found, unused, saved) =
      accepted_code env phone code purpose (newest phone purpose db) db h in
    let (p, q) = latest_phone phone purpose db.phone_codes c found in
    let used : newest phone purpose s.0 ≡ some (used_code env.now c) =
      ap (newest phone purpose) saved
      ∙ latest-written phone purpose (used_code env.now c) db.phone_codes c p q found in
    let triable : IsTriable max (newest phone purpose s.0) = rw used (λ k. cc) in
    let left : tries_left max (newest phone purpose s.0) ≡ 0 = ap (tries_left max) used in
    let (still, spent) = all-Spends phone purpose again max ops s leave triable in
    let (d, open_again, unused_again, _) =
      accepted_code later phone again purpose (newest phone purpose end.0) end.0 accepted in
    let fewer : d.attempts < max = (rw open_again at still) unused_again in
    let more : tries_left max (newest phone purpose end.0) ≡ max - d.attempts =
      ap (tries_left max) open_again ∙ rw unused_again refl in
    omega arith
