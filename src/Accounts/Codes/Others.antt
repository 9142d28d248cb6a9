-- ===== src/Accounts/Codes/Others.antt =====
-- Requests and tries for another phone or purpose leave the newest code alone.
use vekro_backend.Base.{
  ◌+◌, ◌==◌, ◌≡◌, refl, ◌∙◌, leb, Bool, false, Bool-cases, Option-cases, inl, inr, ◌&&◌, Option,
  none, some, length, Text, text_eq,
}
use vekro_backend.Accounts.Window.{
  Buckets, Verdict, admitted, retry_after, index_error, check_client_quota,
}
use vekro_backend.Accounts.State.{CodePurpose, PhoneCode, AccountDb, AccountEnv}
use vekro_backend.Accounts.Codes.{
  same_purpose, latest_code, lock_left, resend_left, CodeResult, IssuedCode, issue_code, issue_if,
  request_checked, request_phone_code, save_code, reject_code, try_code, is_open_code,
  consume_latest, consume_unlocked, code_hash, sent_this_hour, used_code, missed_code, burnt_code,
}
use vekro_backend.Accounts.Codes.Latest.{latest_phone, latest-written_other, latest-replaced}

abbrev pub is_for : Text → CodePurpose → Text → CodePurpose → Bool
is_for phone purpose other wanted = text_eq other phone && same_purpose wanted purpose

abbrev pub newest : Text → CodePurpose → AccountDb → Option PhoneCode
newest phone purpose db = latest_code phone purpose db.phone_codes

-- A write for another phone or purpose.
saved_other :
    (phone other : Text) (purpose wanted : CodePurpose) (c new : PhoneCode) (db : AccountDb)
    → is_for phone purpose other wanted ≡ false
    → newest other wanted db ≡ some c
    → new.phone ≡ c.phone
    → new.purpose ≡ c.purpose
    → newest phone purpose (save_code new db) ≡ newest phone purpose db
saved_other phone other purpose wanted c new db h found p q =
    let (cp, cq) = latest_phone other wanted db.phone_codes c found in
    latest-written_other phone purpose new db.phone_codes (rw (p ∙ cp, q ∙ cq) h)

pub other_try-same :
    (env : AccountEnv) (phone other code : Text) (purpose wanted : CodePurpose)
    (o : Option PhoneCode) (db : AccountDb)
    → is_for phone purpose other wanted ≡ false
    → newest other wanted db ≡ o
    → newest phone purpose (consume_unlocked env other code wanted o db).1 ≡ newest phone purpose db
unfolding consume_unlocked consume_latest try_code reject_code
other_try-same env phone other code purpose wanted none db h found = refl
other_try-same env phone other code purpose wanted (some c) db h found =
    let saved = λ (new : PhoneCode). saved_other phone other purpose wanted c new db h found in
    elim (Option-cases (lock_left env.now (some c))) [
      | inr (wait, locked) ↦ rw (locked, consume_unlocked) refl
      | inl free ↦
          rw (free, consume_unlocked)
            (elim (Bool-cases (is_open_code env.now c)) [
              | inr closed ↦ rw (closed, consume_latest) refl
              | inl ready ↦
                  rw (ready, consume_latest)
                    (elim (Bool-cases (code_hash env other code wanted == c.code_hash)) [
                      | inl right ↦ rw (right, try_code) (saved (used_code env.now c) refl refl)
                      | inr wrong ↦
                          rw (wrong, try_code)
                            (elim (Bool-cases (leb env.phone_code_max_attempts (c.attempts + 1))) [
                              | inl last ↦
                                  rw (last, reject_code) (saved (burnt_code env c) refl refl)
                              | inr more ↦ rw (more, reject_code) (saved (missed_code c) refl refl)
                            ])
                    ])
            ])
    ]

abbrev db_of : CodeResult IssuedCode × AccountDb × Buckets → AccountDb
db_of r = r.1

issued_other :
    (env : AccountEnv) (phone other : Text) (purpose wanted : CodePurpose) (db : AccountDb)
    → is_for phone purpose other wanted ≡ false
    → newest phone purpose (issue_code env other wanted db) ≡ newest phone purpose db
unfolding latest_code
issued_other env phone other purpose wanted db h =
    rw h (latest-replaced phone other purpose wanted env.now db.phone_codes h)

issue_if-same :
    (env : AccountEnv) (phone other : Text) (purpose wanted : CodePurpose) (db : AccountDb)
    (r : Verdict × Buckets)
    → is_for phone purpose other wanted ≡ false
    → newest phone purpose (db_of (issue_if env other wanted db r)) ≡ newest phone purpose db
issue_if-same env phone other purpose wanted db (admitted, b) h =
    issued_other env phone other purpose wanted db h
issue_if-same env phone other purpose wanted db (retry_after n, b) h = refl
issue_if-same env phone other purpose wanted db (index_error, b) h = refl

pub other_request-same :
    (env : AccountEnv) (phone other client : Text) (purpose wanted : CodePurpose) (db : AccountDb)
    (buckets : Buckets)
    → is_for phone purpose other wanted ≡ false
    → newest phone purpose (db_of (request_phone_code env other wanted client db buckets))
      ≡ newest phone purpose db
unfolding request_phone_code request_checked
other_request-same env phone other client purpose wanted db buckets h =
    let o = newest other wanted db in
    elim (Option-cases (lock_left env.now o)) [
      | inr (wait, locked) ↦ rw (locked, request_phone_code) refl
      | inl free ↦
          rw (free, request_phone_code)
            (elim (Option-cases (resend_left env o)) [
              | inr (wait, soon) ↦ rw (soon, request_phone_code) refl
              | inl later ↦
                  rw (later, request_phone_code)
                    (elim (Bool-cases (
                      leb env.phone_code_hourly_limit
                        (length (sent_this_hour env.now other db.phone_codes)))) [
                          | inl full ↦ rw (full, request_checked) refl
                          | inr room ↦
                              rw (room, request_checked)
                                (issue_if-same env phone other purpose wanted db
                                  (check_client_quota client env.now buckets) h)
                        ])
            ])
    ]
