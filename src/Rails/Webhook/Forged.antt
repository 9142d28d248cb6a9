-- ===== src/Rails/Webhook/Forged.antt =====
-- A callback that is forged.
use vekro_backend.Base.{
  ℕ, ◌==◌, ◌≡◌, refl, ap, ◌∙◌, leb, true, false, Bool-cases, Option-cases, inl, inr, Option, none,
  some, ◌∷◌, ◌++◌, length, Text, codes, text_eq,
}
use vekro_backend.Rails.Webhook.Payload.{extract_external_event_id}
use vekro_backend.Rails.Webhook.Signature.{
  LoopEnv, SignatureStatus, is_valid_signature, verify_callback_signature, header_value,
  signature_header,
}
use vekro_backend.Rails.Webhook.Process.{
  LoopWebhookProcessResult, CollectionOutcome, rejected_invalid_signature, LoopDb, Callback,
  truncate, build_dedupe_key, callback_reference, callback_key, rejected_key, event_with, event_of,
  reject_unauthenticated_callback, audit_funding, confirm_by_inquiry, accept_callback,
  process_loop_collection_webhook,
}
use vekro_backend.Rails.Webhook.Repeated.{other_event, reject-new, reject-known}

truncate_head : (a : ℕ) (s : Text) → (t : Text) × (truncate (a ∷ s) ≡ a ∷ t)
truncate_head a s = elim (Bool-cases (leb (length (a ∷ s)) 120)) [
  | inl short ↦ rw short (s, refl)
  | inr long ↦ rw long (_, refl)
]

heads_differ :
    (a b : ℕ) (s t : Text)
    → (a == b) ≡ false
    → text_eq (truncate (a ∷ s)) (truncate (b ∷ t)) ≡ false
unfolding text_eq
heads_differ a b s t h =
    let (s', one) = truncate_head a s in
    let (t', other) = truncate_head b t in rw one (rw other (rw h refl))

key_differs :
    (env : LoopEnv) (reference id : Option Text) (raw s : Text)
    → text_eq (truncate (b'r' ∷ s)) (build_dedupe_key env reference id raw) ≡ false
key_differs env (some reference) id raw s =
    heads_differ b'r' b'c' s (codes "ollection:" ++ reference) refl
key_differs env none (some id) raw s = heads_differ b'r' b'e' s (codes "vent:" ++ id) refl
key_differs env none none raw s = heads_differ b'r' b'b' s (codes "ody:" ++ env.sha256 raw) refl

-- A callback that is rejected leaves what is found under the key of any callback.
reject-others :
    (env later : LoopEnv) (c other : Callback) (reason : SignatureStatus) (db : LoopDb)
    → event_with
        (callback_key later other)
        (reject_unauthenticated_callback env c reason db).1.events
      ≡ event_with (callback_key later other) db.events
unfolding event_of
reject-others env later c other reason db =
    let key = rejected_key env c in
    let row = event_of env c reason key rejected_invalid_signature in
    elim (Option-cases (event_with key db.events)) [
      | inr (e, found) ↦
          ap (λ d. event_with (callback_key later other) d.events)
            (reject-known env c reason db e found)
      | inl new ↦
          ap (λ d. event_with (callback_key later other) d.events) (reject-new env c reason db new)
          ∙ other_event row db.events (callback_key later other) (
              key_differs later (callback_reference later other)
                (extract_external_event_id later.repr other.payload) other.raw_payload
                (codes "ejected:"
                  ++ env.sha256
                      (header_value c.headers signature_header ++ (codes "|" ++ c.raw_payload))))
    ]

reject-audits :
    (env : LoopEnv) (c : Callback) (reason : SignatureStatus) (db : LoopDb)
    → (reject_unauthenticated_callback env c reason db).1.audits ≡ db.audits
reject-audits env c reason db = elim (Option-cases (event_with (rejected_key env c) db.events)) [
  | inr (e, found) ↦ ap (λ d. d.audits) (reject-known env c reason db e found)
  | inl new ↦ ap (λ d. d.audits) (reject-new env c reason db new)
]

-- Two runs that answer the same and record the same fundings.
abbrev pub AreAlike : LoopWebhookProcessResult × LoopDb → LoopWebhookProcessResult × LoopDb → Type 0
AreAlike r s = (r.0 ≡ s.0) × (r.1.audits ≡ s.1.audits)

audit_funding-alike :
    (env : LoopEnv) (reference key : Text) (outcome : CollectionOutcome) (d e : LoopDb)
    → d.audits ≡ e.audits
    → (audit_funding env reference key outcome d).audits
      ≡ (audit_funding env reference key outcome e).audits
audit_funding-alike env reference key CollectionOutcome.succeeded d e h =
    ap
      (λ audits.
        record { provider_reference = reference; dedupe_key = key; occurred_at = env.now } ∷ audits)
      h
audit_funding-alike env reference key CollectionOutcome.failed_definite d e h = h
audit_funding-alike env reference key CollectionOutcome.unknown d e h = h

confirm-alike :
    (env : LoopEnv) (inquiry_status_fn : Text → Option CollectionOutcome) (c : Callback)
    (reference : Option Text) (key : Text) (d e : LoopDb)
    → d.audits ≡ e.audits
    → AreAlike
        (confirm_by_inquiry env inquiry_status_fn c reference key d)
        (confirm_by_inquiry env inquiry_status_fn c reference key e)
unfolding confirm_by_inquiry
confirm-alike env inquiry_status_fn c none key d e h = (refl, h)
confirm-alike env inquiry_status_fn c (some reference) key d e h =
    elim (Option-cases (inquiry_status_fn reference)) [
      | inl failed ↦ rw (failed, confirm_by_inquiry) (refl, h)
      | inr (outcome, answered) ↦
          rw (answered, confirm_by_inquiry)
            (refl, audit_funding-alike env reference key outcome _ _ h)
    ]

accept-alike :
    (env : LoopEnv) (inquiry_status_fn : Text → Option CollectionOutcome) (c : Callback)
    (d e : LoopDb)
    → event_with (callback_key env c) d.events ≡ event_with (callback_key env c) e.events
    → d.audits ≡ e.audits
    → AreAlike
        (accept_callback env inquiry_status_fn c d)
        (accept_callback env inquiry_status_fn c e)
unfolding accept_callback
accept-alike env inquiry_status_fn c d e same h =
    elim (Option-cases (event_with (callback_key env c) e.events)) [
      | inr (row, found) ↦ rw (same ∙ found, found, accept_callback) (refl, h)
      | inl new ↦
          rw (same ∙ new, new, accept_callback)
            (confirm-alike env inquiry_status_fn c (callback_reference env c) (callback_key env c) d
              e h)
    ]

-- A callback whose signature is not valid changes neither the answer to a callback with a valid one
-- that is served next, at any time and under any settings, nor the fundings that it records.
pub forged_harmless :
    (env later : LoopEnv) (inquiry other_inquiry : Text → Option CollectionOutcome)
    (forged genuine : Callback) (db : LoopDb)
    → is_valid_signature (verify_callback_signature env forged.headers forged.raw_payload) ≡ false
    → is_valid_signature (verify_callback_signature later genuine.headers genuine.raw_payload)
      ≡ true
    → AreAlike
        (process_loop_collection_webhook later other_inquiry genuine
          (process_loop_collection_webhook env inquiry forged db).1)
        (process_loop_collection_webhook later other_inquiry genuine db)
unfolding process_loop_collection_webhook
forged_harmless env later inquiry other_inquiry forged genuine db bad good =
    let status = verify_callback_signature env forged.headers forged.raw_payload in
    rw (bad, good, process_loop_collection_webhook)
      (accept-alike later other_inquiry genuine
        (reject_unauthenticated_callback env forged status db).1 db
        (reject-others env later forged genuine status db) (reject-audits env forged status db))
