-- ===== src/Rails/Webhook/Repeated.antt =====
-- A callback that comes again.
use vekro_backend.Base.{
  ◌≡◌, refl, sym, ap, ◌∙◌, subst, true, false, Bool-cases, Option-cases, inl, inr, Option, none,
  some, List, ◌∷◌, Text, text_eq, text_eq_refl,
}
use vekro_backend.Rails.Webhook.Signature.{
  LoopEnv, SignatureStatus, valid, is_valid_signature, verify_callback_signature,
}
use vekro_backend.Rails.Webhook.Process.{
  LoopWebhookProcessResult, CollectionOutcome, Response, rejected_invalid_signature, ProviderEvent,
  LoopDb, Callback, callback_reference, callback_key, rejected_key, event_with, event_of, add_event,
  reject_unauthenticated_callback, acceptance, stored_outcome, audit_funding, confirm_by_inquiry,
  accept_callback, process_loop_collection_webhook,
}

pub added_event :
    (e : ProviderEvent) (events : List ProviderEvent)
    → event_with e.dedupe_key (e ∷ events) ≡ some e
added_event e events = rw (text_eq_refl e.dedupe_key) refl

pub other_event :
    (e : ProviderEvent) (events : List ProviderEvent) (key : Text)
    → text_eq e.dedupe_key key ≡ false
    → event_with key (e ∷ events) ≡ event_with key events
other_event e events key h = rw h refl

pub audit_funding-events :
    (env : LoopEnv) (reference key : Text) (outcome : CollectionOutcome) (db : LoopDb)
    → (audit_funding env reference key outcome db).events ≡ db.events
audit_funding-events env reference key CollectionOutcome.succeeded db = refl
audit_funding-events env reference key CollectionOutcome.failed_definite db = refl
audit_funding-events env reference key CollectionOutcome.unknown db = refl

-- A new callback is stored under its key.
pub confirm-stores :
    (env : LoopEnv) (inquiry_status_fn : Text → Option CollectionOutcome) (c : Callback)
    (reference : Option Text) (key : Text) (db : LoopDb)
    → (response : Response) × ((confirm_by_inquiry env inquiry_status_fn c reference key
          db).1.events
        ≡ event_of env c valid key response ∷ db.events)
unfolding confirm_by_inquiry
confirm-stores env inquiry_status_fn c none key db = (_, refl)
confirm-stores env inquiry_status_fn c (some reference) key db =
    elim (Option-cases (inquiry_status_fn reference)) [
      | inl failed ↦ rw (failed, confirm_by_inquiry) (_, refl)
      | inr (outcome, answered) ↦
          rw (answered, confirm_by_inquiry) (_, audit_funding-events env reference key outcome _)
    ]

event-added :
    (env : LoopEnv) (c : Callback) (status : SignatureStatus) (key : Text) (response : Response)
    (events : List ProviderEvent)
    → event_with key (event_of env c status key response ∷ events)
      ≡ some (event_of env c status key response)
unfolding event_of
event-added env c status key response events =
    added_event (event_of env c status key response) events

-- The answer is that of a duplicate, and nothing changed.
abbrev pub IsRepeated : LoopWebhookProcessResult × LoopDb → LoopDb → Type 0
IsRepeated r db = (r.0.duplicate ≡ true) × (r.1 ≡ db)

accept-IsRepeated :
    (env : LoopEnv) (inquiry_status_fn : Text → Option CollectionOutcome) (c : Callback)
    (db : LoopDb) (e : ProviderEvent)
    → event_with (callback_key env c) db.events ≡ some e
    → IsRepeated (accept_callback env inquiry_status_fn c db) db
unfolding accept_callback
accept-IsRepeated env inquiry_status_fn c db e found = rw (found, accept_callback) (refl, refl)

pub accept-new :
    (env : LoopEnv) (inquiry_status_fn : Text → Option CollectionOutcome) (c : Callback)
    (db : LoopDb)
    → event_with (callback_key env c) db.events ≡ none
    → accept_callback env inquiry_status_fn c db
      ≡ confirm_by_inquiry env inquiry_status_fn c
          (callback_reference env c)
          (callback_key env c)
          db
unfolding accept_callback
accept-new env inquiry_status_fn c db new = rw (new, accept_callback) refl

pub accept-known :
    (env : LoopEnv) (inquiry_status_fn : Text → Option CollectionOutcome) (c : Callback)
    (db : LoopDb) (e : ProviderEvent)
    → event_with (callback_key env c) db.events ≡ some e
    → accept_callback env inquiry_status_fn c db ≡ (
      acceptance (callback_key env c) (callback_reference env c) (stored_outcome e.response) true,
      db,
    )
unfolding accept_callback
accept-known env inquiry_status_fn c db e found = rw (found, accept_callback) refl

-- What a callback is stored under depends on the interpreter's functions only, not on the time or
-- the settings.
same_callback_key :
    (env later : LoopEnv) (c : Callback)
    → later.repr ≡ env.repr
    → later.sha256 ≡ env.sha256
    → callback_key later c ≡ callback_key env c
same_callback_key env later c shown hash =
    λ j. callback_key (record env { repr = shown j; sha256 = hash j }) c

same_rejected_key :
    (env later : LoopEnv) (c : Callback)
    → later.sha256 ≡ env.sha256
    → rejected_key later c ≡ rejected_key env c
same_rejected_key env later c hash = λ j. rejected_key (record env { sha256 = hash j }) c

accept-twice :
    (env later : LoopEnv) (inquiry inquiry_later : Text → Option CollectionOutcome) (c : Callback)
    (db : LoopDb)
    → callback_key later c ≡ callback_key env c
    → IsRepeated
        (accept_callback later inquiry_later c (accept_callback env inquiry c db).1)
        (accept_callback env inquiry c db).1
accept-twice env later inquiry inquiry_later c db same =
    let key = callback_key env c in
    let reference = callback_reference env c in
    elim (Option-cases (event_with key db.events)) [
      | inr (e, found) ↦
          subst (λ r. IsRepeated (accept_callback later inquiry_later c r.1) r.1)
            (sym (accept-known env inquiry c db e found))
            (accept-IsRepeated later inquiry_later c db e
              (ap (λ k. event_with k db.events) same ∙ found))
      | inl new ↦
          let (response, stored) = confirm-stores env inquiry c reference key db in
          let next = (confirm_by_inquiry env inquiry c reference key db).1 in
          subst (λ r. IsRepeated (accept_callback later inquiry_later c r.1) r.1)
            (sym (accept-new env inquiry c db new))
            (accept-IsRepeated later inquiry_later c next (event_of env c valid key response) (
              ap (λ k. event_with k next.events) same
              ∙ ap (event_with key) stored
              ∙ event-added env c valid key response db.events))
    ]

reject-IsRepeated :
    (env : LoopEnv) (c : Callback) (reason : SignatureStatus) (db : LoopDb) (e : ProviderEvent)
    → event_with (rejected_key env c) db.events ≡ some e
    → IsRepeated (reject_unauthenticated_callback env c reason db) db
unfolding reject_unauthenticated_callback
reject-IsRepeated env c reason db e found = rw (found, reject_unauthenticated_callback) (refl, refl)

pub reject-new :
    (env : LoopEnv) (c : Callback) (reason : SignatureStatus) (db : LoopDb)
    → event_with (rejected_key env c) db.events ≡ none
    → (reject_unauthenticated_callback env c reason db).1
      ≡ add_event (event_of env c reason (rejected_key env c) rejected_invalid_signature) db
unfolding reject_unauthenticated_callback
reject-new env c reason db new = rw (new, reject_unauthenticated_callback) refl

pub reject-known :
    (env : LoopEnv) (c : Callback) (reason : SignatureStatus) (db : LoopDb) (e : ProviderEvent)
    → event_with (rejected_key env c) db.events ≡ some e
    → (reject_unauthenticated_callback env c reason db).1 ≡ db
reject-known env c reason db e found = (reject-IsRepeated env c reason db e found).1

reject-twice :
    (env later : LoopEnv) (c : Callback) (reason reason_later : SignatureStatus) (db : LoopDb)
    → rejected_key later c ≡ rejected_key env c
    → IsRepeated
        (reject_unauthenticated_callback later c reason_later
          (reject_unauthenticated_callback env c reason db).1)
        (reject_unauthenticated_callback env c reason db).1
reject-twice env later c reason reason_later db same =
    let key = rejected_key env c in
    let row = event_of env c reason key rejected_invalid_signature in
    elim (Option-cases (event_with key db.events)) [
      | inr (e, found) ↦
          subst
            (λ next. IsRepeated (reject_unauthenticated_callback later c reason_later next) next)
            (sym (reject-known env c reason db e found))
            (reject-IsRepeated later c reason_later db e
              (ap (λ k. event_with k db.events) same ∙ found))
      | inl new ↦
          subst
            (λ next. IsRepeated (reject_unauthenticated_callback later c reason_later next) next)
            (sym (reject-new env c reason db new))
            (reject-IsRepeated later c reason_later (add_event row db) row (
              ap (λ k. event_with k (row ∷ db.events)) same
              ∙ event-added env c reason key rejected_invalid_signature db.events))
    ]

-- A callback that comes again, at any time and under any settings, is answered as a duplicate and
-- changes nothing, whatever the inquiries answer at both times, if its signature is valid at both
-- times or at neither and `repr` and SHA-256 are the same functions at both.
pub callback-IsRepeated :
    (env later : LoopEnv) (inquiry inquiry_later : Text → Option CollectionOutcome) (c : Callback)
    (db : LoopDb)
    → later.repr ≡ env.repr
    → later.sha256 ≡ env.sha256
    → is_valid_signature (verify_callback_signature later c.headers c.raw_payload)
      ≡ is_valid_signature (verify_callback_signature env c.headers c.raw_payload)
    → IsRepeated
        (process_loop_collection_webhook later inquiry_later c
          (process_loop_collection_webhook env inquiry c db).1)
        (process_loop_collection_webhook env inquiry c db).1
unfolding process_loop_collection_webhook
callback-IsRepeated env later inquiry inquiry_later c db shown hash alike =
    let status = verify_callback_signature env c.headers c.raw_payload in
    let status_later = verify_callback_signature later c.headers c.raw_payload in
    elim (Bool-cases (is_valid_signature status)) [
      | inl fine ↦
          rw (alike ∙ fine, fine, process_loop_collection_webhook)
            (accept-twice env later inquiry inquiry_later c db
              (same_callback_key env later c shown hash))
      | inr forged ↦
          rw (alike ∙ forged, forged, process_loop_collection_webhook)
            (reject-twice env later c status status_later db (same_rejected_key env later c hash))
    ]
