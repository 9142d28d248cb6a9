-- ===== src/Rails/Webhook/Process.antt =====
-- process_loop_collection_webhook of app/services/custody/loop_webhook.py, over the rows that the
-- provider has in the table of events (app/models/provider_event.py), newest first. The wordings of
-- details and messages are left out.
use vekro_backend.Base.{
  ℕ, leb, Bool, true, false, Option, none, some, List, [], ◌∷◌, ◌++◌, first, take, length, Text,
  codes, text_eq, if◌then◌else◌,
}
use vekro_backend.Rails.Webhook.Payload.{
  Value, dict, Entries, extract_provider_reference, extract_external_event_id, extract_event_type,
  redact_payload,
}
use vekro_backend.Rails.Webhook.Signature.{
  LoopEnv, Headers, SignatureStatus, valid, is_valid_signature, verify_callback_signature,
  header_value, signature_header, redact_headers, signature_fingerprint,
}

pub data CollectionOutcome : Type 0 where
  succeeded failed_definite unknown : CollectionOutcome

-- The "state" of `response_snapshot`, with what else it holds.
pub data Response : Type 0 where
  rejected_invalid_signature ignored_missing_provider_reference inquiry_failed : Response
  inquiry_confirmed : CollectionOutcome → Response

pub record ProviderEvent : Type 0 where
  pub event_type : Text
  pub dedupe_key : Text
  pub external_event_id : Option Text
  -- of `request_snapshot`
  pub signature_status : SignatureStatus
  pub fingerprint : Option Text
  pub headers : Headers
  pub provider_reference : Option Text
  -- of `response_snapshot`
  pub response : Response
  pub payload : Value
  pub processed_at : ℕ

-- A money audit event "funding_confirmed"
pub record FundingAudit : Type 0 where
  pub provider_reference : Text
  pub dedupe_key : Text
  pub occurred_at : ℕ

pub record LoopDb : Type 0 where
  pub events : List ProviderEvent
  pub audits : List FundingAudit

pub record Callback : Type 0 where
  pub payload : Entries
  pub raw_payload : Text
  pub headers : Headers

pub record LoopWebhookProcessResult : Type 0 where
  pub accepted : Bool
  pub duplicate : Bool
  pub signature_valid : Bool
  pub dedupe_key : Text
  pub provider_reference : Option Text
  pub inquiry_outcome : Option CollectionOutcome
  pub rejection_reason : Option SignatureStatus

-- `_truncate` at 120 characters
abbrev pub truncate : Text → Text
truncate value = if leb (length value) 120 then value else take 120 value

-- `_build_dedupe_key`; the texts that are extracted are not empty.
abbrev pub build_dedupe_key : LoopEnv → Option Text → Option Text → Text → Text
build_dedupe_key env (some reference) id raw_payload = truncate (codes "collection:" ++ reference)
build_dedupe_key env none (some id) raw_payload = truncate (codes "event:" ++ id)
build_dedupe_key env none none raw_payload = truncate (codes "body:" ++ env.sha256 raw_payload)

abbrev pub callback_reference : LoopEnv → Callback → Option Text
callback_reference env c = extract_provider_reference env.repr c.payload

abbrev pub callback_key : LoopEnv → Callback → Text
callback_key env c =
    build_dedupe_key env (callback_reference env c) (extract_external_event_id env.repr c.payload)
      c.raw_payload

abbrev pub rejected_key : LoopEnv → Callback → Text
rejected_key env c = truncate (
    codes "rejected:"
    ++ env.sha256 (header_value c.headers signature_header ++ (codes "|" ++ c.raw_payload)))

-- The row with a dedupe key
abbrev pub event_with : Text → List ProviderEvent → Option ProviderEvent
event_with key events = first (λ e. text_eq e.dedupe_key key) events

-- The row of a callback, with what is known of it at its end
unfoldable pub event_of : LoopEnv → Callback → SignatureStatus → Text → Response → ProviderEvent
unfolding header_value redact_headers redact_payload extract_provider_reference
    extract_external_event_id extract_event_type signature_fingerprint
event_of env c status key response = record {
  event_type = extract_event_type env.repr c.payload;
  dedupe_key = key;
  external_event_id = extract_external_event_id env.repr c.payload;
  signature_status = status;
  fingerprint = signature_fingerprint env (header_value c.headers signature_header);
  headers = redact_headers [] c.headers;
  provider_reference = callback_reference env c;
  response = response;
  payload = redact_payload (dict c.payload);
  processed_at = env.now;
}

abbrev pub add_event : ProviderEvent → LoopDb → LoopDb
add_event e db = record db { events = e ∷ db.events }

abbrev pub rejection : Text → Option Text → SignatureStatus → Bool → LoopWebhookProcessResult
rejection key reference reason duplicate = record {
  accepted = false;
  duplicate = duplicate;
  signature_valid = false;
  dedupe_key = key;
  provider_reference = reference;
  inquiry_outcome = none;
  rejection_reason = some reason;
}

-- `_reject_unauthenticated_callback`
unfoldable pub reject_unauthenticated_callback :
    LoopEnv → Callback → SignatureStatus → LoopDb → LoopWebhookProcessResult × LoopDb
unfolding header_value event_of extract_provider_reference
reject_unauthenticated_callback env c reason db =
    let key = rejected_key env c in
    let reference = callback_reference env c in
    elim (event_with key db.events) [
      | some e ↦ (rejection key reference reason true, db)
      | none ↦ (
        rejection key reference reason false,
        add_event (event_of env c reason key rejected_invalid_signature) db,
      )
    ]

abbrev pub acceptance :
    Text → Option Text → Option CollectionOutcome → Bool → LoopWebhookProcessResult
acceptance key reference outcome duplicate = record {
  accepted = true;
  duplicate = duplicate;
  signature_valid = true;
  dedupe_key = key;
  provider_reference = reference;
  inquiry_outcome = outcome;
  rejection_reason = none;
}

-- `existing.response_snapshot.get("inquiry_outcome")`
abbrev pub stored_outcome : Response → Option CollectionOutcome
stored_outcome (inquiry_confirmed outcome) = some outcome
stored_outcome _ = none

abbrev pub is_succeeded : CollectionOutcome → Bool
is_succeeded succeeded = true
is_succeeded _ = false

-- `record_money_audit_event`, if the funding is confirmed
abbrev pub audit_funding : LoopEnv → Text → Text → CollectionOutcome → LoopDb → LoopDb
audit_funding env reference key outcome db =
    if is_succeeded outcome
    then record db {
      audits =
          record { provider_reference = reference; dedupe_key = key; occurred_at = env.now }
          ∷ db.audits;
    }
    else db

-- The inquiry of a new callback; `none` stands for an exception.
unfoldable pub confirm_by_inquiry :
    LoopEnv
    → (Text → Option CollectionOutcome)
    → Callback
    → Option Text
    → Text
    → LoopDb
    → LoopWebhookProcessResult × LoopDb
unfolding event_of
confirm_by_inquiry env inquiry_status_fn c none key db = (
  acceptance key none none false,
  add_event (event_of env c valid key ignored_missing_provider_reference) db,
)
confirm_by_inquiry env inquiry_status_fn c (some reference) key db =
    elim (inquiry_status_fn reference) [
      | none ↦ (
        acceptance key (some reference) none false,
        add_event (event_of env c valid key inquiry_failed) db,
      )
      | some outcome ↦ (
        acceptance key (some reference) (some outcome) false,
        audit_funding env reference key outcome
            (add_event (event_of env c valid key (inquiry_confirmed outcome)) db),
      )
    ]

unfoldable pub accept_callback :
    LoopEnv
    → (Text → Option CollectionOutcome)
    → Callback
    → LoopDb
    → LoopWebhookProcessResult × LoopDb
unfolding confirm_by_inquiry extract_provider_reference extract_external_event_id
accept_callback env inquiry_status_fn c db =
    let key = callback_key env c in
    let reference = callback_reference env c in
    elim (event_with key db.events) [
      | some e ↦ (acceptance key reference (stored_outcome e.response) true, db)
      | none ↦ confirm_by_inquiry env inquiry_status_fn c reference key db
    ]

-- `process_loop_collection_webhook`
unfoldable pub process_loop_collection_webhook :
    LoopEnv
    → (Text → Option CollectionOutcome)
    → Callback
    → LoopDb
    → LoopWebhookProcessResult × LoopDb
unfolding verify_callback_signature accept_callback reject_unauthenticated_callback
process_loop_collection_webhook env inquiry_status_fn c db =
    let status = verify_callback_signature env c.headers c.raw_payload in
    if is_valid_signature status
    then accept_callback env inquiry_status_fn c db
    else reject_unauthenticated_callback env c status db
