-- ===== src/Rails/Webhook/Payload.antt =====
-- The body of a callback in app/services/custody/loop_webhook.py: what is read from it, and what of it
-- is stored. A number is its text as `str` gives it. The keys of a dictionary are texts, so
-- `_normalize_payload` has no counterpart; `_redact_payload` of a Decimal has none either.
use vekro_backend.Base.{
  ℕ, suc, ◌==◌, leb, Bool, true, false, not, ◌&&◌, ◌||◌, Option, none, some, get_or, List, [], ◌∷◌,
  all, any, keep, map, length, Text, codes, text_eq, strip, lower_char, is_empty, or_text,
  if◌then◌else◌,
}

-- `Values` and `Entries` are what a list and a dictionary hold.
mutual
  pub data Value : Type 0 where
    nothing : Value
    boolean : Bool → Value
    number : Text → Value
    string : Text → Value
    list : Values → Value
    dict : Entries → Value

  pub data Values : Type 0 where
    no_values : Values
    value : Value → Values → Values

  pub data Entries : Type 0 where
    no_entries : Entries
    entry : Text → Value → Entries → Entries

-- `payload.get(key)`
unfoldable pub get : Text → Entries → Option Value
get key no_entries = none
get key (entry k v es) = let rest = get key es in if text_eq k key then some v else rest

abbrev pub provider_reference_keys : List Text
provider_reference_keys =
    codes "transactionReference"
    ∷ codes "transaction_reference"
    ∷ codes "providerReference"
    ∷ codes "provider_reference"
    ∷ codes "txnRef"
    ∷ codes "txn_reference"
    ∷ []

abbrev pub external_event_id_keys : List Text
external_event_id_keys =
    codes "eventId"
    ∷ codes "event_id"
    ∷ codes "callbackId"
    ∷ codes "callback_id"
    ∷ codes "requestId"
    ∷ codes "request_id"
    ∷ []

abbrev pub event_type_keys : List Text
event_type_keys = codes "eventType" ∷ codes "event_type" ∷ codes "type" ∷ []

abbrev pub nested_payload_keys : List Text
nested_payload_keys = codes "data" ∷ codes "payload" ∷ codes "result" ∷ codes "body" ∷ []

-- `str` of Python on a list or a dictionary is the argument `repr`.
abbrev pub text_of : (Value → Text) → Value → Option Text
text_of repr nothing = none
text_of repr (boolean true) = some (codes "True")
text_of repr (boolean false) = some (codes "False")
text_of repr (number n) = some (strip n)
text_of repr (string s) = some (strip s)
text_of repr (list vs) = some (strip (repr (list vs)))
text_of repr (dict es) = some (strip (repr (dict es)))

abbrev pub candidate_text : (Value → Text) → Option Value → Option Text
candidate_text repr none = none
candidate_text repr (some v) = text_of repr v

-- `_extract_first_string`
unfoldable pub extract_first_string : (Value → Text) → Entries → List Text → Option Text
unfolding get strip
extract_first_string repr payload [] = none
extract_first_string repr payload (key ∷ keys) =
    or_text (candidate_text repr (get key payload)) (extract_first_string repr payload keys)

abbrev pub extract_within : (Value → Text) → List Text → Option Value → Option Text
extract_within repr keys (some (dict es)) = extract_first_string repr es keys
extract_within repr keys _ = none

-- The loop of `_extract_nested_string` over its containers
unfoldable pub extract_from : (Value → Text) → Entries → List Text → List Text → Option Text
unfolding extract_first_string get
extract_from repr payload keys [] = none
extract_from repr payload keys (container ∷ containers) =
    or_text (extract_within repr keys (get container payload))
      (extract_from repr payload keys containers)

abbrev pub extract_nested_string : (Value → Text) → Entries → List Text → Option Text
extract_nested_string repr payload keys = extract_from repr payload keys nested_payload_keys

unfoldable pub extract_provider_reference : (Value → Text) → Entries → Option Text
unfolding extract_first_string extract_from
extract_provider_reference repr payload =
    or_text (extract_first_string repr payload provider_reference_keys)
      (extract_nested_string repr payload provider_reference_keys)

unfoldable pub extract_external_event_id : (Value → Text) → Entries → Option Text
unfolding extract_first_string extract_from
extract_external_event_id repr payload =
    or_text (extract_first_string repr payload external_event_id_keys)
      (extract_nested_string repr payload external_event_id_keys)

unfoldable pub extract_event_type : (Value → Text) → Entries → Text
unfolding extract_first_string extract_from
extract_event_type repr payload =
    get_or
      (or_text (extract_first_string repr payload event_type_keys)
        (extract_nested_string repr payload event_type_keys))
      (codes "collection.callback")

-- The keys whose values `_redact_payload` hides.
abbrev pub sensitive_keys : List Text
sensitive_keys =
    codes "phone"
    ∷ codes "phonenumber"
    ∷ codes "msisdn"
    ∷ codes "token"
    ∷ codes "authorization"
    ∷ codes "signature"
    ∷ codes "passkey"
    ∷ codes "client_secret"
    ∷ []

abbrev pub stars : Text
stars = codes "***"

-- `key.strip().lower().replace("-", "").replace("_", "")`
unfoldable pub bare_key : Text → Text
unfolding strip
bare_key key = keep (λ c. not (c == b'-' || c == b'_')) (map lower_char (strip key))

unfoldable pub is_sensitive : Text → Bool
unfolding bare_key text_eq
is_sensitive key = any (text_eq (bare_key key)) sensitive_keys

abbrev pub is_digit : ℕ → Bool
is_digit c = leb b'0' c && leb c b'9'

-- A text that reads as a phone number
abbrev pub looks_like_phone : Text → Bool
looks_like_phone [] = false
looks_like_phone (c ∷ cs) =
    c == b'+' && (not (is_empty cs) && (all is_digit cs && leb 8 (suc (length cs))))

-- `_redact_payload`
unfoldable mutual
  unfolding is_sensitive

  pub redact_payload : Value → Value
  redact_payload nothing = nothing
  redact_payload (boolean b) = boolean b
  redact_payload (number n) = number n
  redact_payload (string s) = string (if looks_like_phone s then stars else s)
  redact_payload (list vs) = list (redact_values vs)
  redact_payload (dict es) = dict (redact_entries es)

  pub redact_values : Values → Values
  redact_values no_values = no_values
  redact_values (value v vs) = value (redact_payload v) (redact_values vs)

  pub redact_entries : Entries → Entries
  redact_entries no_entries = no_entries
  redact_entries (entry k v es) =
      let shown = redact_payload v in
      let rest = redact_entries es in entry k (if is_sensitive k then string stars else shown) rest
