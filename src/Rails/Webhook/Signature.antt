-- ===== src/Rails/Webhook/Signature.antt =====
-- The headers of a callback in app/services/custody/loop_webhook.py: its signature, which is that of
-- build_loop_signature in loop_auth.py, and the copy of the headers that is stored.
use vekro_backend.Base.{
  ℕ, ◌-◌, ◌==◌, leb, ltb, Bool, true, false, not, ◌&&◌, ◌||◌, Option, none, some, List, [], ◌∷◌,
  ◌++◌, any, take, map, Text, codes, text_eq, strip, lower_char, is_empty, if◌then◌else◌,
}
use vekro_backend.Rails.Webhook.Payload.{Value, stars}

-- The library code that a callback meets, and the settings: `hmac` and `sha256` give hexadecimal
-- digests, `parse_timestamp` is `_parse_loop_timestamp` by Python's datetime parsers, in seconds.
pub record LoopEnv : Type 0 where
  pub now : ℕ
  pub signing_secret : Text
  pub max_timestamp_skew_seconds : ℕ
  pub repr : Value → Text
  pub hmac : Text → Text → Text
  pub sha256 : Text → Text
  pub parse_timestamp : Text → Option ℕ

abbrev pub Headers : Type 0
Headers = List (Text × Text)

-- `_header_value`; the name is given in lower case.
unfoldable pub header_value : Headers → Text → Text
header_value [] name = []
header_value (h ∷ hs) name =
    let rest = header_value hs name in if text_eq (map lower_char h.0) name then strip h.1 else rest

abbrev pub timestamp_header : Text
timestamp_header = codes "x-loop-timestamp"

abbrev pub nonce_header : Text
nonce_header = codes "x-loop-nonce"

abbrev pub signature_header : Text
signature_header = codes "x-loop-signature"

-- The constants SIGNATURE_VALID and the others
pub data SignatureStatus : Type 0 where
  valid missing_signature_headers signature_mismatch invalid_timestamp stale_timestamp :
      SignatureStatus

abbrev pub is_valid_signature : SignatureStatus → Bool
is_valid_signature valid = true
is_valid_signature _ = false

-- `build_loop_signature`
abbrev pub build_loop_signature : LoopEnv → Text → Text → Text → Text → Text
build_loop_signature env secret timestamp nonce payload =
    env.hmac secret (timestamp ++ (codes "." ++ (nonce ++ (codes "." ++ payload))))

-- `abs(now - signed_at) > timedelta(seconds=max(1, max_skew_seconds))`
abbrev pub is_stale : LoopEnv → ℕ → Bool
is_stale env signed_at =
    let skew = if leb 1 env.max_timestamp_skew_seconds then env.max_timestamp_skew_seconds else 1 in
    ltb skew (env.now - signed_at) || ltb skew (signed_at - env.now)

abbrev pub timestamp_status : LoopEnv → Option ℕ → SignatureStatus
timestamp_status env none = invalid_timestamp
timestamp_status env (some signed_at) = if is_stale env signed_at then stale_timestamp else valid

-- `_verify_callback_signature`
unfoldable pub verify_callback_signature : LoopEnv → Headers → Text → SignatureStatus
unfolding header_value text_eq strip
verify_callback_signature env headers raw_payload =
    let timestamp = header_value headers timestamp_header in
    let nonce = header_value headers nonce_header in
    let signature = header_value headers signature_header in
    let secret = strip env.signing_secret in
    if is_empty secret || (is_empty timestamp || (is_empty nonce || is_empty signature))
    then missing_signature_headers
    else if not (text_eq signature (build_loop_signature env secret timestamp nonce raw_payload))
    then signature_mismatch
    else timestamp_status env (env.parse_timestamp timestamp)

abbrev pub sensitive_header_keys : List Text
sensitive_header_keys = codes "authorization" ∷ codes "x-loop-signature" ∷ codes "x-loop-nonce" ∷ []

abbrev pub kept_header_keys : List Text
kept_header_keys = codes "content-type" ∷ codes "user-agent" ∷ codes "x-request-id" ∷ []

unfoldable pub starts_with : Text → Text → Bool
starts_with [] s = true
starts_with (a ∷ p) [] = false
starts_with (a ∷ p) (b ∷ s) = a == b && starts_with p s

-- `redacted[key] = value`
unfoldable pub put_header : Text → Text → Headers → Headers
put_header key value [] = (key, value) ∷ []
put_header key value (h ∷ hs) =
    let rest = put_header key value hs in if text_eq h.0 key then (key, value) ∷ hs else h ∷ rest

-- What `_redact_headers` keeps of one header
unfoldable pub redact_header : Text × Text → Headers → Headers
unfolding put_header strip starts_with text_eq
redact_header (key, value) redacted =
    let name = strip (map lower_char key) in
    if any (text_eq name) sensitive_header_keys
    then put_header name stars redacted
    else if starts_with (codes "x-loop-") name || any (text_eq name) kept_header_keys
    then put_header name value redacted
    else redacted

-- `_redact_headers`
unfoldable pub redact_headers : Headers → Headers → Headers
unfolding redact_header
redact_headers redacted [] = redacted
redact_headers redacted (h ∷ hs) = redact_headers (redact_header h redacted) hs

-- `signature_fingerprint`
unfoldable pub signature_fingerprint : LoopEnv → Text → Option Text
unfolding strip
signature_fingerprint env signature =
    if is_empty (strip signature) then none else some (take 12 (env.sha256 (strip signature)))
