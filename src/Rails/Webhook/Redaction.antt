-- ===== src/Rails/Webhook/Redaction.antt =====
-- What the rows of callbacks hold of the headers and the payloads.
use vekro_backend.Base.{
  ◌≡◌, refl, arith, Bool, true, false, ◌||◌, Bool-cases, inl, inr, ◌⊎◌, List, [], ◌∷◌, any, Text,
  codes, text_eq,
}
use vekro_backend.Rails.Webhook.Payload.{
  Value, nothing, boolean, number, string, list, dict, Values, no_values, value, Entries,
  no_entries, entry, stars, bare_key, is_sensitive, looks_like_phone, redact_payload, redact_values,
  redact_entries,
}
use vekro_backend.Rails.Webhook.Signature.{Headers, starts_with}
use vekro_backend.Rails.Webhook.Process.{ProviderEvent}

-- The headers that authenticate a callback.
abbrev secret_headers : List Text
secret_headers = codes "authorization" ∷ codes "x-loop-signature" ∷ codes "x-loop-nonce" ∷ []

abbrev is_secret_header : Text → Bool
is_secret_header name = any (text_eq name) secret_headers

-- The other headers that may be stored.
abbrev is_kept_header : Text → Bool
is_kept_header name =
    starts_with (codes "x-loop-") name
    || any (text_eq name) (codes "content-type" ∷ codes "user-agent" ∷ codes "x-request-id" ∷ [])

-- A secret header is hidden, and every other one is of a name that is kept.
abbrev IsSafe : Text → Text → Type 0
IsSafe name text =
    ((is_secret_header name ≡ true) × (text ≡ stars))
    ⊎ ((is_secret_header name ≡ false) × (is_kept_header name ≡ true))

abbrev pub AreSafe : Headers → Type 0
AreSafe [] = Unit
AreSafe ((name, text) ∷ hs) = IsSafe name text × AreSafe hs

-- The keys of a payload whose values are hidden.
abbrev hidden_keys : List Text
hidden_keys =
    codes "phone"
    ∷ codes "phonenumber"
    ∷ codes "msisdn"
    ∷ codes "token"
    ∷ codes "authorization"
    ∷ codes "signature"
    ∷ codes "passkey"
    ∷ []

-- Whether a key is one of them, but for its case, hyphens and underscores.
unfoldable is_hidden : Text → Bool
unfolding bare_key
is_hidden key = any (text_eq (bare_key key)) hidden_keys

hidden-is_sensitive : (key : Text) → is_hidden key ≡ true → is_sensitive key ≡ true
unfolding is_hidden is_sensitive
hidden-is_sensitive key h = ground arith

-- Nothing under a hidden key but stars, and no text that reads as a phone number.
mutual
  pub IsMasked : Value → Type 0
  IsMasked nothing = Unit
  IsMasked (boolean b) = Unit
  IsMasked (number n) = Unit
  IsMasked (string s) = looks_like_phone s ≡ false
  IsMasked (list vs) = AreMasked vs
  IsMasked (dict es) = HaveMasked es

  pub AreMasked : Values → Type 0
  AreMasked no_values = Unit
  AreMasked (value v vs) = IsMasked v × AreMasked vs

  pub HaveMasked : Entries → Type 0
  HaveMasked no_entries = Unit
  HaveMasked (entry k v es) = (is_hidden k ≡ true → v ≡ string stars) × (IsMasked v × HaveMasked es)

mutual
  unfolding redact_payload redact_values redact_entries IsMasked AreMasked HaveMasked

  payload-IsMasked : (v : Value) → IsMasked (redact_payload v)
  payload-IsMasked nothing = tt
  payload-IsMasked (boolean b) = tt
  payload-IsMasked (number n) = tt
  payload-IsMasked (string s) = elim (Bool-cases (looks_like_phone s)) [
    | inl phone ↦ rw (phone, redact_payload) refl
    | inr other ↦ rw (other, redact_payload) other
  ]
  payload-IsMasked (list vs) = values-AreMasked vs
  payload-IsMasked (dict es) = entries-HaveMasked es

  values-AreMasked : (vs : Values) → AreMasked (redact_values vs)
  values-AreMasked no_values = tt
  values-AreMasked (value v vs) = (payload-IsMasked v, values-AreMasked vs)

  entries-HaveMasked : (es : Entries) → HaveMasked (redact_entries es)
  entries-HaveMasked no_entries = tt
  entries-HaveMasked (entry k v es) = elim (Bool-cases (is_sensitive k)) [
    | inl secret ↦ rw (secret, redact_entries) (λ h. refl, (refl, entries-HaveMasked es))
    | inr plain ↦
        rw (plain, redact_entries)
          (
            λ h. let clash = hidden-is_sensitive k h in cc,
            (payload-IsMasked v, entries-HaveMasked es),
          )
  ]

abbrev pub IsRedacted : ProviderEvent → Type 0
IsRedacted e = AreSafe e.headers × IsMasked e.payload

abbrev pub AreRedacted : List ProviderEvent → Type 0
AreRedacted [] = Unit
AreRedacted (e ∷ es) = IsRedacted e × AreRedacted es
