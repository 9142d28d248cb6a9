-- ===== src/Anchoring/Canonical.antt =====
-- canonical_json of app/services/anchoring/canonical.py: JSON text of one form only, with the keys of
-- an object in the order of their UTF-16 code units. A text is a list of code points. A dictionary is
-- the list of its fields; its values are the ones the encoder takes, so the refusal of other types has
-- no counterpart.
pub mod Reader
pub mod Scalars
pub mod RoundTrip
pub mod Order
use vekro_backend.Base.{
  ℕ, zero, suc, ◌+◌, ◌-◌, ◌*◌, ◌/◌, ◌%◌, ◌^◌, ◌==◌, leb, ltb, Bool, true, false, not, ◌&&◌, ◌||◌,
  Option, none, some, List, [], ◌∷◌, ◌++◌, all, Text, codes, ℤ, pos, negsuc, if◌then◌else◌,
}

-- `Items` and `Fields` are what an array and an object hold.
mutual
  pub data Json : Type 0 where
    null : Json
    flag : Bool → Json
    integer : ℤ → Json
    string : Text → Json
    array : Items → Json
    object : Fields → Json

  pub data Items : Type 0 where
    no_items : Items
    item : Json → Items → Items

  pub data Fields : Type 0 where
    no_fields : Fields
    field : Text → Json → Fields → Fields

-- MAX_SAFE_INTEGER
abbrev pub max_safe_integer : ℕ
max_safe_integer = 2 ^ 53 - 1

abbrev pub is_safe : ℤ → Bool
is_safe (pos n) = leb n max_safe_integer
is_safe (negsuc n) = leb (suc n) max_safe_integer

-- What `_utf8` accepts: code points but the surrogates.
abbrev pub is_scalar : ℕ → Bool
is_scalar c = not (leb 0xd800 c && leb c 0xdfff)

abbrev pub is_valid_text : Text → Bool
is_valid_text s = all is_scalar s

unfoldable mutual
  pub is_encodable : Json → Bool
  is_encodable null = true
  is_encodable (flag b) = true
  is_encodable (integer n) = is_safe n
  is_encodable (string s) = is_valid_text s
  is_encodable (array xs) = are_encodable xs
  is_encodable (object fs) = have_encodable fs

  pub are_encodable : Items → Bool
  are_encodable no_items = true
  are_encodable (item v xs) = is_encodable v && are_encodable xs

  pub have_encodable : Fields → Bool
  have_encodable no_fields = true
  have_encodable (field k v fs) = is_valid_text k && (is_encodable v && have_encodable fs)

-- `key.encode("utf-16-be", "surrogatepass")`, by code units
unfoldable pub utf16 : Text → List ℕ
utf16 [] = []
utf16 (c ∷ cs) =
    let rest = utf16 cs in
    if ltb c 0x10000
    then c ∷ rest
    else (0xd800 + (c - 0x10000) / 0x400) ∷ (0xdc00 + (c - 0x10000) % 0x400) ∷ rest

unfoldable pub comes_before : List ℕ → List ℕ → Bool
comes_before [] [] = false
comes_before [] (b ∷ t) = true
comes_before (a ∷ s) [] = false
comes_before (a ∷ s) (b ∷ t) = ltb a b || (a == b && comes_before s t)

-- `items.sort(key=...)`
unfoldable pub place : Text → Json → Fields → Fields
unfolding comes_before utf16
place k v no_fields = field k v no_fields
place k v (field l w fs) =
    let rest = place k v fs in
    if comes_before (utf16 l) (utf16 k) then field l w rest else field k v (field l w fs)

-- A value with its keys in order, at every depth.
unfoldable mutual
  unfolding place

  pub ordered : Json → Json
  ordered null = null
  ordered (flag b) = flag b
  ordered (integer n) = integer n
  ordered (string s) = string s
  ordered (array xs) = array (ordered_items xs)
  ordered (object fs) = object (ordered_fields fs)

  pub ordered_items : Items → Items
  ordered_items no_items = no_items
  ordered_items (item v xs) = item (ordered v) (ordered_items xs)

  pub ordered_fields : Fields → Fields
  ordered_fields no_fields = no_fields
  ordered_fields (field k v fs) = place k (ordered v) (ordered_fields fs)

-- The writers below put the text in front of what follows it.

-- `str(n)`: the digits, on fuel; as much as the number itself is enough.
unfoldable pub decimal : ℕ → ℕ → Text → Text
decimal zero n rest = (b'0' + n % 10) ∷ rest
decimal (suc fuel) n rest = elim (ltb n 10) [
  | true ↦ (b'0' + n) ∷ rest
  | false ↦ decimal fuel (n / 10) ((b'0' + n % 10) ∷ rest)
]

abbrev pub write_integer : ℤ → Text → Text
write_integer (pos n) rest = decimal n n rest
write_integer (negsuc n) rest = b'-' ∷ decimal (suc n) (suc n) rest

-- `_SHORT_ESCAPES`: the letter behind the backslash.
abbrev pub short_escape : ℕ → Option ℕ
short_escape c =
    if c == b'"'
    then some b'"'
    else if c == 92
    then some 92
    else if c == 8
    then some b'b'
    else if c == 12
    then some b'f'
    else if c == 10
    then some b'n'
    else if c == 13
    then some b'r'
    else if c == 9
    then some b't'
    else none

abbrev pub hex_digit : ℕ → ℕ
hex_digit d = if ltb d 10 then b'0' + d else b'a' + (d - 10)

unfoldable pub escape : ℕ → Text → Text
escape c rest = elim (short_escape c) [
  | some letter ↦ 92 ∷ letter ∷ rest
  | none ↦
      if ltb c 0x20
      then 92 ∷ b'u' ∷ b'0' ∷ b'0' ∷ hex_digit (c / 16) ∷ hex_digit (c % 16) ∷ rest
      else c ∷ rest
]

-- `_string`, behind its opening quote
unfoldable pub escaped : Text → Text → Text
unfolding escape
escaped [] rest = b'"' ∷ rest
escaped (c ∷ cs) rest = escape c (escaped cs rest)

abbrev pub separated : Bool → Text → Text
separated true rest = rest
separated false rest = b',' ∷ rest

-- `_encode`; the items and fields of one call know whether they are the first.
unfoldable mutual
  unfolding escaped decimal

  pub write : Json → Text → Text
  write null rest = codes "null" ++ rest
  write (flag true) rest = codes "true" ++ rest
  write (flag false) rest = codes "false" ++ rest
  write (integer n) rest = write_integer n rest
  write (string s) rest = b'"' ∷ escaped s rest
  write (array xs) rest = b'[' ∷ write_items true xs rest
  write (object fs) rest = b'{' ∷ write_fields true fs rest

  pub write_items : Bool → Items → Text → Text
  write_items begin no_items rest = b']' ∷ rest
  write_items begin (item v xs) rest = separated begin (write v (write_items false xs rest))

  pub write_fields : Bool → Fields → Text → Text
  write_fields begin no_fields rest = b'}' ∷ rest
  write_fields begin (field k v fs) rest =
      separated begin (b'"' ∷ escaped k (b':' ∷ write v (write_fields false fs rest)))

-- `canonical_json`; none is CanonicalEncodingError.
unfoldable pub canonical_json : Json → Option Text
unfolding is_encodable ordered write
canonical_json v = if is_encodable v then some (write (ordered v) []) else none
