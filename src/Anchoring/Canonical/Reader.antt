-- ===== src/Anchoring/Canonical/Reader.antt =====
-- A reader of JSON text, written from the grammar of RFC 8259 and not from the writer: what a
-- verifier takes the text for. It refuses what the grammar does not allow (an escape that is not
-- listed there or lacks one of its four hex digits, a control character in a string, a leading zero,
-- a number without digits) and surrogates that are no pair. Of the grammar it takes the part that
-- canonical text uses: no white space, fractions or exponents, and no -0. It does not look for keys
-- that occur twice. It runs on fuel, of which twice the length of the text is enough.
use vekro_backend.Base.{
  ℕ, zero, suc, ◌+◌, ◌-◌, ◌*◌, ◌==◌, leb, ltb, Bool, true, false, not, ◌&&◌, ◌||◌, Option, none,
  some, [], ◌∷◌, Text, codes, length, pos, negsuc, if◌then◌else◌,
}
use vekro_backend.Anchoring.Canonical.{
  Json, null, flag, integer, string, array, object, Items, no_items, item, Fields, no_fields, field,
}

abbrev pub is_digit : ℕ → Bool
is_digit c = leb b'0' c && leb c b'9'

-- The digits in front, behind a number that is read already.
unfoldable pub read_digits : ℕ → Text → ℕ × Text
read_digits n [] = (n, [])
read_digits n (c ∷ cs) = elim (is_digit c) [
  | true ↦ read_digits (n * 10 + (c - b'0')) cs
  | false ↦ (n, c ∷ cs)
]

abbrev pub starts_digit : Text → Bool
starts_digit [] = false
starts_digit (c ∷ cs) = is_digit c

-- One digit at least, and no zero before another digit.
unfoldable pub read_number : Text → Option (ℕ × Text)
unfolding read_digits
read_number [] = none
read_number (c ∷ cs) =
    if is_digit c && not (c == b'0' && starts_digit cs) then some (read_digits 0 (c ∷ cs)) else none

abbrev pub negative : ℕ → Option Json
negative zero = none
negative (suc n) = some (integer (negsuc n))

unfoldable pub after_word : Text → Text → Option Text
after_word [] rest = some rest
after_word (w ∷ ws) [] = none
after_word (w ∷ ws) (c ∷ cs) = elim (w == c) [ true ↦ after_word ws cs | false ↦ none ]

abbrev pub then_text : {A : Type 0} → Option Text → (Text → Option A) → Option A
then_text none k = none
then_text (some rest) k = k rest

abbrev pub hex_value : ℕ → Option ℕ
hex_value d =
    if is_digit d
    then some (d - b'0')
    else if leb b'a' d && leb d b'f'
    then some (d - b'a' + 10)
    else if leb b'A' d && leb d b'F'
    then some (d - b'A' + 10)
    else none

-- So many hex digits, behind a number that is read already.
unfoldable pub read_hex : ℕ → ℕ → Text → Option (ℕ × Text)
read_hex zero n text = some (n, text)
read_hex (suc k) n [] = none
read_hex (suc k) n (c ∷ cs) = elim (hex_value c) [
  | none ↦ none
  | some d ↦ read_hex k (n * 16 + d) cs
]

abbrev pub is_high : ℕ → Bool
is_high u = leb 0xd800 u && leb u 0xdbff

abbrev pub is_low : ℕ → Bool
is_low u = leb 0xdc00 u && leb u 0xdfff

abbrev pub pair_with : ℕ → Option (ℕ × Text) → Option (ℕ × Text)
pair_with high none = none
pair_with high (some (low, rest)) =
    if is_low low then some (0x10000 + (high - 0xd800) * 0x400 + (low - 0xdc00), rest) else none

-- The character of a code unit: two escapes make the pair of a character beyond 0xffff.
abbrev pub from_unit : Option (ℕ × Text) → Option (ℕ × Text)
from_unit none = none
from_unit (some (u, rest)) =
    if is_high u
    then pair_with u (then_text (after_word (92 ∷ b'u' ∷ []) rest) (read_hex 4 0))
    else if is_low u
    then none
    else some (u, rest)

abbrev pub short_value : ℕ → Option ℕ
short_value e =
    if e == b'"' || (e == 92 || e == b'/')
    then some e
    else if e == b'b'
    then some 8
    else if e == b'f'
    then some 12
    else if e == b'n'
    then some 10
    else if e == b'r'
    then some 13
    else if e == b't'
    then some 9
    else none

abbrev pub with_rest : Option ℕ → Text → Option (ℕ × Text)
with_rest none rest = none
with_rest (some c) rest = some (c, rest)

-- The character behind a backslash.
abbrev pub unescape : Text → Option (ℕ × Text)
unescape [] = none
unescape (e ∷ cs) = if e == b'u' then from_unit (read_hex 4 0 cs) else with_rest (short_value e) cs

abbrev pub prepend : ℕ → Option (Text × Text) → Option (Text × Text)
prepend c none = none
prepend c (some (s, rest)) = some (c ∷ s, rest)

-- A string up to its closing quote.
unfoldable pub read_chars : ℕ → Text → Option (Text × Text)
unfolding read_hex after_word
read_chars zero text = none
read_chars (suc fuel) [] = none
read_chars (suc fuel) (c ∷ cs) = elim (c == b'"') [
  | true ↦ some ([], cs)
  | false ↦ elim (c == 92) [
    | false ↦ elim (ltb c 0x20) [ true ↦ none | false ↦ prepend c (read_chars fuel cs) ]
    | true ↦ elim (unescape cs) [ none ↦ none | some (d, rest) ↦ prepend d (read_chars fuel rest) ]
  ]
]

-- What a value begins with.
pub data Kind : Type 0 where
  null_kind true_kind false_kind string_kind array_kind object_kind minus_kind digit_kind no_kind :
      Kind

abbrev pub kind_of : ℕ → Kind
kind_of c =
    if c == b'n'
    then null_kind
    else if c == b't'
    then true_kind
    else if c == b'f'
    then false_kind
    else if c == b'"'
    then string_kind
    else if c == b'['
    then array_kind
    else if c == b'{'
    then object_kind
    else if c == b'-'
    then minus_kind
    else if is_digit c
    then digit_kind
    else no_kind

module _ {A B : Type 0} where
  -- The rest of a reading, with what was read.
  abbrev pub and_then : Option (A × Text) → (A → Text → Option (B × Text)) → Option (B × Text)
  and_then none k = none
  and_then (some (a, rest)) k = k a rest

abbrev pub word_then : Option Text → Json → Option (Json × Text)
word_then none v = none
word_then (some rest) v = some (v, rest)

abbrev pub after_char : ℕ → Text → Option Text
after_char w [] = none
after_char w (c ∷ cs) = if c == w then some cs else none

-- The comma before an item that is not the first.
abbrev pub after_separator : Bool → Text → Option Text
after_separator true text = some text
after_separator false text = after_char b',' text

unfoldable mutual
  unfolding read_number read_chars after_word

  pub read : ℕ → Text → Option (Json × Text)
  read zero text = none
  read (suc fuel) [] = none
  read (suc fuel) (c ∷ cs) = elim (kind_of c) [
    | null_kind ↦ word_then (after_word (codes "ull") cs) null
    | true_kind ↦ word_then (after_word (codes "rue") cs) (flag true)
    | false_kind ↦ word_then (after_word (codes "alse") cs) (flag false)
    | string_kind ↦ and_then (read_chars fuel cs) (λ s rest. some (string s, rest))
    | array_kind ↦ and_then (read_items fuel true cs) (λ xs rest. some (array xs, rest))
    | object_kind ↦ and_then (read_fields fuel true cs) (λ fs rest. some (object fs, rest))
    | minus_kind ↦
        and_then (read_number cs)
          (λ n rest. elim (negative n) [ none ↦ none | some v ↦ some (v, rest) ])
    | digit_kind ↦ and_then (read_number (c ∷ cs)) (λ n rest. some (integer (pos n), rest))
    | no_kind ↦ none
  ]

  pub read_items : ℕ → Bool → Text → Option (Items × Text)
  read_items zero begin text = none
  read_items (suc fuel) begin [] = none
  read_items (suc fuel) begin (c ∷ cs) = elim (c == b']') [
    | true ↦ some (no_items, cs)
    | false ↦ then_text (after_separator begin (c ∷ cs)) (λ rest.
        and_then (read fuel rest)
          (λ v more. and_then (read_items fuel false more) (λ xs last. some (item v xs, last))))
  ]

  pub read_fields : ℕ → Bool → Text → Option (Fields × Text)
  read_fields zero begin text = none
  read_fields (suc fuel) begin [] = none
  read_fields (suc fuel) begin (c ∷ cs) = elim (c == b'}') [
    | true ↦ some (no_fields, cs)
    | false ↦ then_text (after_separator begin (c ∷ cs)) (λ start.
        then_text (after_char b'"' start) (λ key. and_then (read_chars fuel key) (λ k behind.
          then_text (after_char b':' behind) (λ value. and_then (read fuel value) (λ v more.
            and_then (read_fields fuel false more) (λ fs last. some (field k v fs, last)))))))
  ]

-- The value that a whole text stands for.
abbrev pub whole : {A : Type 0} → Option (A × Text) → Option A
whole none = none
whole (some (v, [])) = some v
whole (some (v, c ∷ cs)) = none

unfoldable pub read_json : Text → Option Json
unfolding read
read_json text = whole (read (2 * length text) text)
