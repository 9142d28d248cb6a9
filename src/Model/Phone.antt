-- ===== src/Model/Phone.antt =====
-- normalize_phone of app/core/phone.py, on ASCII text.
use vekro_backend.Base.{
  ℕ, ◌==◌, leb, Bool, false, not, ◌&&◌, ◌||◌, Option, none, some, [], ◌∷◌, ◌++◌, keep, all, length,
  is_empty, is_space, strip, codes, Text, if◌then◌else◌,
}

abbrev pub is_digit : ℕ → Bool
is_digit c = leb b'0' c && leb c b'9'

-- What `re.sub(r"[\s\-()]", "", ...)` leaves.
abbrev pub is_kept : ℕ → Bool
is_kept c = not (is_space c || c == b'-' || c == b'(' || c == b')')

abbrev pub has_plus : Text → Bool
has_plus [] = false
has_plus (c ∷ _) = c == b'+'

abbrev pub without_plus : Text → Text
without_plus [] = []
without_plus (c ∷ cs) = if c == b'+' then cs else c ∷ cs

abbrev pub is_mobile_start : ℕ → Bool
is_mobile_start c = c == b'7' || c == b'1'

-- `raw_digits.startswith("254")`
abbrev pub has_country_code : Text → Bool
has_country_code (a ∷ b ∷ c ∷ _) = a == b'2' && b == b'5' && c == b'4'
has_country_code _ = false

-- The second and the third form of `_canonicalize_kenyan_phone`: a leading zero, and none.
abbrev pub local_number : Text → Option Text
local_number [] = none
local_number (a ∷ []) = none
local_number (a ∷ b ∷ rest) =
    if a == b'0' && length rest == 8 && is_mobile_start b
    then some (codes "+254" ++ (b ∷ rest))
    else if length rest == 7 && is_mobile_start a
    then some (codes "+254" ++ (a ∷ b ∷ rest))
    else none

-- `_canonicalize_kenyan_phone`
unfoldable pub canonicalize_kenyan_phone : Text → Option Text
canonicalize_kenyan_phone raw_digits =
    if has_country_code raw_digits && length raw_digits == 12
    then some (codes "+" ++ raw_digits)
    else local_number raw_digits

-- The length that PHONE_PATTERN asks of the digits.
abbrev pub phone_length : Text → Bool
phone_length raw_digits = leb 7 (length raw_digits) && leb (length raw_digits) 15

unfoldable pub normalize_digits : Bool → Text → Option Text
unfolding canonicalize_kenyan_phone
normalize_digits had_plus_prefix raw_digits =
    if is_empty raw_digits || not (all is_digit raw_digits)
    then none
    else elim (canonicalize_kenyan_phone raw_digits) [
      | some canonical ↦ some canonical
      | none ↦
          if phone_length raw_digits
          then some (if had_plus_prefix then codes "+" ++ raw_digits else raw_digits)
          else none
    ]

-- `normalize_phone` of a value; `none` is its ValueError.
unfoldable pub normalize_phone : Text → Option Text
unfolding normalize_digits strip
normalize_phone value =
    let normalized = keep is_kept (strip value) in
    normalize_digits (has_plus normalized) (without_plus normalized)
