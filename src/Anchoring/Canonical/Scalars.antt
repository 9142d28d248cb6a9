-- ===== src/Anchoring/Canonical/Scalars.antt =====
-- Numbers and strings are read back.
use vekro_backend.Base.{
  ℕ, zero, suc, ◌+◌, ◌-◌, ◌*◌, ◌/◌, ◌%◌, ◌==◌, ◌≤◌, ◌<◌, ◌≡◌, refl, sym, ap, ◌∙◌, arith, ltb, true,
  false, Bool-cases, Option-cases, inl, inr, none, some, [], ◌∷◌, Text, length,
}
use vekro_backend.Anchoring.Canonical.{decimal, short_escape, hex_digit, escape, escaped}
use vekro_backend.Anchoring.Canonical.Reader.{
  is_digit, read_digits, starts_digit, read_number, hex_value, read_hex, is_high, is_low, from_unit,
  short_value, prepend, read_chars,
}

read_digits-end : (n : ℕ) (rest : Text) → starts_digit rest ≡ false → read_digits n rest ≡ (n, rest)
unfolding read_digits
read_digits-end n [] h = refl
read_digits-end n (c ∷ cs) h = rw (h, read_digits) refl

read_one :
    (n d : ℕ) (rest : Text)
    → d < 10
    → read_digits n ((b'0' + d) ∷ rest) ≡ read_digits (n * 10 + d) rest
unfolding read_digits
read_one n d rest h =
    let digit : is_digit (b'0' + d) ≡ true = ground arith in
    let value : b'0' + d - b'0' ≡ d = omega arith in rw (digit, read_digits) (rw value refl)

read_digits-decimal :
    (fuel n : ℕ) (rest : Text) → n ≤ fuel → read_digits 0 (decimal fuel n rest) ≡ read_digits n rest
unfolding decimal
read_digits-decimal zero n rest h =
    let none_left : n ≡ 0 = omega arith in
    read_one 0 (n % 10) rest (omega arith) ∙ ap (λ x. read_digits x rest) (omega arith)
read_digits-decimal (suc fuel) n rest h = elim (Bool-cases (ltb n 10)) [
  | inl small ↦
      let below : n < 10 = ground arith in
      rw (small, decimal) (read_one 0 n rest below ∙ ap (λ x. read_digits x rest) (omega arith))
  | inr large ↦
      let above : 10 ≤ n = ground arith in
      rw (large, decimal)
        (read_digits-decimal fuel (n / 10) ((b'0' + n % 10) ∷ rest) (omega arith)
          ∙ read_one (n / 10) (n % 10) rest (omega arith)
          ∙ ap (λ x. read_digits x rest) (omega arith))
]

pub decimal-grows : (fuel n : ℕ) (rest : Text) → suc (length rest) ≤ length (decimal fuel n rest)
unfolding decimal
decimal-grows zero n rest = omega arith
decimal-grows (suc fuel) n rest = elim (Bool-cases (ltb n 10)) [
  | inl small ↦ rw (small, decimal) (omega arith)
  | inr large ↦
      let ih = decimal-grows fuel (n / 10) ((b'0' + n % 10) ∷ rest) in
      rw (large, decimal) (omega (arith, ih))
]

-- A number begins with a digit, which is zero for the number zero only.
pub decimal_head :
    (fuel n : ℕ) (rest : Text)
    → n ≤ fuel
    → (c : ℕ) × (cs : Text) × (decimal fuel n rest ≡ c ∷ cs)
      × (is_digit c ≡ true)
      × (c ≡ b'0' → n ≡ 0)
unfolding decimal
decimal_head zero n rest h = (b'0' + n % 10, rest, refl, ground arith, λ z. omega arith)
decimal_head (suc fuel) n rest h = elim (Bool-cases (ltb n 10)) [
  | inl small ↦ (b'0' + n, rest, rw (small, decimal) refl, ground arith, λ z. omega arith)
  | inr large ↦
      let above : 10 ≤ n = ground arith in
      let (c, cs, e, d, zero_only) =
        decimal_head fuel (n / 10) ((b'0' + n % 10) ∷ rest) (omega arith) in
      (c, cs, rw (large, decimal) e, d, λ z. let none_left = zero_only z in omega arith)
]

read_number-zero :
    (fuel : ℕ) (rest : Text)
    → starts_digit rest ≡ false
    → read_number (decimal fuel 0 rest) ≡ some (0, rest)
unfolding decimal read_number
read_number-zero zero rest h =
    rw h (ap some (read_one 0 0 rest (omega arith) ∙ read_digits-end 0 rest h))
read_number-zero (suc fuel) rest h =
    rw h (ap some (read_one 0 0 rest (omega arith) ∙ read_digits-end 0 rest h))

-- The digits of a number are read back as the number.
pub read_number-decimal :
    (n : ℕ) (rest : Text)
    → starts_digit rest ≡ false
    → read_number (decimal n n rest) ≡ some (n, rest)
unfolding read_number
read_number-decimal zero rest h = read_number-zero 0 rest h
read_number-decimal (suc m) rest h =
    let n = suc m in
    let (c, cs, e, d, zero_only) = decimal_head n n rest (omega arith) in
    let nonzero : (c == b'0') ≡ false = elim (Bool-cases (c == b'0')) [
      | inr other ↦ other
      | inl first_zero ↦ let none_left = zero_only (ground arith) in absurd (omega arith)
    ] in
    let digits : read_digits 0 (c ∷ cs) ≡ (n, rest) =
      ap (read_digits 0) (sym e)
      ∙ read_digits-decimal n n rest (omega arith)
      ∙ read_digits-end n rest h in
    ap read_number e ∙ rw (d, nonzero, read_number) (ap some digits)

pub escape-grows : (c : ℕ) (rest : Text) → suc (length rest) ≤ length (escape c rest)
unfolding escape
escape-grows c rest = elim (Option-cases (short_escape c)) [
  | inr (letter, short) ↦ rw (short, escape) (omega arith)
  | inl plain ↦ elim (Bool-cases (ltb c 0x20)) [
    | inl control ↦ rw (plain, control, escape) (omega arith)
    | inr other ↦ rw (plain, other, escape) (omega arith)
  ]
]

pub escaped-grows : (s rest : Text) → suc (length rest) ≤ length (escaped s rest)
unfolding escaped
escaped-grows [] rest = omega arith
escaped-grows (c ∷ cs) rest = omega (arith, escaped-grows cs rest, escape-grows c (escaped cs rest))

value-hex : (d : ℕ) → d < 16 → hex_value (hex_digit d) ≡ some d
value-hex d h = ground arith

short-unescape :
    (c letter : ℕ)
    → short_escape c ≡ some letter
    → ((letter == b'u') ≡ false) × (short_value letter ≡ some c)
short-unescape c letter h = ground arith

plain_char : (c : ℕ) → short_escape c ≡ none → ((c == b'"') ≡ false) × ((c == 92) ≡ false)
plain_char c h = ground arith

control-unescape :
    (c : ℕ) (rest : Text)
    → c < 0x20
    → from_unit (read_hex 4 0 (b'0' ∷ b'0' ∷ hex_digit (c / 16) ∷ hex_digit (c % 16) ∷ rest))
      ≡ some (c, rest)
unfolding read_hex
control-unescape c rest low =
    let first = value-hex (c / 16) (omega arith) in
    let second = value-hex (c % 16) (omega arith) in
    let unit : read_hex 4 0 (b'0' ∷ b'0' ∷ hex_digit (c / 16) ∷ hex_digit (c % 16) ∷ rest)
        ≡ some (c, rest) =
      rw (first, read_hex) (rw (second, read_hex) (ap (λ x. some (x, rest)) (omega arith))) in
    let no_high : is_high c ≡ false = ground arith in
    let no_low : is_low c ≡ false = ground arith in ap from_unit unit ∙ rw no_high (rw no_low refl)

read_chars-escape :
    (fuel c : ℕ) (rest : Text)
    → read_chars (suc fuel) (escape c rest) ≡ prepend c (read_chars fuel rest)
unfolding escape read_chars
read_chars-escape fuel c rest = elim (Option-cases (short_escape c)) [
  | inr (letter, short) ↦
      let (other, back) = short-unescape c letter short in
      rw (short, escape) (rw (other, read_chars) (rw (back, read_chars) refl))
  | inl plain ↦
      let (unquoted, unslashed) = plain_char c plain in
      elim (Bool-cases (ltb c 0x20)) [
        | inr other ↦
            rw (plain, other, escape)
              (rw (unquoted, read_chars) (rw (unslashed, read_chars) (rw (other, read_chars) refl)))
        | inl control ↦
            let read_back = control-unescape c rest (ground arith) in
            rw (plain, control, escape) (rw (read_back, read_chars) refl)
      ]
]

pub read_chars-escaped :
    (fuel : ℕ) (s rest : Text)
    → length (escaped s rest) ≤ fuel
    → read_chars fuel (escaped s rest) ≡ some (s, rest)
unfolding escaped read_chars
read_chars-escaped zero s rest h = let some_room = escaped-grows s rest in absurd (omega arith)
read_chars-escaped (suc fuel) [] rest h = refl
read_chars-escaped (suc fuel) (c ∷ cs) rest h =
    let grown = escape-grows c (escaped cs rest) in
    read_chars-escape fuel c (escaped cs rest)
    ∙ ap (prepend c) (read_chars-escaped fuel cs rest (omega arith))
