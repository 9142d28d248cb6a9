-- ===== src/Anchoring/Canonical/RoundTrip.antt =====
-- Canonical text is read back as the value that it was written from.
use vekro_backend.Base.{
  ℕ, zero, suc, ◌+◌, ◌*◌, ◌==◌, ◌≤◌, ◌≡◌, refl, sym, ap, ◌∙◌, subst, arith, Bool, true, false,
  Bool-cases, inl, inr, some, [], ◌∷◌, Text, length, pos, negsuc,
}
use vekro_backend.Anchoring.Canonical.{
  Json, null, flag, integer, string, array, object, Items, no_items, item, Fields, no_fields, field,
  decimal, escaped, separated, write, write_items, write_fields, is_encodable, ordered,
  canonical_json,
}
use vekro_backend.Anchoring.Canonical.Reader.{
  is_digit, starts_digit, read_number, after_word, kind_of, digit_kind, read, read_items,
  read_fields, read_json, and_then,
}
use vekro_backend.Anchoring.Canonical.Scalars.{
  read_number-decimal, decimal-grows, decimal_head, escaped-grows, read_chars-escaped,
}

separated-grows : (begin : Bool) (rest : Text) → length rest ≤ length (separated begin rest)
separated-grows true rest = omega arith
separated-grows false rest = omega arith

mutual
  unfolding write write_items write_fields

  write-grows : (v : Json) (rest : Text) → suc (length rest) ≤ length (write v rest)
  write-grows null rest = omega arith
  write-grows (flag true) rest = omega arith
  write-grows (flag false) rest = omega arith
  write-grows (integer (pos n)) rest = decimal-grows n n rest
  write-grows (integer (negsuc n)) rest =
      let grown = decimal-grows (suc n) (suc n) rest in omega (arith, grown)
  write-grows (string s) rest = let grown = escaped-grows s rest in omega (arith, grown)
  write-grows (array xs) rest = let grown = items-grow true xs rest in omega (arith, grown)
  write-grows (object fs) rest = let grown = fields-grow true fs rest in omega (arith, grown)

  items-grow :
      (begin : Bool) (xs : Items) (rest : Text)
      → suc (length rest) ≤ length (write_items begin xs rest)
  items-grow begin no_items rest = omega arith
  items-grow begin (item v xs) rest =
      let more = items-grow false xs rest in
      let grown = write-grows v (write_items false xs rest) in
      let front = separated-grows begin (write v (write_items false xs rest)) in
      omega (arith, more, grown, front)

  fields-grow :
      (begin : Bool) (fs : Fields) (rest : Text)
      → suc (length rest) ≤ length (write_fields begin fs rest)
  fields-grow begin no_fields rest = omega arith
  fields-grow begin (field k v fs) rest =
      let more = fields-grow false fs rest in
      let value = write v (write_fields false fs rest) in
      let grown = write-grows v (write_fields false fs rest) in
      let key = escaped-grows k (b':' ∷ value) in
      let front = separated-grows begin (b'"' ∷ escaped k (b':' ∷ value)) in
      omega (arith, more, grown, key, front)

-- No value begins as an array ends.
digit_no_end : (c : ℕ) → is_digit c ≡ true → ((c == b']') ≡ false) × (kind_of c ≡ digit_kind)
digit_no_end c h = ground arith

write_head :
    (v : Json) (rest : Text)
    → (c : ℕ) × (cs : Text) × (write v rest ≡ c ∷ cs) × ((c == b']') ≡ false)
unfolding write
write_head null rest = (b'n', _, refl, refl)
write_head (flag true) rest = (b't', _, refl, refl)
write_head (flag false) rest = (b'f', _, refl, refl)
write_head (integer (pos n)) rest =
    let (c, cs, e, d, _) = decimal_head n n rest (omega arith) in (c, cs, e, (digit_no_end c d).0)
write_head (integer (negsuc n)) rest = (b'-', _, refl, refl)
write_head (string s) rest = (b'"', _, refl, refl)
write_head (array xs) rest = (b'[', _, refl, refl)
write_head (object fs) rest = (b'{', _, refl, refl)

read-number :
    (fuel n : ℕ) (rest : Text)
    → starts_digit rest ≡ false
    → read (suc fuel) (decimal n n rest) ≡ some (integer (pos n), rest)
unfolding read
read-number fuel n rest h =
    let (c, cs, e, d, _) = decimal_head n n rest (omega arith) in
    let kind = (digit_no_end c d).1 in
    let number : read_number (c ∷ cs) ≡ some (n, rest) =
      ap read_number (sym e) ∙ read_number-decimal n rest h in
    rw e (rw (kind, read) (rw number refl))

read_items-first :
    (fuel : ℕ) (t : Text)
    → (c : ℕ) × (cs : Text) × (t ≡ c ∷ cs) × ((c == b']') ≡ false)
    → read_items (suc fuel) true t
      ≡ and_then
          (read fuel t)
          (λ v more. and_then (read_items fuel false more) (λ xs last. some (item v xs, last)))
unfolding read_items
read_items-first fuel t (c, cs, e, h) =
    ap (read_items (suc fuel) true) e
    ∙ rw (h, read_items) refl
    ∙ ap
        (λ x.
          and_then (read fuel x)
            (λ v more. and_then (read_items fuel false more) (λ xs last. some (item v xs, last))))
        (sym e)

items_no_digit : (xs : Items) (rest : Text) → starts_digit (write_items false xs rest) ≡ false
unfolding write_items
items_no_digit no_items rest = refl
items_no_digit (item v xs) rest = refl

fields_no_digit : (fs : Fields) (rest : Text) → starts_digit (write_fields false fs rest) ≡ false
unfolding write_fields
fields_no_digit no_fields rest = refl
fields_no_digit (field k v fs) rest = refl

mutual
  unfolding read read_items read_fields write write_items write_fields after_word

  read-write :
      (fuel : ℕ) (v : Json) (rest : Text)
      → 2 * length (write v rest) ≤ fuel
      → starts_digit rest ≡ false
      → read fuel (write v rest) ≡ some (v, rest)
  read-write zero v rest h e = let grown = write-grows v rest in absurd (omega arith)
  read-write (suc fuel) null rest h e = refl
  read-write (suc fuel) (flag true) rest h e = refl
  read-write (suc fuel) (flag false) rest h e = refl
  read-write (suc fuel) (integer (pos n)) rest h e = read-number fuel n rest e
  read-write (suc fuel) (integer (negsuc n)) rest h e = rw (read_number-decimal (suc n) rest e) refl
  read-write (suc fuel) (string s) rest h e = rw (read_chars-escaped fuel s rest (omega arith)) refl
  read-write (suc fuel) (array xs) rest h e = rw (items-read fuel true xs rest (omega arith)) refl
  read-write (suc fuel) (object fs) rest h e = rw (fields-read fuel true fs rest (omega arith)) refl

  items-read :
      (fuel : ℕ) (begin : Bool) (xs : Items) (rest : Text)
      → 2 * length (write_items begin xs rest) + 1 ≤ fuel
      → read_items fuel begin (write_items begin xs rest) ≡ some (xs, rest)
  items-read zero begin xs rest h = absurd (omega arith)
  items-read (suc fuel) begin no_items rest h = refl
  items-read (suc fuel) true (item v xs) rest h =
      let tail = write_items false xs rest in
      let grown = write-grows v tail in
      let value = read-write fuel v tail (omega arith) (items_no_digit xs rest) in
      let more = items-read fuel false xs rest (omega (arith, grown)) in
      read_items-first fuel (write v tail) (write_head v tail) ∙ rw value (rw more refl)
  items-read (suc fuel) false (item v xs) rest h =
      let tail = write_items false xs rest in
      let grown = write-grows v tail in
      let value = read-write fuel v tail (omega arith) (items_no_digit xs rest) in
      let more = items-read fuel false xs rest (omega (arith, grown)) in rw value (rw more refl)

  fields-read :
      (fuel : ℕ) (begin : Bool) (fs : Fields) (rest : Text)
      → 2 * length (write_fields begin fs rest) + 1 ≤ fuel
      → read_fields fuel begin (write_fields begin fs rest) ≡ some (fs, rest)
  fields-read zero begin fs rest h = absurd (omega arith)
  fields-read (suc fuel) begin no_fields rest h = refl
  fields-read (suc fuel) true (field k v fs) rest h =
      let tail = write_fields false fs rest in
      let grown = write-grows v tail in
      let name = escaped-grows k (b':' ∷ write v tail) in
      let key = read_chars-escaped fuel k (b':' ∷ write v tail) (omega arith) in
      let value = read-write fuel v tail (omega (arith, name)) (fields_no_digit fs rest) in
      let more = fields-read fuel false fs rest (omega (arith, name, grown)) in
      rw key (rw value (rw more refl))
  fields-read (suc fuel) false (field k v fs) rest h =
      let tail = write_fields false fs rest in
      let grown = write-grows v tail in
      let name = escaped-grows k (b':' ∷ write v tail) in
      let key = read_chars-escaped fuel k (b':' ∷ write v tail) (omega arith) in
      let value = read-write fuel v tail (omega (arith, name)) (fields_no_digit fs rest) in
      let more = fields-read fuel false fs rest (omega (arith, name, grown)) in
      rw key (rw value (rw more refl))

-- The text of a value is read back, by a reader of JSON, as the value with the keys of its objects in
-- order.
pub canonical_json-read :
    (v : Json) (t : Text) → canonical_json v ≡ some t → read_json t ≡ some (ordered v)
unfolding canonical_json read_json
canonical_json-read v t h = elim (Bool-cases (is_encodable v)) [
  | inr refused ↦ cc (rw (refused, canonical_json) at h)
  | inl fine ↦
      let e : some (write (ordered v) []) ≡ some t = rw (fine, canonical_json) at h in
      let text_is : write (ordered v) [] ≡ t = cc in
      let back : read_json (write (ordered v) []) ≡ some (ordered v) =
        rw (read-write (2 * length (write (ordered v) [])) (ordered v) [] (omega arith) refl)
          refl in
      subst (λ x. read_json x ≡ some (ordered v)) text_is back
]

-- Two values with one text are one value, but for the order of keys.
pub canonical_json_injective :
    (v w : Json) (t : Text)
    → canonical_json v ≡ some t
    → canonical_json w ≡ some t
    → ordered v ≡ ordered w
canonical_json_injective v w t h g =
    let one = canonical_json-read v t h in
    let other = canonical_json-read w t g in
    let both : some (ordered v) ≡ some (ordered w) = sym one ∙ other in cc
