-- ===== src/Anchoring/Canonical/Order.antt =====
-- The order in which a dictionary holds its keys does not matter.
use vekro_backend.Base.{
  ℕ, ◌≡◌, ◌≢◌, refl, sym, ap, ◌∙◌, arith, Bool, true, false, Bool-cases, inl, inr, ◌⊎◌, ◌&&◌, none,
  some, List, [], ◌∷◌, Text, if◌then◌else◌,
}
use vekro_backend.Anchoring.Canonical.{
  Json, object, Fields, no_fields, field, utf16, comes_before, place, ordered, ordered_fields,
  is_encodable, have_encodable, is_valid_text, write, canonical_json,
}

comes_before_trans :
    (r s t : List ℕ) → comes_before r s ≡ true → comes_before s t ≡ true → comes_before r t ≡ true
unfolding comes_before
comes_before_trans [] [] t h g = cc
comes_before_trans [] (b ∷ s) [] h g = cc
comes_before_trans [] (b ∷ s) (c ∷ t) h g = refl
comes_before_trans (a ∷ r) [] t h g = cc
comes_before_trans (a ∷ r) (b ∷ s) [] h g = cc
comes_before_trans (a ∷ r) (b ∷ s) (c ∷ t) h g = ground (arith, comes_before_trans r s t)

-- Of two lists of code units, one comes before the other, or they are one.
order_cases :
    (s t : List ℕ)
    → (s ≡ t)
      ⊎ (((comes_before s t ≡ true) × (comes_before t s ≡ false))
          ⊎ ((comes_before t s ≡ true) × (comes_before s t ≡ false)))
unfolding comes_before
order_cases [] [] = inl refl
order_cases [] (b ∷ t) = inr (inl (refl, refl))
order_cases (a ∷ s) [] = inr (inr (refl, refl))
order_cases (a ∷ s) (b ∷ t) = ground (arith, order_cases s t)

place-behind :
    (k m : Text) (v x : Json) (fs : Fields)
    → comes_before (utf16 m) (utf16 k) ≡ true
    → place k v (field m x fs) ≡ field m x (place k v fs)
unfolding place
place-behind k m v x fs h = rw (h, place) refl

place-front :
    (k m : Text) (v x : Json) (fs : Fields)
    → comes_before (utf16 m) (utf16 k) ≡ false
    → place k v (field m x fs) ≡ field k v (field m x fs)
unfolding place
place-front k m v x fs h = rw (h, place) refl

place-place :
    (k l : Text) (v w : Json) (fs : Fields)
    → comes_before (utf16 k) (utf16 l) ≡ true
    → comes_before (utf16 l) (utf16 k) ≡ false
    → place k v (place l w fs) ≡ place l w (place k v fs)
unfolding place
place-place k l v w no_fields before after = rw (before, after, place) refl
place-place k l v w (field m x fs) before after =
    elim (Bool-cases (comes_before (utf16 m) (utf16 k))) [
      | inl early ↦
          let earlier = comes_before_trans (utf16 m) (utf16 k) (utf16 l) early before in
          ap (place k v) (place-behind l m w x fs earlier)
          ∙ place-behind k m v x (place l w fs) early
          ∙ ap (field m x) (place-place k l v w fs before after)
          ∙ sym (place-behind l m w x (place k v fs) earlier)
          ∙ sym (ap (place l w) (place-behind k m v x fs early))
      | inr late ↦
          let right : place l w (place k v (field m x fs)) ≡ field k v (place l w (field m x fs)) =
            ap (place l w) (place-front k m v x fs late)
            ∙ place-behind l k w v (field m x fs) before in
          let left : place k v (place l w (field m x fs)) ≡ field k v (place l w (field m x fs)) =
            elim (Bool-cases (comes_before (utf16 m) (utf16 l))) [
              | inl between ↦
                  let there = place-behind l m w x fs between in
                  ap (place k v) there
                  ∙ place-front k m v x (place l w fs) late
                  ∙ ap (field k v) (sym there)
              | inr last ↦
                  let there = place-front l m w x fs last in
                  ap (place k v) there
                  ∙ place-front k l v w (field m x fs) after
                  ∙ ap (field k v) (sym there)
            ] in
          left ∙ sym right
    ]

-- Two dictionaries with the same fields, held in another order: neighbours whose keys differ as UTF-16
-- have changed places, some number of times.
pub data Shuffled : Fields → Fields → Type 0 where
  unmoved : (fs : Fields) → Shuffled fs fs
  swapped :
      (k l : Text) (v w : Json) (fs : Fields)
      → utf16 k ≢ utf16 l
      → Shuffled (field k v (field l w fs)) (field l w (field k v fs))
  behind :
      (k : Text) (v : Json) (fs gs : Fields)
      → Shuffled fs gs
      → Shuffled (field k v fs) (field k v gs)
  again : (fs gs hs : Fields) → Shuffled fs gs → Shuffled gs hs → Shuffled fs hs

place-swapped :
    (k l : Text) (v w : Json) (fs : Fields)
    → utf16 k ≢ utf16 l
    → place k v (place l w fs) ≡ place l w (place k v fs)
place-swapped k l v w fs differ = elim (order_cases (utf16 k) (utf16 l)) [
  | inl same ↦ absurd (differ same)
  | inr (inl (before, after)) ↦ place-place k l v w fs before after
  | inr (inr (before, after)) ↦ sym (place-place l k w v fs before after)
]

ordered_fields-Shuffled : (fs gs : Fields) → Shuffled fs gs → ordered_fields fs ≡ ordered_fields gs
unfolding ordered_fields
ordered_fields-Shuffled _ _ (unmoved fs) = refl
ordered_fields-Shuffled _ _ (swapped k l v w fs differ) =
    place-swapped k l (ordered v) (ordered w) (ordered_fields fs) differ
ordered_fields-Shuffled _ _ (behind k v fs gs s) =
    ap (place k (ordered v)) (ordered_fields-Shuffled fs gs s)
ordered_fields-Shuffled _ _ (again fs gs hs s t) =
    ordered_fields-Shuffled fs gs s ∙ ordered_fields-Shuffled gs hs t

and_swap : (a b c d e : Bool) → (a && (b && (c && (d && e)))) ≡ (c && (d && (a && (b && e))))
and_swap true true true true e = refl
and_swap a b c d e = ground arith

have_encodable-Shuffled : (fs gs : Fields) → Shuffled fs gs → have_encodable fs ≡ have_encodable gs
unfolding have_encodable
have_encodable-Shuffled _ _ (unmoved fs) = refl
have_encodable-Shuffled _ _ (swapped k l v w fs differ) =
    and_swap (is_valid_text k) (is_encodable v) (is_valid_text l) (is_encodable w)
      (have_encodable fs)
have_encodable-Shuffled _ _ (behind k v fs gs s) =
    ap (λ b. is_valid_text k && (is_encodable v && b)) (have_encodable-Shuffled fs gs s)
have_encodable-Shuffled _ _ (again fs gs hs s t) =
    have_encodable-Shuffled fs gs s ∙ have_encodable-Shuffled gs hs t

-- The text of a dictionary does not depend on the order in which it holds its fields, if neighbours
-- that change places have keys that differ as UTF-16.
pub canonical_json-Shuffled :
    (fs gs : Fields) → Shuffled fs gs → canonical_json (object fs) ≡ canonical_json (object gs)
unfolding canonical_json
canonical_json-Shuffled fs gs s i =
    if have_encodable-Shuffled fs gs s i
    then some (write (object (ordered_fields-Shuffled fs gs s i)) [])
    else none
