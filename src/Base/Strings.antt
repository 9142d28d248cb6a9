-- ===== src/Base/Strings.antt =====
-- Text as its ASCII code points, and Python's `str.strip`.
use vekro_backend.Base.Tests.{◌==◌, leb, if◌then◌else◌, eqb_refl, eqb→eq, Bool-cases}
use mathlib.Core.Path.{◌≡◌, refl, sym, ◌∙◌, subst}
use mathlib.Core.Logic.{inl, inr}
use native.Mathlib.Omega.{arith}
use Prim.Native.Nat.{ℕ, ◌+◌}
use Prim.Native.Char.{code}
use Prim.Native.String.{String}
use mathlib.Core.Bool.{Bool, true, false, ◌&&◌, ◌||◌}
use mathlib.Core.List.{List, [], ◌∷◌, reverse, map}
use mathlib.Core.Option.{Option, none, some}

abbrev pub Text : Type 0
Text = List ℕ

-- `str.isspace` on ASCII: tab to carriage return, the four separators and the space.
abbrev pub is_space : ℕ → Bool
is_space c = (leb 9 c && leb c 13) || (leb 28 c && leb c 32)

unfoldable pub lstrip : Text → Text
lstrip [] = []
lstrip (c ∷ cs) = let rest = lstrip cs in if is_space c then rest else c ∷ cs

unfoldable pub strip : Text → Text
unfolding lstrip
strip s = reverse (lstrip (reverse (lstrip s)))

abbrev pub is_empty : Text → Bool
is_empty [] = true
is_empty (_ ∷ _) = false

-- `s or None`
abbrev pub non_empty : Text → Option Text
non_empty [] = none
non_empty (c ∷ cs) = some (c ∷ cs)

-- `a or b` on texts that may be missing: an empty text counts as missing.
abbrev pub or_text : Option Text → Option Text → Option Text
or_text (some (c ∷ cs)) b = some (c ∷ cs)
or_text _ b = b

-- The code points of a literal.
abbrev pub codes : String → Text
codes String.[] = []
codes (String.◌∷◌ c s) = code c ∷ codes s

unfoldable pub text_eq : Text → Text → Bool
text_eq [] [] = true
text_eq (a ∷ s) (b ∷ t) = a == b && text_eq s t
text_eq _ _ = false

-- `str.lower` on ASCII
abbrev pub lower_char : ℕ → ℕ
lower_char c = if leb b'A' c && leb c b'Z' then c + 32 else c

abbrev pub underscore : ℕ → ℕ
underscore c = if c == b'-' || c == b' ' then b'_' else c

-- `s.strip().lower().replace("-", "_").replace(" ", "_")`
unfoldable pub normalize_word : Text → Text
unfolding strip
normalize_word s = map underscore (map lower_char (strip s))

pub text_eq_refl : (s : Text) → text_eq s s ≡ true
unfolding text_eq
text_eq_refl [] = refl
text_eq_refl (c ∷ s) = ground (arith, text_eq_refl s, eqb_refl c)

pub text_eq→eq : (s t : Text) → text_eq s t ≡ true → s ≡ t
unfolding text_eq
text_eq→eq [] [] h = refl
text_eq→eq [] (b ∷ t) h = cc
text_eq→eq (a ∷ s) [] h = cc
text_eq→eq (a ∷ s) (b ∷ t) h = elim (Bool-cases (a == b)) [
  | inl same ↦ (λ i. eqb→eq a b same i ∷ text_eq→eq s t (rw same at h) i)
  | inr other ↦ let clash : false ≡ true = rw other at h in cc
]

pub text_eq_sym : (s t : Text) → text_eq t s ≡ false → text_eq s t ≡ false
unfolding text_eq
text_eq_sym s t h = elim (Bool-cases (text_eq s t)) [
  | inl same ↦
      let e : text_eq t s ≡ true =
        subst (λ x. text_eq x s ≡ true) (text_eq→eq s t same) (text_eq_refl s) in
      let clash : false ≡ true = sym h ∙ e in cc
  | inr differ ↦ differ
]
