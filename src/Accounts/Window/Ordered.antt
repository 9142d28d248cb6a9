-- ===== src/Accounts/Window/Ordered.antt =====
-- Buckets that are filled in the order of time: what is stale stands at the front.
use vekro_backend.Base.{
  ℕ, suc, ◌≤◌, ◌≡◌, refl, sym, ap, ◌∙◌, arith, Bool, true, false, Bool-cases, inl, inr, List, [],
  ◌∷◌, ◌++◌, length, if◌then◌else◌,
}
use vekro_backend.Accounts.Window.{expire}

-- How many of the times are not stale.
unfoldable pub count_live : (ℕ → Bool) → List ℕ → ℕ
count_live stale [] = 0
count_live stale (t ∷ ts) = let rest = count_live stale ts in if stale t then rest else suc rest

abbrev pub AreAfter : ℕ → List ℕ → Type 0
AreAfter t [] = Unit
AreAfter t (x ∷ xs) = (t ≤ x) × AreAfter t xs

abbrev pub AreBefore : ℕ → List ℕ → Type 0
AreBefore t [] = Unit
AreBefore t (x ∷ xs) = (x ≤ t) × AreBefore t xs

abbrev pub AreOrdered : List ℕ → Type 0
AreOrdered [] = Unit
AreOrdered (x ∷ xs) = AreAfter x xs × AreOrdered xs

pub AreBefore-later : (s t : ℕ) (xs : List ℕ) → s ≤ t → AreBefore s xs → AreBefore t xs
AreBefore-later s t [] h b = tt
AreBefore-later s t (x ∷ xs) h b = (omega (arith, b.0), AreBefore-later s t xs h b.1)

pub AreBefore-append : (t : ℕ) (xs : List ℕ) → AreBefore t xs → AreBefore t (xs ++ t ∷ [])
AreBefore-append t [] b = (omega arith, tt)
AreBefore-append t (x ∷ xs) b = (b.0, AreBefore-append t xs b.1)

AreAfter-append : (s t : ℕ) (xs : List ℕ) → s ≤ t → AreAfter s xs → AreAfter s (xs ++ t ∷ [])
AreAfter-append s t [] h a = (h, tt)
AreAfter-append s t (x ∷ xs) h a = (a.0, AreAfter-append s t xs h a.1)

pub AreOrdered-append :
    (t : ℕ) (xs : List ℕ) → AreBefore t xs → AreOrdered xs → AreOrdered (xs ++ t ∷ [])
AreOrdered-append t [] b o = (tt, tt)
AreOrdered-append t (x ∷ xs) b o = (AreAfter-append x t xs b.0 o.0, AreOrdered-append t xs b.1 o.1)

-- A test of staleness that goes with the clock: what is stale stays so, and so was all before it.
pub record IsClocked (stale : ℕ → ℕ → Bool) : Type 0 where
  pub stays : (s t x : ℕ) → s ≤ t → stale s x ≡ true → stale t x ≡ true
  pub older : (t x y : ℕ) → x ≤ y → stale t y ≡ true → stale t x ≡ true

module _ (stale : ℕ → ℕ → Bool) (clocked : IsClocked stale) where
  live_after :
      (t x : ℕ) (xs : List ℕ)
      → stale t x ≡ false
      → AreAfter x xs
      → count_live (stale t) xs ≡ length xs
  unfolding count_live
  live_after t x [] h a = refl
  live_after t x (y ∷ ys) h a = elim (Bool-cases (stale t y)) [
    | inl old ↦ let clash : false ≡ true = sym h ∙ clocked.older t x y a.0 old in cc
    | inr live ↦ rw (live, count_live) (ap suc (live_after t x ys h a.1))
  ]

  -- Clearing the front of an ordered bucket leaves exactly what is not stale.
  pub length-expire :
      (t : ℕ) (xs : List ℕ) → AreOrdered xs → length (expire (stale t) xs) ≡ count_live (stale t) xs
  unfolding expire count_live
  length-expire t [] o = refl
  length-expire t (x ∷ xs) o = elim (Bool-cases (stale t x)) [
    | inl old ↦ rw (old, expire, count_live) (length-expire t xs o.1)
    | inr live ↦ rw (live, expire, count_live) (ap suc (sym (live_after t x xs live o.0)))
  ]

  -- Clearing early loses nothing that a later clearing would keep.
  pub expire-append :
      (s t : ℕ) (xs ys : List ℕ)
      → s ≤ t
      → expire (stale t) (expire (stale s) xs ++ ys) ≡ expire (stale t) (xs ++ ys)
  unfolding expire
  expire-append s t [] ys h = refl
  expire-append s t (x ∷ xs) ys h = elim (Bool-cases (stale s x)) [
    | inl old ↦
        rw (old, expire) (expire-append s t xs ys h ∙ rw (clocked.stays s t x h old, expire) refl)
    | inr live ↦ rw (live, expire) refl
  ]

  pub expire-expire :
      (s t : ℕ) (xs : List ℕ) → s ≤ t → expire (stale t) (expire (stale s) xs) ≡ expire (stale t) xs
  unfolding expire
  expire-expire s t [] h = refl
  expire-expire s t (x ∷ xs) h = elim (Bool-cases (stale s x)) [
    | inl old ↦
        rw (old, expire) (expire-expire s t xs h ∙ rw (clocked.stays s t x h old, expire) refl)
    | inr live ↦ rw (live, expire) refl
  ]
