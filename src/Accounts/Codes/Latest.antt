-- ===== src/Accounts/Codes/Latest.antt =====
-- The newest code of a phone and purpose, under the writes of one request or try.
use vekro_backend.Base.{
  ℕ, ◌≡◌, refl, sym, ap, ◌∙◌, subst, arith, Bool, true, false, Bool-cases, inl, inr, not, ◌&&◌,
  some, is_some, List, [], ◌∷◌, map, Text, text_eq, text_eq_refl, text_eq→eq, if◌then◌else◌,
}
use vekro_backend.Accounts.State.{CodePurpose, PhoneCode}
use vekro_backend.Accounts.Codes.{same_purpose, is_code_for, latest_code, write_latest, replaced}

pub same_purpose→eq : (a b : CodePurpose) → same_purpose a b ≡ true → a ≡ b
same_purpose→eq a b h = ground arith

pub same_purpose_refl : (a : CodePurpose) → same_purpose a a ≡ true
same_purpose_refl a = ground arith

pub both : (a b : Bool) → (a && b) ≡ true → (a ≡ true) × (b ≡ true)
both a b h = ground arith

-- What a code is for says whether it is for another phone and purpose.
code_for_same :
    (phone other : Text) (purpose wanted : CodePurpose) (c : PhoneCode)
    → is_code_for other wanted c ≡ true
    → is_code_for phone purpose c ≡ (text_eq other phone && same_purpose wanted purpose)
code_for_same phone other purpose wanted c h =
    let (p, q) = both (text_eq c.phone other) (same_purpose c.purpose wanted) h in
    λ i.
      text_eq (text_eq→eq c.phone other p i) phone
      && same_purpose (same_purpose→eq c.purpose wanted q i) purpose

pub latest_phone :
    (phone : Text) (purpose : CodePurpose) (cs : List PhoneCode) (c : PhoneCode)
    → latest_code phone purpose cs ≡ some c
    → (c.phone ≡ phone) × (c.purpose ≡ purpose)
unfolding latest_code
latest_phone phone purpose [] c h = cc
latest_phone phone purpose (d ∷ ds) c h = elim (Bool-cases (is_code_for phone purpose d)) [
  | inl here ↦
      let e : some d ≡ some c = rw (here, latest_code) at h in
      let same : d ≡ c = cc in
      let (p, q) = both (text_eq d.phone phone) (same_purpose d.purpose purpose) here in
      (
        ap (λ x. x.phone) (sym same) ∙ text_eq→eq d.phone phone p,
        ap (λ x. x.purpose) (sym same) ∙ same_purpose→eq d.purpose purpose q,
      )
  | inr later ↦ latest_phone phone purpose ds c (rw (later, latest_code) at h)
]

own_written :
    (new : PhoneCode) (cs : List PhoneCode) (c : PhoneCode)
    → latest_code new.phone new.purpose cs ≡ some c
    → latest_code new.phone new.purpose (write_latest new cs) ≡ some new
unfolding latest_code write_latest
own_written new [] c h = cc
own_written new (d ∷ ds) c h = elim (Bool-cases (is_code_for new.phone new.purpose d)) [
  | inl here ↦
      rw (here, write_latest)
        (rw (text_eq_refl new.phone, same_purpose_refl new.purpose, latest_code) refl)
  | inr later ↦
      rw (later, write_latest)
        (rw (later, latest_code) (own_written new ds c (rw (later, latest_code) at h)))
]

-- Writing the newest code of a phone and purpose makes it the newest one.
pub latest-written :
    (phone : Text) (purpose : CodePurpose) (new : PhoneCode) (cs : List PhoneCode) (c : PhoneCode)
    → new.phone ≡ phone
    → new.purpose ≡ purpose
    → latest_code phone purpose cs ≡ some c
    → latest_code phone purpose (write_latest new cs) ≡ some new
latest-written phone purpose new cs c p q h =
    subst (λ x. latest_code x purpose (write_latest new cs) ≡ some new) p
      (subst (λ y. latest_code new.phone y (write_latest new cs) ≡ some new) q
        (own_written new cs c
          (ap (λ x. latest_code x new.purpose cs) p ∙ ap (λ y. latest_code phone y cs) q ∙ h)))

pub latest-written_other :
    (phone : Text) (purpose : CodePurpose) (new : PhoneCode) (cs : List PhoneCode)
    → is_code_for phone purpose new ≡ false
    → latest_code phone purpose (write_latest new cs) ≡ latest_code phone purpose cs
unfolding latest_code write_latest
latest-written_other phone purpose new [] h = refl
latest-written_other phone purpose new (d ∷ ds) h =
    elim (Bool-cases (is_code_for new.phone new.purpose d)) [
      | inl here ↦
          let other : is_code_for phone purpose d ≡ false =
            code_for_same phone new.phone purpose new.purpose d here ∙ h in
          rw (here, write_latest) (rw (h, other, latest_code) refl)
      | inr later ↦
          rw (later, write_latest, latest_code)
            (ap (λ r. if is_code_for phone purpose d then some d else r)
              (latest-written_other phone purpose new ds h))
    ]

-- A request for another phone or purpose leaves it alone.
pub latest-replaced :
    (phone other : Text) (purpose wanted : CodePurpose) (now : ℕ) (cs : List PhoneCode)
    → (text_eq other phone && same_purpose wanted purpose) ≡ false
    → latest_code phone purpose (map (replaced now other wanted) cs) ≡ latest_code phone purpose cs
unfolding latest_code
latest-replaced phone other purpose wanted now [] h = refl
latest-replaced phone other purpose wanted now (d ∷ ds) h =
    let ih = latest-replaced phone other purpose wanted now ds h in
    elim (Bool-cases (is_code_for other wanted d && not (is_some d.consumed_at))) [
      | inr kept ↦
          rw (kept, latest_code) (ap (λ r. if is_code_for phone purpose d then some d else r) ih)
      | inl burnt ↦
          let for_other =
            (both (is_code_for other wanted d) (not (is_some d.consumed_at)) burnt).0 in
          let apart : is_code_for phone purpose d ≡ false =
            code_for_same phone other purpose wanted d for_other ∙ h in
          rw (burnt, latest_code) (rw (apart, latest_code) ih)
    ]
