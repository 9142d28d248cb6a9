-- ===== src/Anchoring/Collision.antt =====
-- Collisions of keccak256, and texts that are put together of parts.
use vekro_backend.Base.{
  ◌≡◌, ◌≢◌, ◌⊎◌, inl, inr, refl, sym, ap, ◌∙◌, arith, Bool-cases, true, false, [], ◌∷◌, ◌++◌,
  length, length-append, text_eq, text_eq→eq, text_eq_refl, Text,
}
use vekro_backend.Anchoring.Merkle.{Keccak}

-- Two different inputs with one digest.
pub record Collision (keccak : Keccak) : Type 0 where
  pub one : Text
  pub other : Text
  pub differ : one ≢ other
  pub agree : keccak.digest one ≡ keccak.digest other

pub first_parts : (a b c d : Text) → length a ≡ length c → a ++ b ≡ c ++ d → (a ≡ c) × (b ≡ d)
first_parts [] b [] d h e = (refl, e)
first_parts [] b (y ∷ c) d h e = absurd (omega arith)
first_parts (x ∷ a) b [] d h e = absurd (omega arith)
first_parts (x ∷ a) b (y ∷ c) d h e =
    let heads : (x ≡ y) × (a ++ b ≡ c ++ d) = ground arith in
    let rest = first_parts a b c d (omega arith) heads.1 in ((λ i. heads.0 i ∷ rest.0 i), rest.1)

pub last_parts : (a b c d : Text) → length b ≡ length d → a ++ b ≡ c ++ d → (a ≡ c) × (b ≡ d)
last_parts a b c d h e =
    first_parts a b c d
      (omega (arith, ap length e, length-append {0} a b, length-append {0} c d, h)) e

differs : (s t : Text) → text_eq s t ≡ false → s ≢ t
differs s t other e =
    let self : text_eq s t ≡ true = ap (text_eq s) (sym e) ∙ text_eq_refl s in
    let clash : true ≡ false = sym self ∙ other in cc

pub text_cases : (s t : Text) → (s ≡ t) ⊎ (s ≢ t)
text_cases s t = elim (Bool-cases (text_eq s t)) [
  | inl same ↦ inl (text_eq→eq s t same)
  | inr other ↦ inr (λ e. differs s t other e)
]
