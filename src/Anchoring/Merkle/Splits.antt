-- ===== src/Anchoring/Merkle/Splits.antt =====
-- `split_point` is the largest power of two below a size.
use vekro_backend.Base.{
  ℕ, zero, suc, ◌-◌, ◌*◌, ◌/◌, ◌^◌, ◌≤◌, ◌<◌, ◌≡◌, ◌==◌, refl, arith, inl, inr, Bool-cases, eqb→eq,
  ap, ◌∙◌,
}
use vekro_backend.Anchoring.Merkle.{bits, bit_length, split_point}

pow_suc : (k : ℕ) → 2 ^ suc k ≡ 2 * 2 ^ k
pow_suc k = omega arith

pow_pos : (k : ℕ) → 0 < 2 ^ k
pow_pos zero = omega arith
pow_pos (suc k) = omega (arith, pow_suc k, pow_pos k)

bits_above : (fuel n : ℕ) → n ≤ fuel → n < 2 ^ bits fuel n
unfolding bits
bits_above zero n h = omega arith
bits_above (suc fuel) n h = elim (Bool-cases (n == 0)) [
  | inl none_left ↦ let e : n ≡ 0 = eqb→eq n 0 none_left in rw (none_left, bits) (omega arith)
  | inr more ↦
      let ih = bits_above fuel (n / 2) (ground arith) in
      rw (more, bits) (omega (arith, pow_suc (bits fuel (n / 2))))
]

bits_zero : (fuel : ℕ) → bits fuel 0 ≡ 0
unfolding bits
bits_zero zero = refl
bits_zero (suc fuel) = refl

-- The bits of a number that is not 0 are one more than those of its half.
bits_below : (fuel n : ℕ) → n ≤ fuel → 0 < n → (k : ℕ) × (bits fuel n ≡ suc k) × (2 ^ k ≤ n)
unfolding bits
bits_below zero n h p = absurd (omega arith)
bits_below (suc fuel) n h p = elim (Bool-cases (n == 0)) [
  | inl none_left ↦ absurd (ground arith)
  | inr more ↦
      let half : n / 2 ≤ fuel = ground arith in
      rw (more, bits)
        (elim (Bool-cases (n / 2 == 0)) [
          | inl last ↦
              (0, ap suc (ap (bits fuel) (eqb→eq (n / 2) 0 last) ∙ bits_zero fuel), omega arith)
          | inr inner ↦
              let (k, e, le) = bits_below fuel (n / 2) half (ground arith) in
              (suc k, ap suc e, omega (arith, pow_suc k))
        ])
]

-- The split point of two leaves or more is a power of two, lies below their number, and its double
-- does not: it is the largest such power.
pub split_largest :
    (size : ℕ)
    → 2 ≤ size
    → ((k : ℕ) × (split_point size ≡ 2 ^ k))
      × (0 < split_point size)
      × (split_point size < size)
      × (size ≤ 2 * split_point size)
unfolding split_point
split_largest size h =
    let (k, e, le) = bits_below (size - 1) (size - 1) (omega arith) (omega arith) in
    let above = bits_above (size - 1) (size - 1) (omega arith) in
    let p : bit_length (size - 1) - 1 ≡ k = omega (arith, e) in
    let same : 2 ^ (bit_length (size - 1) - 1) ≡ 2 ^ k = ap (λ x. 2 ^ x) p in
    let double : 2 ^ bits (size - 1) (size - 1) ≡ 2 * 2 ^ k = ap (λ x. 2 ^ x) e ∙ pow_suc k in
    ((k, same), omega (arith, pow_pos k), omega arith, omega arith)
