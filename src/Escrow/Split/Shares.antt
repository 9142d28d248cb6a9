-- ===== src/Escrow/Split/Shares.antt =====
-- The two shares of split_amounts of app/services/escrow_service.py.
use native.Mathlib.Nat.{mul-le-mul_left}
use vekro_backend.Base.{ℕ, ◌+◌, ◌*◌, ◌≤◌, ◌≡◌, arith}
use vekro_backend.Escrow.Split.{split_amounts, round_half_even, unit_ratio}

-- The share of a ratio of 1 at most is no more than the whole.
share_le : (amount ratio : ℕ) → ratio ≤ unit_ratio → amount * ratio ≤ amount * unit_ratio
share_le amount ratio h = mul-le-mul_left amount h

round_le : (n amount : ℕ) → n ≤ amount * unit_ratio → round_half_even n unit_ratio ≤ amount
unfolding round_half_even
round_le n amount h = ground arith

-- For a ratio of at most one, the two shares of any amount add up to the amount, so a split neither
-- creates nor loses a cent.
pub split_conserves :
    (amount ratio : ℕ)
    → ratio ≤ unit_ratio
    → (split_amounts amount ratio).0 + (split_amounts amount ratio).1 ≡ amount
unfolding split_amounts
split_conserves amount ratio h =
    let fits = round_le (amount * ratio) amount (share_le amount ratio h) in omega arith

-- The seller's share is within half a cent of the exact share: twice their difference, in
-- ten-thousandths of a cent, is one cent at most, on either side.
pub split_nearest :
    (amount ratio : ℕ)
    → (2 * (unit_ratio * (split_amounts amount ratio).0) ≤ 2 * (amount * ratio) + unit_ratio)
      × (2 * (amount * ratio) ≤ 2 * (unit_ratio * (split_amounts amount ratio).0) + unit_ratio)
unfolding split_amounts
split_nearest amount ratio = ground arith
