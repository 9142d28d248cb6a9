-- ===== src/Escrow/Split.antt =====
-- Splitting a transaction's amount between the parties: split_amounts and queue_split_payout of
-- app/services/escrow_service.py.
pub mod Shares
use vekro_backend.Base.{
  ℕ, ◌+◌, ◌-◌, ◌*◌, ◌/◌, ◌%◌, ◌==◌, ltb, Bool, true, false, ◌&&◌, ◌||◌, if◌then◌else◌,
}
use vekro_backend.Model.Rows.{Transaction, Purpose, release, refund}
use vekro_backend.Rails.Health.{RailName, is_rail}
use vekro_backend.Session.{
  Env, Action, pure, require, ◌>>=◌, ◌>>◌, escrow_service_error, split_payout_unsupported,
}
use vekro_backend.Escrow.Outbox.{
  Actor, default_payout_rail_name, enqueue_payout_intent, refresh_transaction_payout_status,
}

-- A ratio of 1, in ten-thousandths: the precision to which a ratio is quantized.
abbrev pub unit_ratio : ℕ
unit_ratio = 10000

-- `Decimal.quantize` of `n / d` to a whole number: to the nearest, and a half to the even one.
unfoldable pub round_half_even : ℕ → ℕ → ℕ
round_half_even n d =
    let q = n / d in
    let twice = 2 * (n % d) in
    if ltb twice d then q else if ltb d twice then q + 1 else if q % 2 == 0 then q else q + 1

-- `split_amounts` in cents, for a ratio within bounds: the seller's release, and the buyer's refund
-- as the remainder.
unfoldable pub split_amounts : ℕ → ℕ → ℕ × ℕ
unfolding round_half_even
split_amounts amount ratio =
    let release_amount = round_half_even (amount * ratio) unit_ratio in
    (release_amount, amount - release_amount)

-- `_normalize_ratio`
abbrev pub normalize_ratio : ℕ → Action ℕ
normalize_ratio ratio = do
  require (ltb 0 ratio && ltb ratio unit_ratio) escrow_service_error
  pure ratio

-- `_is_split_capability_supported`
unfoldable pub is_split_capability_supported : Env → Action Bool
is_split_capability_supported env =
    let c = env.registry.capabilities in
    if c.supports_split_payout || c.supports_partial_release
    then pure true
    else if c.holds_funds_structurally
    then pure false
    else (do rail ← default_payout_rail_name env; pure (is_rail rail RailName.simulated))

-- The buyer's part, and what the transaction shows then.
unfoldable pub queue_refund_share : Env → Actor → Purpose → ℕ → Transaction → Action Transaction
queue_refund_share env actor refund_purpose amount t = do
  t1 ← enqueue_payout_intent env actor t refund_purpose refund t.buyer_id amount
  refresh_transaction_payout_status env t1

unfoldable pub queue_shares :
    Env → Actor → Transaction → Purpose → Purpose → ℕ × ℕ → Action Transaction
queue_shares env actor t release_purpose refund_purpose amounts = do
  t1 ← enqueue_payout_intent env actor t release_purpose release t.seller_id amounts.0
  queue_refund_share env actor refund_purpose amounts.1 t1

unfoldable pub queue_ratio : Env → Actor → Transaction → Purpose → Purpose → ℕ → Action Transaction
queue_ratio env actor t release_purpose refund_purpose ratio = do
  let amounts = split_amounts t.amount ratio
  require (ltb 0 amounts.0 && ltb 0 amounts.1) escrow_service_error
  queue_shares env actor t release_purpose refund_purpose amounts

unfoldable pub queue_split_supported :
    Env → Actor → Transaction → Purpose → Purpose → ℕ → Bool → Action Transaction
queue_split_supported env actor t release_purpose refund_purpose split_ratio supported = do
  require supported split_payout_unsupported
  ratio ← normalize_ratio split_ratio
  queue_ratio env actor t release_purpose refund_purpose ratio

unfoldable pub queue_split_payout :
    Env → Actor → Transaction → Purpose → Purpose → ℕ → Action Transaction
queue_split_payout env actor t release_purpose refund_purpose split_ratio = do
  supported ← is_split_capability_supported env
  queue_split_supported env actor t release_purpose refund_purpose split_ratio supported
