-- ===== src/Rails/Registry.antt =====
-- Routing over the rails (app/services/custody/registry.py, CustodyRegistry) with the breaker
-- (select_collection_rail_for_routing and select_payout_rail_for_routing of rail_breaker.py).
-- A rail is present if the registry holds an adapter for it; the adapters are not modelled here.
pub mod Routing
use vekro_backend.Base.{
  ℕ, Bool, true, false, ◌&&◌, ◌||◌, not, Option, none, some, List, [], ◌∷◌, any, if◌then◌else◌,
}
use vekro_backend.Rails.Health.{
  RailName, simulated, loop, pesapal, intasend, econfirm, is_rail, HealthTable,
}
use vekro_backend.Rails.Breaker.{blocked_rails_for_routing}

pub record CustodyCapabilities : Type 0 where
  pub holds_funds_structurally : Bool
  pub supports_split_payout : Bool
  pub supports_partial_release : Bool

pub record CustodyRegistry : Type 0 where
  pub capabilities : CustodyCapabilities
  pub collection_rails : RailName → Bool
  pub payout_rails : RailName → Bool
  pub collection_priority : List RailName
  pub payout_priority : List RailName
  pub live_payouts_enabled : Bool

-- LIVE_PAYOUT_RAILS
abbrev pub is_live_payout_rail : RailName → Bool
is_live_payout_rail loop = true
is_live_payout_rail intasend = true
is_live_payout_rail econfirm = true
is_live_payout_rail _ = false

abbrev pub mentions : RailName → List RailName → Bool
mentions name = any (is_rail name)

-- One round of the loop of `ordered_collection_rail_names`: whether the name is appended.
abbrev pub collection_eligible : CustodyRegistry → List RailName → RailName → Bool
collection_eligible registry excluded name =
    not (mentions name excluded) && registry.collection_rails name

abbrev pub payout_blocked_live : CustodyRegistry → RailName → Bool
payout_blocked_live registry name = is_live_payout_rail name && not registry.live_payouts_enabled

abbrev pub payout_eligible : CustodyRegistry → List RailName → RailName → Bool
payout_eligible registry excluded name =
    not (mentions name excluded)
    && registry.payout_rails name
    && not (payout_blocked_live registry name)

-- The names of a priority list that pass the tests of the loop, in order.
unfoldable pub ordered_names : (RailName → Bool) → List RailName → List RailName
ordered_names eligible [] = []
ordered_names eligible (name ∷ names) =
    let rest = ordered_names eligible names in if eligible name then name ∷ rest else rest

unfoldable pub ordered_collection_rail_names : CustodyRegistry → List RailName → List RailName
unfolding ordered_names
ordered_collection_rail_names registry excluded =
    ordered_names (collection_eligible registry excluded) registry.collection_priority

unfoldable pub ordered_payout_rail_names : CustodyRegistry → List RailName → List RailName
unfolding ordered_names
ordered_payout_rail_names registry excluded =
    ordered_names (payout_eligible registry excluded) registry.payout_priority

-- `none` is the RuntimeError for an empty list.
abbrev pub selected : List RailName → Option RailName
selected [] = none
selected (name ∷ _) = some name

unfoldable pub select_collection_rail : CustodyRegistry → List RailName → Option RailName
unfolding ordered_collection_rail_names
select_collection_rail registry excluded =
    selected (ordered_collection_rail_names registry excluded)

unfoldable pub select_payout_rail : CustodyRegistry → List RailName → Option RailName
unfolding ordered_payout_rail_names
select_payout_rail registry excluded = selected (ordered_payout_rail_names registry excluded)

-- Whether `get_payout_rail` returns an adapter: false is its RuntimeError.
unfoldable pub get_payout_rail : CustodyRegistry → RailName → Bool
get_payout_rail registry name =
    registry.payout_rails name && not (payout_blocked_live registry name)

unfoldable pub select_collection_rail_for_routing :
    ℕ → CustodyRegistry → HealthTable → Option RailName × HealthTable
unfolding blocked_rails_for_routing select_collection_rail
select_collection_rail_for_routing now registry table =
    let (blocked, table') = blocked_rails_for_routing now registry.collection_priority table in
    (select_collection_rail registry blocked, table')

unfoldable pub select_payout_rail_for_routing :
    ℕ → CustodyRegistry → HealthTable → Option RailName × HealthTable
unfolding blocked_rails_for_routing select_payout_rail
select_payout_rail_for_routing now registry table =
    let (blocked, table') = blocked_rails_for_routing now registry.payout_priority table in
    (select_payout_rail registry blocked, table')
