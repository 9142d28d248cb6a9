-- ===== src/Rails/Registry/Routing.antt =====
-- Which rail the router picks (select_payout_rail_for_routing and
-- select_collection_rail_for_routing of app/services/custody/rail_breaker.py over
-- CustodyRegistry of app/services/custody/registry.py).
use vekro_backend.Base.{
  ℕ, ◌≡◌, refl, Bool, true, ◌&&◌, ◌||◌, not, some, List, [], ◌∷◌, arith, first, ◌∙◌, sym,
}
use vekro_backend.Rails.Health.{RailName, is_rail, is_rail_refl, HealthTable}
use vekro_backend.Rails.Breaker.{blocked_rails_for_routing}
use vekro_backend.Rails.Breaker.Blocking.{is_blocked, mentions-blocked}
use vekro_backend.Rails.Registry.{
  CustodyRegistry, mentions, payout_blocked_live, payout_eligible, collection_eligible,
  ordered_names, selected, get_payout_rail, select_payout_rail_for_routing,
  select_collection_rail_for_routing,
}

-- What the router promises of a payout rail: it has an adapter, its breaker is not open, and it
-- moves live money only where live payouts are enabled.
abbrev pub is_routable_payout : ℕ → CustodyRegistry → HealthTable → RailName → Bool
is_routable_payout now registry table name =
    not (is_blocked now table name)
    && registry.payout_rails name
    && not (payout_blocked_live registry name)

abbrev pub is_routable_collection : ℕ → CustodyRegistry → HealthTable → RailName → Bool
is_routable_collection now registry table name =
    not (is_blocked now table name) && registry.collection_rails name

-- The head of the filtered list is the first name that passes.
selected-ordered :
    (test : RailName → Bool) (names : List RailName)
    → selected (ordered_names test names) ≡ first test names
unfolding ordered_names
selected-ordered test [] = refl
selected-ordered test (name ∷ names) = ground (arith, selected-ordered test names)

or_true : (a b : Bool) → b ≡ true → (a || b) ≡ true
or_true a b h = ground arith

-- Two tests that agree on the members of a list pick the same member.
first_congr :
    (test test' : RailName → Bool) (names : List RailName)
    → ((name : RailName) → mentions name names ≡ true → test name ≡ test' name)
    → first test names ≡ first test' names
first_congr test test' [] h = refl
first_congr test test' (name ∷ names) h = rw (
  h name (rw (is_rail_refl name)),
  first_congr test test' names
      (λ other listed. h other (or_true (is_rail other name) (mentions other names) listed)),
)

-- The test of the loop, with the blocked names taken from the table.
payout_test :
    (now : ℕ) (registry : CustodyRegistry) (table : HealthTable) (name : RailName)
    → mentions name registry.payout_priority ≡ true
    → payout_eligible registry (blocked_rails_for_routing now registry.payout_priority table).0 name
      ≡ is_routable_payout now registry table name
payout_test now registry table name listed =
    rw (mentions-blocked now registry.payout_priority table name, listed)

collection_test :
    (now : ℕ) (registry : CustodyRegistry) (table : HealthTable) (name : RailName)
    → mentions name registry.collection_priority ≡ true
    → collection_eligible registry
        (blocked_rails_for_routing now registry.collection_priority table).0
        name
      ≡ is_routable_collection now registry table name
collection_test now registry table name listed =
    rw (mentions-blocked now registry.collection_priority table name, listed)

-- The payout router picks the first rail of the payout priority that has an adapter, has no open
-- breaker at that time, and is no live rail while live payouts are disabled; it raises if there is
-- none.
pub payout_routing :
    (now : ℕ) (registry : CustodyRegistry) (table : HealthTable)
    → (select_payout_rail_for_routing now registry table).0
      ≡ first (is_routable_payout now registry table) registry.payout_priority
unfolding select_payout_rail_for_routing
payout_routing now registry table =
    let blocked = (blocked_rails_for_routing now registry.payout_priority table).0 in
    selected-ordered (payout_eligible registry blocked) registry.payout_priority
    ∙ first_congr (payout_eligible registry blocked) (is_routable_payout now registry table)
        registry.payout_priority (payout_test now registry table)

-- The collection router picks the first rail of the collection priority that has an adapter and
-- has no open breaker at that time; it raises if there is none.
pub collection_routing :
    (now : ℕ) (registry : CustodyRegistry) (table : HealthTable)
    → (select_collection_rail_for_routing now registry table).0
      ≡ first (is_routable_collection now registry table) registry.collection_priority
unfolding select_collection_rail_for_routing
collection_routing now registry table =
    let blocked = (blocked_rails_for_routing now registry.collection_priority table).0 in
    selected-ordered (collection_eligible registry blocked) registry.collection_priority
    ∙ first_congr (collection_eligible registry blocked) (is_routable_collection now registry table)
        registry.collection_priority (collection_test now registry table)

first_holds :
    (test : RailName → Bool) (names : List RailName) {name : RailName}
    → first test names ≡ some name
    → test name ≡ true
first_holds test [] h = cc
first_holds test (other ∷ names) {name} h = ground (arith, first_holds test names {name = name})

routable_gettable :
    (now : ℕ) (registry : CustodyRegistry) (table : HealthTable) (name : RailName)
    → is_routable_payout now registry table name ≡ true
    → get_payout_rail registry name ≡ true
unfolding get_payout_rail
routable_gettable now registry table name h = ground arith

-- A rail that the payout router picks is one that get_payout_rail hands out: the executor does not
-- find it unavailable while the registry stays the same.
pub picked_rail_available :
    (now : ℕ) (registry : CustodyRegistry) (table : HealthTable) (name : RailName)
    → (select_payout_rail_for_routing now registry table).0 ≡ some name
    → get_payout_rail registry name ≡ true
picked_rail_available now registry table name h = routable_gettable now registry table name (
    first_holds (is_routable_payout now registry table) registry.payout_priority
      (sym (payout_routing now registry table) ∙ h))
