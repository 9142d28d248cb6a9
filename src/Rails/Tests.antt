-- ===== src/Rails/Tests.antt =====
-- The breaker and the routers on concrete rails.
use vekro_backend.Base.{
  ◌≡◌, ◌+◌, ◌↔◌, ◌<◌, refl, arith, true, false, ◌&&◌, none, List, [], ◌∷◌, first,
}
use vekro_backend.Rails.Health.{
  RailName-discrete, simulated, loop, RailHealth, HealthTable, closed, open_state, put_row,
}
use vekro_backend.Rails.Breaker.{
  default_policy, new_row, fail_row, refresh_open_breaker, blocked_rails_for_routing,
}
use vekro_backend.Rails.Breaker.Trips.{
  RailEvent, failure, success, look, after_events, failures_since_success, IsWellFormed,
  closed_iff_below, open_until_cooldown,
}
use vekro_backend.Rails.Breaker.Blocking.{mentions-blocked, is_blocked}
use vekro_backend.Rails.Registry.{
  CustodyRegistry, mentions, select_payout_rail_for_routing, select_collection_rail_for_routing,
  get_payout_rail,
}
use vekro_backend.Rails.Registry.Routing.{
  payout_routing, collection_routing, picked_rail_available, is_routable_payout,
  is_routable_collection,
}

-- Two failures, a success, and three failures in a row.
abbrev bad_day : List RailEvent
bad_day =
    failure 100 none none
    ∷ failure 200 none none
    ∷ success 300
    ∷ failure 400 none none
    ∷ look 450
    ∷ failure 500 none none
    ∷ failure 600 none none
    ∷ []

closed_iff_below_example :
    ((after_events default_policy bad_day (new_row 0 none)).breaker_state ≡ closed)
    ↔ (failures_since_success bad_day 0 < default_policy.failure_threshold)
closed_iff_below_example = closed_iff_below default_policy 0 bad_day (omega arith)

abbrev third_failure : RailHealth
third_failure = record (new_row 0 none) { consecutive_failures = 2 }

third_failure-IsWellFormed : IsWellFormed default_policy third_failure
third_failure-IsWellFormed = ground arith

open_until_cooldown_example :
    ((refresh_open_breaker 800 (fail_row default_policy 600 none none third_failure)).breaker_state
      ≡ open_state)
    ↔ (800 < 600 + default_policy.cooldown_seconds)
unfolding fail_row
open_until_cooldown_example =
    open_until_cooldown default_policy 600 800 none none third_failure third_failure-IsWellFormed
      refl

-- A table in which the breaker of loop is open.
abbrev loop_down : HealthTable
loop_down = put_row loop (fail_row default_policy 600 none none third_failure) (λ _. none)

mentions-blocked_example :
    mentions loop (blocked_rails_for_routing 700 (loop ∷ simulated ∷ []) loop_down).0
    ≡ (mentions loop (loop ∷ simulated ∷ []) && is_blocked 700 loop_down loop)
mentions-blocked_example = mentions-blocked 700 (loop ∷ simulated ∷ []) loop_down loop

abbrev two_rails : CustodyRegistry
two_rails = record {
  capabilities = record {
    holds_funds_structurally = false;
    supports_split_payout = false;
    supports_partial_release = false;
  };
  collection_rails = λ _. true;
  payout_rails = λ _. true;
  collection_priority = loop ∷ simulated ∷ [];
  payout_priority = loop ∷ simulated ∷ [];
  live_payouts_enabled = true;
}

payout_routing_example :
    (select_payout_rail_for_routing 700 two_rails loop_down).0
    ≡ first (is_routable_payout 700 two_rails loop_down) two_rails.payout_priority
payout_routing_example = payout_routing 700 two_rails loop_down

collection_routing_example :
    (select_collection_rail_for_routing 700 two_rails loop_down).0
    ≡ first (is_routable_collection 700 two_rails loop_down) two_rails.collection_priority
collection_routing_example = collection_routing 700 two_rails loop_down

simulated_gettable : get_payout_rail two_rails simulated ≡ true
unfolding select_payout_rail_for_routing fail_row RailName-discrete
simulated_gettable = picked_rail_available 700 two_rails loop_down simulated refl
