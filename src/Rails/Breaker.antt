-- ===== src/Rails/Breaker.antt =====
-- The circuit breaker of a rail (app/services/custody/rail_breaker.py). The handlers of
-- SQLAlchemy errors in the public wrappers only serve partial schemas and are left out.
pub mod Trips
pub mod Blocking
use vekro_backend.Base.{
  ℕ, ◌+◌, Bool, true, false, ◌||◌, Option, none, some, List, [], ◌∷◌, holds, leb, get_or,
  if◌then◌else◌, Text, strip, non_empty, or_text,
}
use vekro_backend.Rails.Health.{
  RailName, RailBreakerState, closed, open_state, half_open, RailHealth, HealthTable, put_row,
}

pub record RailBreakerPolicy : Type 0 where
  pub failure_threshold : ℕ
  pub cooldown_seconds : ℕ

abbrev pub default_policy : RailBreakerPolicy
default_policy = record { failure_threshold = 3; cooldown_seconds = 300 }

abbrev pub is_half_open : RailBreakerState → Bool
is_half_open half_open = true
is_half_open _ = false

abbrev pub is_open : RailBreakerState → Bool
is_open open_state = true
is_open _ = false

-- An open breaker whose cooldown has passed is half open.
unfoldable pub refresh_open_breaker : ℕ → RailHealth → RailHealth
refresh_open_breaker now row =
    if is_open row.breaker_state
    then elim row.cooldown_until [
      | none ↦ row
      | some cooldown_until ↦
          if leb cooldown_until now then record row { breaker_state = half_open } else row
    ]
    else row

abbrev pub new_row : ℕ → Option RailName → RailHealth
new_row now provider_name = record {
  provider_name = provider_name;
  breaker_state = closed;
  consecutive_failures = 0;
  last_error_code = none;
  last_error_message = none;
  opened_at = none;
  last_success_at = none;
  last_failure_at = none;
  cooldown_until = none;
  created_at = now;
}

-- `if provider_name and not row.provider_name: row.provider_name = provider_name`
abbrev pub adopt_provider : Option RailName → RailHealth → RailHealth
adopt_provider provider_name row = record row {
  provider_name = elim row.provider_name [ none ↦ provider_name | some p ↦ some p ];
}

-- The row that a query for it found, or a new one.
abbrev pub fetched_row : Option RailName → ℕ → Option RailHealth → RailHealth
fetched_row provider_name now none = new_row now provider_name
fetched_row provider_name now (some row) = adopt_provider provider_name row

unfoldable pub get_or_create_rail_health : RailName → Option RailName → ℕ → HealthTable → RailHealth
get_or_create_rail_health rail_name provider_name now table =
    fetched_row provider_name now (table rail_name)

abbrev unknown_code : Text
unknown_code = b'u' ∷ b'n' ∷ b'k' ∷ b'n' ∷ b'o' ∷ b'w' ∷ b'n' ∷ []

-- What `_record_rail_failure_impl` does to the row that it has fetched.
unfoldable pub fail_row :
    RailBreakerPolicy → ℕ → Option Text → Option Text → RailHealth → RailHealth
unfolding refresh_open_breaker
fail_row policy now error_code error_message fetched =
    let row = refresh_open_breaker now fetched in
    let failures = row.consecutive_failures + 1 in
    let should_open = leb policy.failure_threshold failures || is_half_open row.breaker_state in
    let code =
      get_or (non_empty (strip (get_or (or_text error_code row.last_error_code) unknown_code)))
        unknown_code in
    let message = non_empty (strip (get_or (or_text error_message row.last_error_message) [])) in
    let failed = record row {
      consecutive_failures = failures;
      last_failure_at = some now;
      last_error_code = some code;
      last_error_message = message;
    } in
    if should_open
    then record failed {
      breaker_state = open_state;
      opened_at = some now;
      cooldown_until = some (now + policy.cooldown_seconds);
    }
    else failed

unfoldable pub record_rail_failure :
    RailBreakerPolicy
    → ℕ
    → RailName
    → Option RailName
    → Option Text
    → Option Text
    → HealthTable
    → HealthTable
unfolding get_or_create_rail_health fail_row
record_rail_failure policy now rail_name provider_name error_code error_message table =
    put_row rail_name
      (fail_row policy now error_code error_message
        (get_or_create_rail_health rail_name provider_name now table))
      table

-- What `_record_rail_success_impl` does to the row that it has fetched.
unfoldable pub succeed_row : ℕ → RailHealth → RailHealth
succeed_row now row = record row {
  breaker_state = closed;
  consecutive_failures = 0;
  last_success_at = some now;
  last_error_code = none;
  last_error_message = none;
  opened_at = none;
  cooldown_until = none;
}

unfoldable pub record_rail_success : ℕ → RailName → Option RailName → HealthTable → HealthTable
unfolding get_or_create_rail_health succeed_row
record_rail_success now rail_name provider_name table =
    put_row rail_name
      (succeed_row now (get_or_create_rail_health rail_name provider_name now table)) table

-- One round of `_blocked_rails_for_routing_impl`: the row as it is looked at and written back.
abbrev pub routing_row : ℕ → RailName → HealthTable → RailHealth
routing_row now rail_name table =
    refresh_open_breaker now (get_or_create_rail_health rail_name (some rail_name) now table)

-- The set of blocked names is a list; the table is written back row by row.
unfoldable pub blocked_rails_for_routing :
    ℕ → List RailName → HealthTable → List RailName × HealthTable
unfolding get_or_create_rail_health refresh_open_breaker
blocked_rails_for_routing now [] table = ([], table)
blocked_rails_for_routing now (rail_name ∷ names) table =
    let row = routing_row now rail_name table in
    let rest = blocked_rails_for_routing now names (put_row rail_name row table) in
    (if is_open row.breaker_state then rail_name ∷ rest.0 else rest.0, rest.1)
