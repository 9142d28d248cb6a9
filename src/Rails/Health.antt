-- ===== src/Rails/Health.antt =====
-- The rows of rail_health (app/models/rail_health.py) and the rail names of
-- app/services/custody/registry.py. Times are seconds; error texts are ASCII code points.
use vekro_backend.Base.{ℕ, arith, ◌≡◌, Bool, true, Option, some, List, holds, if◌then◌else◌}

-- SUPPORTED_RAILS
pub data RailName : Type 0 where
  simulated loop pesapal intasend econfirm : RailName

unfoldable pub RailName-discrete : Discrete RailName
RailName-discrete = hlevel

abbrev pub is_rail : RailName → RailName → Bool
is_rail a b = holds (RailName-discrete a b)

pub data RailBreakerState : Type 0 where
  closed open_state half_open : RailBreakerState

pub record RailHealth : Type 0 where
  pub provider_name : Option RailName
  pub breaker_state : RailBreakerState
  pub consecutive_failures : ℕ
  pub last_error_code : Option (List ℕ)
  pub last_error_message : Option (List ℕ)
  pub opened_at : Option ℕ
  pub last_success_at : Option ℕ
  pub last_failure_at : Option ℕ
  pub cooldown_until : Option ℕ
  pub created_at : ℕ

-- The table, by its unique column `rail_name`.
abbrev pub HealthTable : Type 0
HealthTable = RailName → Option RailHealth

abbrev pub put_row : RailName → RailHealth → HealthTable → HealthTable
put_row name row table other = if is_rail other name then some row else table other

pub is_rail_refl : (a : RailName) → is_rail a a ≡ true
is_rail_refl a = ground arith

pub is_rail→eq : (a b : RailName) → is_rail a b ≡ true → a ≡ b
is_rail→eq a b h = ground arith
