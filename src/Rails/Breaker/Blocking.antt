-- ===== src/Rails/Breaker/Blocking.antt =====
-- Which rails the router skips (_blocked_rails_for_routing_impl of
-- app/services/custody/rail_breaker.py).
use vekro_backend.Base.{
  ℕ, ◌≡◌, refl, Bool, true, false, ◌&&◌, Option, none, some, List, [], ◌∷◌, arith, if◌then◌else◌,
  Bool-cases, inl, inr, ap, ◌∙◌,
}
use vekro_backend.Rails.Health.{
  RailName, is_rail, is_rail_refl, is_rail→eq, RailHealth, HealthTable, put_row,
}
use vekro_backend.Rails.Breaker.{
  is_open, refresh_open_breaker, get_or_create_rail_health, fetched_row, adopt_provider,
  routing_row, blocked_rails_for_routing,
}
use vekro_backend.Rails.Registry.{mentions}

-- Whether the breaker of a rail is open at a time, read off the table without writing to it.
abbrev pub is_blocked : ℕ → HealthTable → RailName → Bool
is_blocked now table name = is_open (routing_row now name table).breaker_state

-- Looking twice at the same time sees the same.
look_twice :
    (now : ℕ) (name : RailName) (fetched : Option RailHealth)
    → (refresh_open_breaker now (
        adopt_provider
          (some name)
          (refresh_open_breaker now (fetched_row (some name) now fetched)))).breaker_state
      ≡ (refresh_open_breaker now (fetched_row (some name) now fetched)).breaker_state
unfolding refresh_open_breaker
look_twice now name none = ground arith
look_twice now name (some row) = ground arith

routing_row_self :
    (now : ℕ) (name : RailName) (table : HealthTable)
    → (routing_row now name (put_row name (routing_row now name table) table)).breaker_state
      ≡ (routing_row now name table).breaker_state
unfolding get_or_create_rail_health
routing_row_self now name table = rw (is_rail_refl name) (look_twice now name (table name))

-- Looking at one rail does not change whether another is blocked.
is_blocked-put_row :
    (now : ℕ) (name other : RailName) (table : HealthTable)
    → is_blocked now (put_row name (routing_row now name table) table) other
      ≡ is_blocked now table other
is_blocked-put_row now name other table = elim (Bool-cases (is_rail other name)) [
  | inl e ↦ rw (is_rail→eq other name e) (ap is_open (routing_row_self now name table))
  | inr e ↦ unfold get_or_create_rail_health in rw e refl
]

and_false : (b : Bool) → (b && false) ≡ false
and_false true = refl
and_false false = refl

same_case :
    (name : RailName) (names : List RailName) (blocked : RailName → Bool) (rest : List RailName)
    → mentions name rest ≡ (mentions name names && blocked name)
    → mentions name (if blocked name then name ∷ rest else rest)
      ≡ (mentions name (name ∷ names) && blocked name)
same_case name names blocked rest ih = elim (Bool-cases (blocked name)) [
  | inl b ↦ rw (b, is_rail_refl name)
  | inr b ↦ rw b (rw b at ih ∙ simp and_false)
]

head_case :
    (name first : RailName) (names : List RailName) (blocked : RailName → Bool)
    (rest : List RailName)
    → mentions name rest ≡ (mentions name names && blocked name)
    → mentions name (if blocked first then first ∷ rest else rest)
      ≡ (mentions name (first ∷ names) && blocked name)
head_case name first names blocked rest ih = elim (Bool-cases (is_rail name first)) [
  | inl e ↦ rw (← is_rail→eq name first e) (same_case name names blocked rest ih)
  | inr e ↦ rw e (elim (Bool-cases (blocked first)) [ inl b ↦ rw (b, e) ih | inr b ↦ rw b ih ])
]

-- A rail is skipped exactly if it is listed and its breaker is open.
pub mentions-blocked :
    (now : ℕ) (names : List RailName) (table : HealthTable) (name : RailName)
    → mentions name (blocked_rails_for_routing now names table).0
      ≡ (mentions name names && is_blocked now table name)
unfolding blocked_rails_for_routing
mentions-blocked now [] table name = refl
mentions-blocked now (first ∷ names) table name =
    let row = routing_row now first table in
    let rest = blocked_rails_for_routing now names (put_row first row table) in
    let ih : mentions name rest.0 ≡ (mentions name names && is_blocked now table name) =
      mentions-blocked now names (put_row first row table) name
      ∙ ap (λ (b : Bool). mentions name names && b) (is_blocked-put_row now first name table) in
    head_case name first names (is_blocked now table) rest.0 ih
