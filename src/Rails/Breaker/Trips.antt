-- ===== src/Rails/Breaker/Trips.antt =====
-- When the breaker opens and closes (_record_rail_failure_impl, _record_rail_success_impl and
-- _refresh_open_breaker of app/services/custody/rail_breaker.py).
use vekro_backend.Base.{
  ℕ, suc, ◌+◌, ◌≤◌, ◌<◌, ◌≡◌, ◌≢◌, ◌↔◌, refl, Option, none, List, [], ◌∷◌, arith, Text, sym, ap,
  ◌∙◌,
}
use vekro_backend.Rails.Health.{closed, open_state, RailHealth}
use vekro_backend.Rails.Breaker.{
  RailBreakerPolicy, refresh_open_breaker, fail_row, succeed_row, new_row,
}

-- A closed breaker has failed less often than the threshold and has no cooldown; a breaker that is
-- open or half open has a cooldown, and has reached the threshold.
pub record IsWellFormed (policy : RailBreakerPolicy) (row : RailHealth) : Type 0 where
  pub closed_below :
      row.breaker_state ≡ closed → row.consecutive_failures < policy.failure_threshold
  pub closed_cool : row.breaker_state ≡ closed → row.cooldown_until ≡ none
  pub tripped_reached :
      row.breaker_state ≢ closed → policy.failure_threshold ≤ row.consecutive_failures
  pub tripped_cooling : row.breaker_state ≢ closed → row.cooldown_until ≢ none

-- What happens to a rail's row: a failure, a success, or a look at it by the router.
pub data RailEvent : Type 0 where
  failure : ℕ → Option Text → Option Text → RailEvent
  success : ℕ → RailEvent
  look : ℕ → RailEvent

module _ (policy : RailBreakerPolicy) where
  -- The row after one event, and after a history of them, oldest first.
  unfoldable pub after_event : RailEvent → RailHealth → RailHealth
  unfolding fail_row succeed_row refresh_open_breaker
  after_event (failure now code message) row = fail_row policy now code message row
  after_event (success now) row = succeed_row now row
  after_event (look now) row = refresh_open_breaker now row

  unfoldable pub after_events : List RailEvent → RailHealth → RailHealth
  after_events [] row = row
  after_events (e ∷ es) row = after_events es (after_event e row)

-- The failures since the last success, where `n` had happened before.
unfoldable pub failures_since_success : List RailEvent → ℕ → ℕ
failures_since_success [] n = n
failures_since_success (failure _ _ _ ∷ es) n = failures_since_success es (suc n)
failures_since_success (success _ ∷ es) n = failures_since_success es 0
failures_since_success (look _ ∷ es) n = failures_since_success es n

module _ (policy : RailBreakerPolicy) (positive : 0 < policy.failure_threshold) where
  new_row-IsWellFormed : (now : ℕ) → IsWellFormed policy (new_row now none)
  new_row-IsWellFormed now = ground arith

  after_event-IsWellFormed :
      (e : RailEvent) (row : RailHealth)
      → IsWellFormed policy row
      → IsWellFormed policy (after_event policy e row)
  unfolding after_event
  after_event-IsWellFormed (failure now code message) row h = ground arith
  after_event-IsWellFormed (success now) row h = ground arith
  after_event-IsWellFormed (look now) row h = ground arith

  -- Every history of failures, successes and looks keeps the row well formed.
  pub after_events-IsWellFormed :
      (es : List RailEvent) (row : RailHealth)
      → IsWellFormed policy row
      → IsWellFormed policy (after_events policy es row)
  unfolding after_events
  after_events-IsWellFormed [] row h = h
  after_events-IsWellFormed (e ∷ es) row h =
      after_events-IsWellFormed es (after_event policy e row) (after_event-IsWellFormed e row h)

module _ (policy : RailBreakerPolicy) where
  event-counts :
      (e : RailEvent) (es : List RailEvent) (row : RailHealth)
      → failures_since_success (e ∷ es) row.consecutive_failures
        ≡ failures_since_success es (after_event policy e row).consecutive_failures
  unfolding after_event failures_since_success
  event-counts (failure now code message) es row = ap (failures_since_success es) (ground arith)
  event-counts (success now) es row = refl
  event-counts (look now) es row = ap (failures_since_success es) (ground arith)

  after_events-counts :
      (es : List RailEvent) (row : RailHealth)
      → (after_events policy es row).consecutive_failures
        ≡ failures_since_success es row.consecutive_failures
  unfolding after_events failures_since_success
  after_events-counts [] row = refl
  after_events-counts (e ∷ es) row =
      after_events-counts es (after_event policy e row) ∙ sym (event-counts e es row)

  closed_of_below :
      (row : RailHealth)
      → IsWellFormed policy row
      → row.consecutive_failures < policy.failure_threshold
      → row.breaker_state ≡ closed
  closed_of_below row h below = ground arith

-- With a threshold of at least one, from a new row on, the breaker is closed exactly while the
-- failures since the last success stay below the threshold, whatever the times of the events and
-- however the router looks at the rail.
pub closed_iff_below :
    (policy : RailBreakerPolicy) (created : ℕ) (es : List RailEvent)
    → 0 < policy.failure_threshold
    → ((after_events policy es (new_row created none)).breaker_state ≡ closed)
      ↔ (failures_since_success es 0 < policy.failure_threshold)
closed_iff_below policy created es positive =
    let start = new_row created none in
    let h =
      after_events-IsWellFormed policy positive es start
        (new_row-IsWellFormed policy positive created) in
    let n = after_events-counts policy es start in
    (
      λ e. rw (← n) (h.closed_below e),
      λ below. closed_of_below policy (after_events policy es start) h (rw n below),
    )

-- A failure at `now` that leaves the breaker of a well-formed row open blocks the rail until the
-- cooldown has passed and no longer: a look at `later` finds it open exactly if `later` is before
-- `now` plus the cooldown.
pub open_until_cooldown :
    (policy : RailBreakerPolicy) (now later : ℕ) (code message : Option Text) (row : RailHealth)
    → IsWellFormed policy row
    → (fail_row policy now code message row).breaker_state ≡ open_state
    → ((refresh_open_breaker later (fail_row policy now code message row)).breaker_state
        ≡ open_state)
      ↔ (later < now + policy.cooldown_seconds)
unfolding fail_row
open_until_cooldown policy now later code message row h opened = ground arith
