-- ===== src/Health/Resources.antt =====
-- `HealthManager`, with breakers of adapter_concurrency.py. What a check function returns is
-- not looked at. The checks of several resources,
-- which the source starts at once, run one after another here: a check that is still running when
-- another opens its breaker, and would count on it, is left out.
use omnimemory.Prelude.{
  ℕ, Bool, true, false, Option, none, some, List, [], ◌∷◌, ◌++◌, length, leb, if◌then◌else◌, ◌==◌,
  is_nonempty,
}
use omnimemory.Prelude.Equality.{eq_ℕ}
use omnimemory.Prelude.Dict.{Dict, lookup, insert}
use omnimemory.Breaker.{is_open}
use omnimemory.Breaker.Simple.{CircuitBreaker, record_success, record_failure}
use omnimemory.Health.{
  HealthStatus, healthy, degraded, unhealthy, unknown, timeout, rate_limited, circuit_open,
  is_healthy, is_unhealthy, is_degraded, recent,
}

-- `health_checks` is the names in it.
pub record HealthManager : Type 0 where
  pub rate_limit_window : ℕ
  pub max_checks_per_window : ℕ
  pub health_checks : List ℕ
  pub circuit_breakers : Dict ℕ CircuitBreaker
  pub check_counts : Dict ℕ (List ℕ)

abbrev pub holds : ℕ → List ℕ → Bool
holds x [] = false
holds x (y ∷ ys) = if y == x then true else holds x ys

unfoldable pub register_health_check : HealthManager → ℕ → HealthManager
register_health_check m name = record m {
  health_checks =
      if holds name m.health_checks then m.health_checks else m.health_checks ++ (name ∷ []);
  check_counts = insert name [] m.check_counts;
}

pub data Ended : Type 0 where
  returns times_out raises : Ended

-- A check of a resource: its beginning, its end, and how the function ends.
pub record Check : Type 0 where
  pub name : ℕ
  pub now : ℕ
  pub later : ℕ
  pub ended_by : Ended

-- What the code does to the breaker of a name, if there is one.
abbrev pub tell_breaker : HealthManager → ℕ → (CircuitBreaker → CircuitBreaker) → HealthManager
tell_breaker m name change = elim (lookup name m.circuit_breakers) [
  | none ↦ m
  | some b ↦ record m { circuit_breakers = insert name (change b) m.circuit_breakers }
]

-- The `try` statement.
unfoldable pub attempt : HealthManager → ℕ → ℕ → Ended → HealthManager × HealthStatus
unfolding record_success record_failure
attempt m name later returns = (tell_breaker m name (λ b. record_success b later), healthy)
attempt m name later times_out = (m, timeout)
attempt m name later raises = (tell_breaker m name (λ b. record_failure b later), unhealthy)

unfoldable pub registered : HealthManager → Check → HealthManager × HealthStatus
unfolding attempt
registered m c =
    if holds c.name m.health_checks then attempt m c.name c.later c.ended_by else (m, unknown)

-- The part of `check_resource_health` after the limit.
unfoldable pub gate : HealthManager → Check → Option CircuitBreaker → HealthManager × HealthStatus
unfolding registered
gate m c none = registered m c
gate m c (some b) = if is_open b.state then (m, circuit_open) else registered m c

abbrev pub count_check : HealthManager → ℕ → List ℕ → HealthManager
count_check m name times = record m { check_counts = insert name times m.check_counts }

unfoldable pub limited : HealthManager → Check → Option (List ℕ) → HealthManager × HealthStatus
unfolding gate
limited m c none = gate m c (lookup c.name m.circuit_breakers)
limited m c (some times) =
    let kept = recent m.rate_limit_window c.now times in
    if leb m.max_checks_per_window (length kept)
    then (count_check m c.name kept, rate_limited)
    else gate (count_check m c.name (kept ++ (c.now ∷ []))) c (lookup c.name m.circuit_breakers)

unfoldable pub check_resource_health : HealthManager → Check → HealthManager × HealthStatus
unfolding limited
check_resource_health m c = limited m c (lookup c.name m.check_counts)

-- `check_multiple_resources`
unfoldable pub check_multiple_resources :
    HealthManager → List Check → HealthManager × List HealthStatus
unfolding check_resource_health
check_multiple_resources m [] = (m, [])
check_multiple_resources m (c ∷ checks) =
    let s = check_resource_health m c in
    let rest = check_multiple_resources s.0 checks in (rest.0, s.1 ∷ rest.1)

abbrev pub all_healthy : List HealthStatus → Bool
all_healthy [] = true
all_healthy (s ∷ statuses) = if is_healthy s then all_healthy statuses else false

abbrev pub any_status : (HealthStatus → Bool) → List HealthStatus → Bool
any_status test [] = false
any_status test (s ∷ statuses) = if test s then true else any_status test statuses

unfoldable pub overall_status : List HealthStatus → HealthStatus
overall_status statuses =
    if all_healthy statuses
    then healthy
    else if any_status is_unhealthy statuses
    then unhealthy
    else if any_status is_degraded statuses
    then degraded
    else degraded

abbrev pub checks_of : List ℕ → (ℕ → Check) → List Check
checks_of [] make = []
checks_of (name ∷ names) make = record (make name) { name = name } ∷ checks_of names make

-- `get_system_health`, with the check that is made of each name.
unfoldable pub get_system_health :
    HealthManager → (ℕ → Check) → HealthManager × (HealthStatus × List HealthStatus)
unfolding check_multiple_resources overall_status
get_system_health m make =
    let s = check_multiple_resources m (checks_of m.health_checks make) in
    if is_nonempty m.health_checks then (s.0, (overall_status s.1, s.1)) else (m, (healthy, []))

-- `cleanup`
unfoldable pub cleanup : HealthManager → HealthManager
cleanup m = record m { health_checks = []; circuit_breakers = []; check_counts = [] }
