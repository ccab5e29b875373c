-- ===== src/Health/Checks.antt =====
-- `HealthCheckManager`. The checks of `check_all_dependencies` run one after another here: each
-- has its own name, and none of them looks at another's state.
use omnimemory.Prelude.{ℕ, true, Option, none, some, List, [], ◌∷◌, if◌then◌else◌, map}
use omnimemory.Prelude.Equality.{eq_ℕ}
use omnimemory.Prelude.Dict.{Dict, lookup, insert}
use omnimemory.Breaker.{
  AsyncCircuitBreaker, CallResult, rejected, ended, Outcome, returned, timed_out, raised, new, call,
}
use omnimemory.Health.{
  HealthStatus, unhealthy, unknown, timeout, HealthCheckConfig, HealthCheckResult, RateLimiter,
  new_limiter, is_allowed, calculate_overall_status, mapped_status,
}

-- The check functions are the ones of `configs`.
pub record HealthCheckManager : Type 0 where
  pub configs : Dict ℕ HealthCheckConfig
  pub circuit_breakers : Dict ℕ AsyncCircuitBreaker
  pub last_results : Dict ℕ HealthCheckResult
  pub rate_limiter : RateLimiter

-- `__init__`, with its limit of 30 requests in 60 seconds, of so many ticks.
unfoldable pub new_manager : ℕ → HealthCheckManager
unfolding new_limiter
new_manager sixty_seconds = record {
  configs = [];
  circuit_breakers = [];
  last_results = [];
  rate_limiter = new_limiter 30 sixty_seconds;
}

-- `register_health_check`, at an instant.
unfoldable pub register_health_check :
    HealthCheckManager → HealthCheckConfig → ℕ → HealthCheckManager
unfolding new
register_health_check m config now = record m {
  configs = insert config.name config m.configs;
  circuit_breakers = elim config.circuit_breaker_config [
    | none ↦ m.circuit_breakers
    | some c ↦ insert config.name (new c now) m.circuit_breakers
  ];
}

-- How a check function ends: the result that it returns is its own, configuration included.
pub data Ended : Type 0 where
  returns : HealthCheckResult → Ended
  times_out : Ended
  raises : Ended

abbrev pub outcome : Ended → Outcome
outcome (returns r) = returned
outcome times_out = timed_out
outcome raises = raised

-- A check: its beginning and its end, the jitter of the breaker, and how the function ends.
pub record Check : Type 0 where
  pub draw : ℕ
  pub now : ℕ
  pub later : ℕ
  pub ended_by : Ended

-- The result that the `try` statement makes.
abbrev pub result_of : HealthCheckConfig → Ended → HealthCheckResult
result_of config (returns r) = r
result_of config times_out = record { config = config; status = timeout }
result_of config raises = record { config = config; status = unhealthy }

abbrev pub settle :
    HealthCheckManager → ℕ → HealthCheckResult → HealthCheckManager × HealthCheckResult
settle m name r = (record m { last_results = insert name r m.last_results }, r)

-- The exception of an open breaker is one that is not a timeout.
unfoldable pub called :
    HealthCheckManager
    → ℕ
    → HealthCheckConfig
    → Check
    → AsyncCircuitBreaker × CallResult
    → HealthCheckManager × HealthCheckResult
called m name config c (b, rejected) =
    settle (record m { circuit_breakers = insert name b m.circuit_breakers }) name
      (result_of config raises)
called m name config c (b, ended o) =
    settle (record m { circuit_breakers = insert name b m.circuit_breakers }) name
      (result_of config c.ended_by)

unfoldable pub guarded :
    HealthCheckManager
    → ℕ
    → HealthCheckConfig
    → Check
    → Option AsyncCircuitBreaker
    → HealthCheckManager × HealthCheckResult
unfolding call called
guarded m name config c none = settle m name (result_of config c.ended_by)
guarded m name config c (some b) =
    called m name config c (call b c.draw c.now (outcome c.ended_by) c.later)

abbrev pub not_registered : ℕ → HealthCheckResult
not_registered name = record {
  config = record { name = name; critical = true; circuit_breaker_config = none };
  status = unknown;
}

unfoldable pub configured :
    HealthCheckManager
    → ℕ
    → Check
    → Option HealthCheckConfig
    → HealthCheckManager × HealthCheckResult
unfolding guarded
configured m name c none = (m, not_registered name)
configured m name c (some config) = guarded m name config c (lookup name m.circuit_breakers)

unfoldable pub check_single_dependency :
    HealthCheckManager → ℕ → Check → HealthCheckManager × HealthCheckResult
unfolding configured
check_single_dependency m name c = configured m name c (lookup name m.configs)

unfoldable pub check_names :
    HealthCheckManager → List ℕ → (ℕ → Check) → HealthCheckManager × List HealthCheckResult
unfolding check_single_dependency
check_names m [] checks = (m, [])
check_names m (name ∷ names) checks =
    let s = check_single_dependency m name (checks name) in
    let rest = check_names s.0 names checks in (rest.0, s.1 ∷ rest.1)

abbrev pub names_of : Dict ℕ HealthCheckConfig → List ℕ
names_of [] = []
names_of ((name, config) ∷ configs) = name ∷ names_of configs

unfoldable pub check_all_dependencies :
    HealthCheckManager → (ℕ → Check) → HealthCheckManager × List HealthCheckResult
unfolding check_names
check_all_dependencies m checks = check_names m (names_of m.configs) checks

-- `get_comprehensive_health`: the status, and those of the dependencies.
unfoldable pub get_comprehensive_health :
    HealthCheckManager → (ℕ → Check) → HealthCheckManager × (HealthStatus × List HealthStatus)
unfolding check_all_dependencies calculate_overall_status
get_comprehensive_health m checks =
    let s = check_all_dependencies m checks in
    (s.0, (mapped_status (calculate_overall_status s.1), map (λ r. mapped_status r.status) s.1))

-- `rate_limited_health_check`; without a response, the request was refused.
unfoldable pub rate_limited_health_check :
    HealthCheckManager
    → ℕ
    → ℕ
    → (ℕ → Check)
    → HealthCheckManager × Option (HealthStatus × List HealthStatus)
unfolding is_allowed get_comprehensive_health
rate_limited_health_check m client now checks =
    let (limiter, allowed) = is_allowed m.rate_limiter client now in
    let m' = record m { rate_limiter = limiter } in
    let s = get_comprehensive_health m' checks in if allowed then (s.0, some s.1) else (m', none)
