-- ===== src/Health.antt =====
-- The health checks of src/omnimemory/adapters/adapter_health_manager.py: the statuses, the
-- limiter of requests and the overall status. A name is a number, and an instant is a number of
-- ticks. How a check function ends is part of the call. Latencies, messages, metadata and the
-- measures of the machine are left out.
pub mod Checks
pub mod Resources
pub mod Overall
pub mod Window
pub mod Silent
pub mod Stuck
mod Tests
use omnimemory.Prelude.{
  ℕ, ◌+◌, ◌*◌, Bool, true, false, not, ◌&&◌, Option, none, some, List, [], ◌∷◌, ◌++◌, length, ltb,
  leb, if◌then◌else◌, filter, is_nonempty,
}
use omnimemory.Prelude.Equality.{Eq, eq_ℕ}
use omnimemory.Prelude.Dict.{Dict, lookup, insert}
use omnimemory.Breaker.{CircuitBreakerConfig}

pub data HealthStatus : Type 0 where
  healthy degraded unhealthy unknown timeout rate_limited circuit_open : HealthStatus

-- `unhealthy_statuses` and `degraded_statuses`
abbrev pub is_unhealthy : HealthStatus → Bool
is_unhealthy unhealthy = true
is_unhealthy timeout = true
is_unhealthy circuit_open = true
is_unhealthy unknown = true
is_unhealthy s = false

abbrev pub is_degraded : HealthStatus → Bool
is_degraded degraded = true
is_degraded rate_limited = true
is_degraded s = false

abbrev pub is_healthy : HealthStatus → Bool
is_healthy healthy = true
is_healthy s = false

-- `ModelHealthCheckConfig`, without the kind of the dependency, its timeout and its metadata.
pub record HealthCheckConfig : Type 0 where
  pub name : ℕ
  pub critical : Bool
  pub circuit_breaker_config : Option CircuitBreakerConfig

pub record HealthCheckResult : Type 0 where
  pub config : HealthCheckConfig
  pub status : HealthStatus

-- The part of `calculate_overall_status` after the division of the results.
abbrev pub overall : List HealthCheckResult → List HealthCheckResult → HealthStatus
overall critical non_critical =
    if is_nonempty (filter (λ r. is_unhealthy r.status) critical)
    then unhealthy
    else if is_nonempty (filter (λ r. is_degraded r.status) critical)
    then degraded
    else if is_nonempty non_critical
        && ltb (length non_critical) (2 * length (filter (λ r. is_unhealthy r.status) non_critical))
    then degraded
    else healthy

unfoldable pub calculate_overall_status : List HealthCheckResult → HealthStatus
calculate_overall_status [] = unknown
calculate_overall_status (r ∷ results) =
    overall (filter (λ x. x.config.critical) (r ∷ results))
      (filter (λ x. not x.config.critical) (r ∷ results))

-- The `status_map` of `get_comprehensive_health` and `to_dependency_status`; its three words are
-- statuses here.
abbrev pub mapped_status : HealthStatus → HealthStatus
mapped_status healthy = healthy
mapped_status degraded = degraded
mapped_status unhealthy = unhealthy
mapped_status unknown = unhealthy
mapped_status timeout = unhealthy
mapped_status rate_limited = degraded
mapped_status circuit_open = degraded

pub record RateLimiter : Type 0 where
  pub max_requests : ℕ
  pub window_seconds : ℕ
  pub requests : Dict ℕ (List ℕ)

unfoldable pub new_limiter : ℕ → ℕ → RateLimiter
new_limiter max_requests window_seconds = record {
  max_requests = max_requests;
  window_seconds = window_seconds;
  requests = [];
}

abbrev pub requests_of : ℕ → Dict ℕ (List ℕ) → List ℕ
requests_of identifier requests = elim (lookup identifier requests) [
  | none ↦ []
  | some times ↦ times
]

-- The requests after `current_time - window_seconds`.
abbrev pub recent : ℕ → ℕ → List ℕ → List ℕ
recent window now times = filter (λ t. ltb now (t + window)) times

unfoldable pub is_allowed : RateLimiter → ℕ → ℕ → RateLimiter × Bool
is_allowed l identifier now =
    let kept = recent l.window_seconds now (requests_of identifier l.requests) in
    if leb l.max_requests (length kept)
    then (record l { requests = insert identifier kept l.requests }, false)
    else (record l { requests = insert identifier (kept ++ (now ∷ [])) l.requests }, true)
