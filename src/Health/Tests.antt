-- ===== src/Health/Tests.antt =====
-- Runs of the health checks, and the theorems on them at concrete inputs.
use omnimemory.Prelude.{ℕ, ◌+◌, ◌≤◌, ◌≡◌, refl, ◌↔◌, true, false, none, some, List, [], ◌∷◌, arith}
use omnimemory.Prelude.Equality.{eq_ℕ}
use omnimemory.Prelude.Dict.{lookup}
use omnimemory.Breaker.{CircuitBreakerConfig, open_circuit, new}
use omnimemory.Breaker.Simple.{CircuitBreaker}
use omnimemory.Health.{
  HealthCheckConfig, HealthCheckResult, healthy, degraded, unhealthy, timeout, circuit_open,
  calculate_overall_status, new_limiter, is_allowed,
}
use omnimemory.Health.Checks.{HealthCheckManager}
use omnimemory.Health.Resources.{
  HealthManager, Check, returns, check_resource_health, limited, gate, registered, attempt,
  check_multiple_resources,
}
use omnimemory.Health.Overall.{Rules, calculate_overall_status-Rules}
use omnimemory.Health.Window.{run, granted_from, times_of, run_within_window}
use omnimemory.Health.Silent.{Answered, check_each, answers, AllClosed, answers_never_open}
use omnimemory.Health.Stuck.{Refuses, open_stays}

abbrev broken : CircuitBreaker
broken = record {
  failure_threshold = 3;
  recovery_timeout = 60;
  success_threshold = 1;
  state = open_circuit;
  failure_count = 3;
  success_count = 0;
  total_calls = 3;
  total_timeouts = 0;
  last_failure_time = some 10;
  state_changed_at = 10;
}

abbrev database_manager : HealthManager
database_manager = record {
  rate_limit_window = 60;
  max_checks_per_window = 2;
  health_checks = 1 ∷ 2 ∷ [];
  circuit_breakers = (1, broken) ∷ [];
  check_counts = (1, []) ∷ (2, []) ∷ [];
}

abbrev check : ℕ → ℕ → Check
check name now = record { name = name; now = now; later = now + 1; ended_by = returns }

-- The recovery time of 60 is long over.
abbrev late_checks : List Check
late_checks = check 1 100 ∷ check 2 5000 ∷ check 1 90000 ∷ []

open_stays_example :
    (lookup 1 (check_multiple_resources database_manager late_checks).0.circuit_breakers
      ≡ some broken)
    × Refuses 1 late_checks (check_multiple_resources database_manager late_checks).1
open_stays_example = open_stays 1 broken refl database_manager late_checks refl

late_checks-statuses :
    (check_multiple_resources database_manager late_checks).1
    ≡ circuit_open ∷ healthy ∷ circuit_open ∷ []
unfolding check_multiple_resources check_resource_health limited gate registered attempt
late_checks-statuses = refl

abbrev breaker_config : CircuitBreakerConfig
breaker_config = record {
  failure_threshold = 1;
  recovery_timeout = 60;
  jitter_range = 0;
  success_threshold = 1;
}

abbrev database : HealthCheckConfig
database = record { name = 1; critical = true; circuit_breaker_config = some breaker_config }

abbrev cache : HealthCheckConfig
cache = record { name = 2; critical = false; circuit_breaker_config = none }

-- The database's check returns that it is unhealthy, twice.
abbrev bad_news : List Answered
bad_news =
    record {
      name = 1;
      draw = 0;
      now = 10;
      later = 11;
      result = record { config = database; status = unhealthy };
    }
    ∷ record {
      name = 1;
      draw = 0;
      now = 20;
      later = 21;
      result = record { config = database; status = unhealthy };
    }
    ∷ []

abbrev watched : HealthCheckManager
watched = record {
  configs = (1, database) ∷ [];
  circuit_breakers = (1, new breaker_config 0) ∷ [];
  last_results = [];
  rate_limiter = record { max_requests = 30; window_seconds = 60; requests = [] };
}

watched-AllClosed : AllClosed watched
unfolding new
watched-AllClosed name b found = ground arith

answers_never_open_example :
    AllClosed (check_each watched bad_news).0
    × ((check_each watched bad_news).1 ≡ answers watched.configs bad_news)
answers_never_open_example = answers_never_open watched bad_news watched-AllClosed

-- The database is critical and the cache is not.
abbrev after : List HealthCheckResult
after =
    record { config = database; status = healthy }
    ∷ record { config = cache; status = timeout }
    ∷ []

calculate_overall_status-Rules_example :
    Rules after degraded ↔ calculate_overall_status after ≡ degraded
calculate_overall_status-Rules_example = calculate_overall_status-Rules after degraded

-- Client 7 asks three times, and client 8 once.
abbrev requests : List (ℕ × ℕ)
requests = (7, 10) ∷ (7, 20) ∷ (8, 25) ∷ (7, 30) ∷ []

requests-allowed : (run (new_limiter 2 60) [] requests).1 ≡ (8, 25) ∷ (7, 20) ∷ (7, 10) ∷ []
unfolding run is_allowed new_limiter
requests-allowed = refl

run_within_window_example :
    granted_from 5 60 (times_of 7 (run (new_limiter 2 60) [] requests).1) ≤ 2
run_within_window_example =
    run_within_window 2 60 7 5 requests
      (omega arith, (omega arith, (omega arith, (omega arith, tt))))
