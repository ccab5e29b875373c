-- ===== src/Breaker/Tests.antt =====
-- Runs of the two circuit breakers, and the theorems on them at concrete inputs.
use omnimemory.Prelude.{◌≡◌, refl, List, [], ◌∷◌, arith}
use omnimemory.Breaker
use omnimemory.Breaker.{
  CircuitBreakerConfig, AsyncCircuitBreaker, closed, open_circuit, half_open, new, admit, call,
  Event, begin, succeed, time_out, fail, run, returned, raised, timed_out, cancelled, rejected,
  ended,
}
use omnimemory.Breaker.Invariant.{IsSane}
use omnimemory.Breaker.Phase.{healthy, advance_all, phase, run-phase}
use omnimemory.Breaker.Simple
use omnimemory.Breaker.Agreement.{Attempt, results, simple_results, breakers_agree}

-- Opens after two failures, for a hundred microseconds more or less ten, and closes after two
-- successes.
abbrev config : CircuitBreakerConfig
config = record {
  failure_threshold = 2;
  recovery_timeout = 100;
  jitter_range = 10;
  success_threshold = 2;
}

config-IsSane : IsSane config
config-IsSane = record { failures = omega arith; successes = omega arith }

-- Two calls fail, and two that are let in after the timeout succeed.
abbrev events : List Event
events =
    begin 10 1
    ∷ begin 10 2
    ∷ fail 3
    ∷ time_out
    ∷ fail 4
    ∷ begin 10 200
    ∷ succeed 201
    ∷ succeed 202
    ∷ []

events_close : (run (new config 0) events).state ≡ closed
unfolding run new
events_close = refl

run-phase_example : phase (run (new config 0) events) ≡ advance_all config (healthy 0) events
run-phase_example = run-phase config 0 events config-IsSane

abbrev calls : List Attempt
calls =
    record { starts = 1; outcome = raised; ends = 2 }
    ∷ record { starts = 3; outcome = timed_out; ends = 4 }
    ∷ record { starts = 50; outcome = returned; ends = 60 }
    ∷ record { starts = 104; outcome = returned; ends = 110 }
    ∷ []

breakers_agree_example :
    results (Breaker.new config 0) calls ≡ simple_results (Simple.init 2 100 2 0) calls
breakers_agree_example = breakers_agree config 0 calls
