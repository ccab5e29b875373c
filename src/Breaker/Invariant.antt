-- ===== src/Breaker/Invariant.antt =====
-- What holds of a breaker whatever calls interleave.
use omnimemory.Prelude.{ℕ, ◌+◌, ◌≤◌, ◌<◌, ◌≡◌, ◌≢◌, none, List, [], ◌∷◌, arith}
use omnimemory.Breaker.{
  closed, open_circuit, half_open, CircuitBreakerConfig, AsyncCircuitBreaker, Event, begin, succeed,
  time_out, fail, new, step, run,
}

-- The bounds that the configuration is validated for.
pub record IsSane (c : CircuitBreakerConfig) : Type 0 where
  pub failures : 1 ≤ c.failure_threshold
  pub successes : 1 ≤ c.success_threshold

pub record IsValid (b : AsyncCircuitBreaker) : Type 0 where
  pub closed_below : b.state ≡ closed → b.stats.failure_count < b.config.failure_threshold
  pub open_failed : b.state ≡ open_circuit → b.stats.last_failure_time ≢ none
  pub half_open_below : b.state ≡ half_open → b.stats.success_count < b.config.success_threshold
  pub failures_counted : b.stats.failure_count ≤ b.stats.total_calls

pub new-IsValid : (c : CircuitBreakerConfig) (now : ℕ) → IsSane c → IsValid (new c now)
unfolding new
new-IsValid c now sane = ground arith

pub step-config : (b : AsyncCircuitBreaker) (e : Event) → (step b e).config ≡ b.config
unfolding step
step-config b (begin draw now) = ground arith
step-config b e = ground arith

pub step-IsValid :
    (b : AsyncCircuitBreaker) (e : Event) → IsSane b.config → IsValid b → IsValid (step b e)
unfolding step
step-IsValid b (begin draw now) sane valid = ground arith
step-IsValid b (succeed now) sane valid = ground arith
step-IsValid b time_out sane valid = ground arith
step-IsValid b (fail now) sane valid = ground arith

run-IsValid_from :
    (b : AsyncCircuitBreaker) (es : List Event) → IsSane b.config → IsValid b → IsValid (run b es)
unfolding run
run-IsValid_from b [] sane valid = valid
run-IsValid_from b (e ∷ es) sane valid =
    run-IsValid_from (step b e) es (rw (step-config b e) sane) (step-IsValid b e sane valid)

-- A breaker with a valid configuration is, after any events of any calls, closed only below its
-- failure threshold, open only after a failure, and half open only below its success threshold,
-- and it counts no more failures than calls.
pub run-IsValid :
    (c : CircuitBreakerConfig) (now : ℕ) (es : List Event) → IsSane c → IsValid (run (new c now) es)
unfolding new
run-IsValid c now es sane = run-IsValid_from (new c now) es sane (new-IsValid c now sane)

-- The calls that have ended, and the timeouts among them.
unfoldable pub completions : List Event → ℕ
completions [] = 0
completions (begin draw now ∷ es) = completions es
completions (succeed now ∷ es) = completions es + 1
completions (time_out ∷ es) = completions es
completions (fail now ∷ es) = completions es + 1

unfoldable pub timeouts : List Event → ℕ
timeouts [] = 0
timeouts (begin draw now ∷ es) = timeouts es
timeouts (succeed now ∷ es) = timeouts es
timeouts (time_out ∷ es) = timeouts es + 1
timeouts (fail now ∷ es) = timeouts es

Counts : AsyncCircuitBreaker → AsyncCircuitBreaker → ℕ → ℕ → Type 0
Counts b b' calls late =
    (b'.stats.total_calls ≡ b.stats.total_calls + calls)
    × (b'.stats.total_timeouts ≡ b.stats.total_timeouts + late)

run-Counts :
    (b : AsyncCircuitBreaker) (es : List Event) → Counts b (run b es) (completions es) (timeouts es)
unfolding run completions timeouts step Counts
run-Counts b [] = (omega arith, omega arith)
run-Counts b (begin draw now ∷ es) = ground (arith, run-Counts (step b (begin draw now)) es)
run-Counts b (succeed now ∷ es) = ground (arith, run-Counts (step b (succeed now)) es)
run-Counts b (time_out ∷ es) = ground (arith, run-Counts (step b time_out) es)
run-Counts b (fail now ∷ es) = ground (arith, run-Counts (step b (fail now)) es)

-- After any events of calls of a new breaker, `total_calls` is the number of successes and
-- failures among them, and `total_timeouts` that of the timeouts: calls that were rejected or are
-- still running count nowhere.
pub run_counts :
    (c : CircuitBreakerConfig) (now : ℕ) (es : List Event)
    → let s = (run (new c now) es).stats in
      (s.total_calls ≡ completions es) × (s.total_timeouts ≡ timeouts es)
unfolding new Counts
run_counts c now es = omega (arith, run-Counts (new c now) es)
