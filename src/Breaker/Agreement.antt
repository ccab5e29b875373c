-- ===== src/Breaker/Agreement.antt =====
-- The two circuit breakers of the program against each other.
use omnimemory.Prelude.{ℕ, ◌≡◌, ◌≢◌, refl, none, List, [], ◌∷◌, arith}
use omnimemory.Breaker.{
  CircuitState, closed, open_circuit, half_open, CircuitBreakerConfig, AsyncCircuitBreaker, Outcome,
  returned, timed_out, raised, cancelled, CallResult, effective_timeout,
}
use omnimemory.Breaker
use omnimemory.Breaker.Simple
use omnimemory.Breaker.Simple.{CircuitBreaker}

-- The same settings and the same history. The count of successes is compared where it decides.
pub record Agree (a : AsyncCircuitBreaker) (b : CircuitBreaker) : Type 0 where
  pub same_failures : b.failure_threshold ≡ a.config.failure_threshold
  pub same_timeout : b.recovery_timeout ≡ a.config.recovery_timeout
  pub same_successes : b.success_threshold ≡ a.config.success_threshold
  pub same_state : b.state ≡ a.state
  pub same_failure_count : b.failure_count ≡ a.stats.failure_count
  pub same_success_count : a.state ≡ half_open → b.success_count ≡ a.stats.success_count
  pub same_last_failure : b.last_failure_time ≡ a.stats.last_failure_time
  pub same_change : b.state_changed_at ≡ a.stats.state_changed_at
  pub same_calls : b.total_calls ≡ a.stats.total_calls
  pub same_timeouts : b.total_timeouts ≡ a.stats.total_timeouts
  pub open_failed : a.state ≡ open_circuit → a.stats.last_failure_time ≢ none

new-Agree :
    (c : CircuitBreakerConfig) (now : ℕ)
    → Agree
        (Breaker.new c now)
        (Simple.init c.failure_threshold c.recovery_timeout c.success_threshold now)
unfolding Breaker.new Simple.init
new-Agree c now = ground arith

call-Agree :
    (a : AsyncCircuitBreaker) (b : CircuitBreaker) (now later : ℕ) (outcome : Outcome)
    → Agree a b
    → let p = Breaker.call a a.config.jitter_range now outcome later in
      let q = Simple.call b now outcome later in Agree p.0 q.0 × (p.1 ≡ q.1)
unfolding Breaker.call Simple.call
call-Agree a b now later returned agree = ground arith
call-Agree a b now later timed_out agree = ground arith
call-Agree a b now later raised agree = ground arith
call-Agree a b now later cancelled agree = ground arith

-- Calls one after another: when each begins, how its function ends, and when.
pub record Attempt : Type 0 where
  pub starts : ℕ
  pub outcome : Outcome
  pub ends : ℕ

-- What each call returns, by the breaker with jitter drawn as nothing, and by the simple one.
unfoldable pub results : AsyncCircuitBreaker → List Attempt → List CallResult
results a [] = []
results a (t ∷ ts) =
    let (a', r) = Breaker.call a a.config.jitter_range t.starts t.outcome t.ends in
    r ∷ results a' ts

unfoldable pub simple_results : CircuitBreaker → List Attempt → List CallResult
simple_results b [] = []
simple_results b (t ∷ ts) =
    let (b', r) = Simple.call b t.starts t.outcome t.ends in r ∷ simple_results b' ts

results-simple_results :
    (a : AsyncCircuitBreaker) (b : CircuitBreaker) (ts : List Attempt)
    → Agree a b
    → results a ts ≡ simple_results b ts
unfolding results simple_results
results-simple_results a b [] agree = refl
results-simple_results a b (t ∷ ts) agree =
    let (agree', same) = call-Agree a b t.starts t.ends t.outcome agree in
    ground (
      arith,
      same,
      results-simple_results (Breaker.call a a.config.jitter_range t.starts t.outcome t.ends).0
          (Simple.call b t.starts t.outcome t.ends).0 ts agree',
    )

-- With equal settings, no jitter drawn, and calls one after another, both breakers reject the
-- same calls and run the same calls with the same ends.
pub breakers_agree :
    (c : CircuitBreakerConfig) (now : ℕ) (ts : List Attempt)
    → results (Breaker.new c now) ts
      ≡ simple_results
          (Simple.init c.failure_threshold c.recovery_timeout c.success_threshold now)
          ts
breakers_agree c now ts = results-simple_results _ _ ts (new-Agree c now)
