-- ===== src/Breaker/Phase.antt =====
-- A breaker as an abstract machine: only what decides its next state.
use omnimemory.Prelude.{
  ℕ, ◌+◌, ◌≡◌, refl, ap, ◌∙◌, Option, none, some, List, [], ◌∷◌, leb, if◌then◌else◌, arith,
}
use omnimemory.Breaker.{
  CircuitState, closed, open_circuit, half_open, CircuitBreakerConfig, AsyncCircuitBreaker, Event,
  begin, succeed, time_out, fail, effective_timeout, new, step, run,
}
use omnimemory.Breaker.Invariant.{IsSane, IsValid, new-IsValid, step-IsValid, step-config}

-- Letting calls through after some failures in a row, refusing them since a failure at an
-- instant, or trying them out after some successes.
pub data Phase : Type 0 where
  healthy : ℕ → Phase
  tripped : ℕ → Phase
  probing : ℕ → Phase

unfoldable pub advance : CircuitBreakerConfig → Phase → Event → Phase
advance c (healthy k) (begin draw now) = healthy k
advance c (healthy k) (succeed now) = healthy 0
advance c (healthy k) time_out = healthy k
advance c (healthy k) (fail now) =
    if leb c.failure_threshold (k + 1) then tripped now else healthy (k + 1)
advance c (tripped t) (begin draw now) =
    if leb (t + effective_timeout c draw) now then probing 0 else tripped t
advance c (tripped t) (succeed now) = tripped t
advance c (tripped t) time_out = tripped t
advance c (tripped t) (fail now) = tripped now
advance c (probing j) (begin draw now) = probing j
advance c (probing j) (succeed now) =
    if leb c.success_threshold (j + 1) then healthy 0 else probing (j + 1)
advance c (probing j) time_out = probing j
advance c (probing j) (fail now) = tripped now

unfoldable pub advance_all : CircuitBreakerConfig → Phase → List Event → Phase
unfolding advance
advance_all c p [] = p
advance_all c p (e ∷ es) = advance_all c (advance c p e) es

abbrev pub since : Option ℕ → ℕ
since none = 0
since (some t) = t

abbrev pub phase_of : CircuitState → ℕ → Option ℕ → ℕ → Phase
phase_of closed failures last successes = healthy failures
phase_of open_circuit failures last successes = tripped (since last)
phase_of half_open failures last successes = probing successes

abbrev pub phase : AsyncCircuitBreaker → Phase
phase b = phase_of b.state b.stats.failure_count b.stats.last_failure_time b.stats.success_count

step-phase :
    (b : AsyncCircuitBreaker) (e : Event)
    → IsValid b
    → phase (step b e) ≡ advance b.config (phase b) e
unfolding step advance
step-phase b (begin draw now) valid = ground arith
step-phase b (succeed now) valid = ground arith
step-phase b time_out valid = ground arith
step-phase b (fail now) valid = ground arith

pub run-phase_from :
    (c : CircuitBreakerConfig) (b : AsyncCircuitBreaker) (es : List Event)
    → b.config ≡ c
    → IsSane c
    → IsValid b
    → phase (run b es) ≡ advance_all c (phase b) es
unfolding run advance_all
run-phase_from c b [] same sane valid = refl
run-phase_from c b (e ∷ es) same sane valid =
    rw (← ap (λ d. advance d (phase b) e) same, ← step-phase b e valid)
      (run-phase_from c (step b e) es (step-config b e ∙ same) sane
        (step-IsValid b e (rw same sane) valid))

-- A breaker with a valid configuration implements the abstract machine, over any events of any
-- calls that interleave.
pub run-phase :
    (c : CircuitBreakerConfig) (now : ℕ) (es : List Event)
    → IsSane c
    → phase (run (new c now) es) ≡ advance_all c (healthy 0) es
unfolding new
run-phase c now es sane = run-phase_from c (new c now) es refl sane (new-IsValid c now sane)
