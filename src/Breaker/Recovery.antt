-- ===== src/Breaker/Recovery.antt =====
-- When a breaker opens, how long it refuses calls, and how it closes again.
use omnimemory.Prelude.{
  ℕ, ◌+◌, ◌-◌, ◌*◌, ◌≤◌, ◌<◌, ◌≡◌, refl, ap, some, List, [], ◌∷◌, leb, if◌then◌else◌, arith, map,
  length,
}
use omnimemory.Breaker.{
  CircuitState, closed, open_circuit, half_open, CircuitBreakerConfig, AsyncCircuitBreaker, Event,
  begin, succeed, fail, new, run, admit, transition_to_half_open, call, rejected, Outcome, ended,
}
use omnimemory.Breaker.Invariant.{IsSane, IsValid}
use omnimemory.Breaker.Phase.{
  Phase, healthy, tripped, probing, advance_all, phase, run-phase, run-phase_from,
}

-- A draw of `random.uniform` lies in the configured range, which is no wider than the timeout.
pub record IsDraw (c : CircuitBreakerConfig) (draw : ℕ) : Type 0 where
  pub drawn : draw ≤ 2 * c.jitter_range
  pub narrow : c.jitter_range ≤ c.recovery_timeout

-- While the time since the last failure is shorter than the timeout less its jitter, and the draw
-- is in range, an open breaker rejects a call, whatever the function would have done, and nothing
-- changes.
pub call_rejected :
    (b : AsyncCircuitBreaker) (t draw now later : ℕ) (outcome : Outcome)
    → b.state ≡ open_circuit
    → b.stats.last_failure_time ≡ some t
    → IsDraw b.config draw
    → now < t + (b.config.recovery_timeout - b.config.jitter_range)
    → call b draw now outcome later ≡ (b, rejected)
unfolding call
call_rejected b t draw now later outcome opened failed drawn early = ground arith

-- Once the time since the last failure has reached the timeout and its jitter, and the draw is in
-- range, an open breaker runs the function, half open and with the count of successes begun anew.
pub call_probes :
    (b : AsyncCircuitBreaker) (t draw now later : ℕ) (outcome : Outcome)
    → b.state ≡ open_circuit
    → b.stats.last_failure_time ≡ some t
    → IsDraw b.config draw
    → t + b.config.recovery_timeout + b.config.jitter_range ≤ now
    → ((call b draw now outcome later).1 ≡ ended outcome)
      × ((b' : AsyncCircuitBreaker) × (admit b draw now ≡ some b')
          × (b'.state ≡ half_open)
          × (b'.stats.success_count ≡ 0))
unfolding call
call_probes b t draw now later outcome opened failed drawn late =
    (ground arith, (transition_to_half_open b now, ground arith, ground arith, ground arith))

abbrev pub failing : List ℕ → List Event
failing = map fail

abbrev pub succeeding : List ℕ → List Event
succeeding = map succeed

abbrev latest : ℕ → List ℕ → ℕ
latest t [] = t
latest t (u ∷ ts) = latest u ts

tripped_failing :
    (c : CircuitBreakerConfig) (t : ℕ) (ts : List ℕ)
    → advance_all c (tripped t) (failing ts) ≡ tripped (latest t ts)
unfolding advance_all
tripped_failing c t [] = refl
tripped_failing c t (u ∷ ts) = tripped_failing c u ts

-- Whether the breaker is open after failures in a row.
abbrev broken : CircuitBreakerConfig → ℕ → List ℕ → CircuitState
broken c k ts = if leb c.failure_threshold (k + length ts) then open_circuit else closed

abbrev state_of : Phase → CircuitState
state_of (healthy k) = closed
state_of (tripped t) = open_circuit
state_of (probing j) = half_open

state_of-phase : (b : AsyncCircuitBreaker) → state_of (phase b) ≡ b.state
state_of-phase b = ground arith

healthy_failing :
    (c : CircuitBreakerConfig) (k : ℕ) (ts : List ℕ)
    → k < c.failure_threshold
    → state_of (advance_all c (healthy k) (failing ts)) ≡ broken c k ts
unfolding advance_all
healthy_failing c k [] below = ground arith
healthy_failing c k (t ∷ ts) below =
    ground (arith, tripped_failing c t ts, healthy_failing c (k + 1) ts)

-- From the start, failures in a row open the breaker exactly when there are as many as the
-- failure threshold.
pub failures_open :
    (c : CircuitBreakerConfig) (now : ℕ) (ts : List ℕ)
    → IsSane c
    → (run (new c now) (failing ts)).state
      ≡ (if leb c.failure_threshold (length ts) then open_circuit else closed)
failures_open c now ts sane = ground (
  arith,
  state_of-phase (run (new c now) (failing ts)),
  ap state_of (run-phase c now (failing ts) sane),
  healthy_failing c 0 ts sane.failures,
)

-- Where successes in a row lead a breaker that is trying calls out.
abbrev pub recovered : CircuitBreakerConfig → ℕ → List ℕ → Phase
recovered c j ts =
    if leb c.success_threshold (j + length ts) then healthy 0 else probing (j + length ts)

healthy_succeeding :
    (c : CircuitBreakerConfig) (ts : List ℕ) → advance_all c (healthy 0) (succeeding ts) ≡ healthy 0
unfolding advance_all
healthy_succeeding c [] = refl
healthy_succeeding c (t ∷ ts) = healthy_succeeding c ts

probing_succeeding :
    (c : CircuitBreakerConfig) (j : ℕ) (ts : List ℕ)
    → j < c.success_threshold
    → advance_all c (probing j) (succeeding ts) ≡ recovered c j ts
unfolding advance_all
probing_succeeding c j [] below = ground arith
probing_succeeding c j (t ∷ ts) below =
    ground (arith, healthy_succeeding c ts, probing_succeeding c (j + 1) ts)

-- An open breaker that admits a call after its timeout and jitter, and then sees only successes,
-- is closed with no failure on count exactly when there are as many as the success threshold;
-- before that it is half open and has counted each of them.
pub successes_close :
    (b : AsyncCircuitBreaker) (t draw now : ℕ) (ts : List ℕ)
    → IsSane b.config
    → IsValid b
    → b.state ≡ open_circuit
    → b.stats.last_failure_time ≡ some t
    → IsDraw b.config draw
    → t + b.config.recovery_timeout + b.config.jitter_range ≤ now
    → phase (run b (begin draw now ∷ succeeding ts)) ≡ recovered b.config 0 ts
unfolding advance_all
successes_close b t draw now ts sane valid opened failed drawn late = ground (
  arith,
  run-phase_from b.config b (begin draw now ∷ succeeding ts) refl sane valid,
  probing_succeeding b.config 0 ts,
)
