-- ===== src/Breaker.antt =====
-- `AsyncCircuitBreaker` of src/omnimemory/adapters/adapter_resource_manager.py, with the settings
-- of src/omnimemory/models/utils/model_circuit_breaker_config.py. Instants and durations are
-- whole microseconds, as those of `datetime` are; the clock and the random jitter are arguments.
-- What a call does between two waits is one event, and the events of several calls may
-- interleave.
pub mod Simple
pub mod Invariant
pub mod Phase
pub mod Recovery
pub mod Agreement
mod Tests
use omnimemory.Prelude.{
  ℕ, ◌+◌, ◌-◌, Bool, true, false, ◌&&◌, ◌||◌, Option, none, some, List, [], ◌∷◌, leb, if◌then◌else◌,
}

pub data CircuitState : Type 0 where
  closed open_circuit half_open : CircuitState

pub record CircuitBreakerConfig : Type 0 where
  pub failure_threshold : ℕ
  pub recovery_timeout : ℕ
  -- `recovery_timeout * recovery_timeout_jitter`, a float product.
  pub jitter_range : ℕ
  pub success_threshold : ℕ

pub record CircuitBreakerStats : Type 0 where
  pub failure_count : ℕ
  pub success_count : ℕ
  pub last_failure_time : Option ℕ
  pub state_changed_at : ℕ
  pub total_calls : ℕ
  pub total_timeouts : ℕ

pub record AsyncCircuitBreaker : Type 0 where
  pub config : CircuitBreakerConfig
  pub state : CircuitState
  pub stats : CircuitBreakerStats

abbrev pub is_closed : CircuitState → Bool
is_closed closed = true
is_closed _ = false

abbrev pub is_open : CircuitState → Bool
is_open open_circuit = true
is_open _ = false

abbrev pub is_half_open : CircuitState → Bool
is_half_open half_open = true
is_half_open _ = false

-- `__init__`, at an instant.
unfoldable pub new : CircuitBreakerConfig → ℕ → AsyncCircuitBreaker
new c now = record {
  config = c;
  state = closed;
  stats = record {
    failure_count = 0;
    success_count = 0;
    last_failure_time = none;
    state_changed_at = now;
    total_calls = 0;
    total_timeouts = 0;
  };
}

-- `random.uniform(-jitter_range, jitter_range)` is `draw - jitter_range`, for a draw from 0 to
-- twice the range.
abbrev pub effective_timeout : CircuitBreakerConfig → ℕ → ℕ
effective_timeout c draw = c.recovery_timeout + draw - c.jitter_range

abbrev pub due : CircuitBreakerConfig → ℕ → ℕ → Option ℕ → Bool
due c draw now none = true
due c draw now (some t) = leb (t + effective_timeout c draw) now

unfoldable pub should_attempt_reset : AsyncCircuitBreaker → ℕ → ℕ → Bool
should_attempt_reset b draw now = due b.config draw now b.stats.last_failure_time

unfoldable pub transition_to_half_open : AsyncCircuitBreaker → ℕ → AsyncCircuitBreaker
transition_to_half_open b now = record b {
  state = half_open;
  stats = record (b.stats) { state_changed_at = now; success_count = 0 };
}

unfoldable pub transition_to_closed : AsyncCircuitBreaker → ℕ → AsyncCircuitBreaker
transition_to_closed b now = record b {
  state = closed;
  stats = record (b.stats) { state_changed_at = now; failure_count = 0 };
}

unfoldable pub transition_to_open : AsyncCircuitBreaker → ℕ → AsyncCircuitBreaker
transition_to_open b now = record b {
  state = open_circuit;
  stats = record (b.stats) { state_changed_at = now };
}

-- The first section of `call` under the lock; `none` is `CircuitBreakerError`.
unfoldable pub admit : AsyncCircuitBreaker → ℕ → ℕ → Option AsyncCircuitBreaker
unfolding should_attempt_reset transition_to_half_open
admit b draw now =
    if is_open b.state
    then (if should_attempt_reset b draw now then some (transition_to_half_open b now) else none)
    else some b

unfoldable pub on_success : AsyncCircuitBreaker → ℕ → AsyncCircuitBreaker
unfolding transition_to_closed
on_success b now =
    let counted = record b { stats = record (b.stats) { total_calls = b.stats.total_calls + 1 } } in
    if is_half_open b.state
    then (let tried = record counted {
      stats = record (counted.stats) { success_count = b.stats.success_count + 1 };
    } in
        if leb b.config.success_threshold tried.stats.success_count
        then transition_to_closed tried now
        else tried)
    else if is_closed b.state
    then record counted { stats = record (counted.stats) { failure_count = 0 } }
    else counted

unfoldable pub on_failure : AsyncCircuitBreaker → ℕ → AsyncCircuitBreaker
unfolding transition_to_open
on_failure b now =
    let failed = record b {
      stats = record (b.stats) {
        total_calls = b.stats.total_calls + 1;
        failure_count = b.stats.failure_count + 1;
        last_failure_time = some now;
      };
    } in
    if is_closed b.state && leb b.config.failure_threshold failed.stats.failure_count
      || is_half_open b.state
    then transition_to_open failed now
    else failed

-- `self.stats.total_timeouts += 1`, which runs before the wait for the lock in `_on_failure`.
unfoldable pub count_timeout : AsyncCircuitBreaker → AsyncCircuitBreaker
count_timeout b = record b {
  stats = record (b.stats) { total_timeouts = b.stats.total_timeouts + 1 };
}

-- How the awaited function ends. A cancelled call is recorded nowhere.
pub data Outcome : Type 0 where
  returned timed_out raised cancelled : Outcome

-- How a call ends: the function is not run, or it ended in a certain way.
pub data CallResult : Type 0 where
  rejected : CallResult
  ended : Outcome → CallResult

unfoldable pub record_outcome : AsyncCircuitBreaker → Outcome → ℕ → AsyncCircuitBreaker
unfolding on_success on_failure count_timeout
record_outcome b returned now = on_success b now
record_outcome b timed_out now = on_failure (count_timeout b) now
record_outcome b raised now = on_failure b now
record_outcome b cancelled now = b

-- `call` when no other call's events fall between its own: it begins at `now`, and the function,
-- if it is run, ends at `later`.
unfoldable pub call : AsyncCircuitBreaker → ℕ → ℕ → Outcome → ℕ → AsyncCircuitBreaker × CallResult
unfolding admit record_outcome
call b draw now outcome later = elim (admit b draw now) [
  | none ↦ (b, rejected)
  | some b' ↦ (record_outcome b' outcome later, ended outcome)
]

-- The events of calls that interleave, each with its instant.
pub data Event : Type 0 where
  begin : ℕ → ℕ → Event
  succeed : ℕ → Event
  time_out : Event
  fail : ℕ → Event

abbrev pub admitted : AsyncCircuitBreaker → Option AsyncCircuitBreaker → AsyncCircuitBreaker
admitted b none = b
admitted b (some b') = b'

unfoldable pub step : AsyncCircuitBreaker → Event → AsyncCircuitBreaker
unfolding admit on_success on_failure count_timeout
step b (begin draw now) = admitted b (admit b draw now)
step b (succeed now) = on_success b now
step b time_out = count_timeout b
step b (fail now) = on_failure b now

unfoldable pub run : AsyncCircuitBreaker → List Event → AsyncCircuitBreaker
unfolding step
run b [] = b
run b (e ∷ es) = run (step b e) es
