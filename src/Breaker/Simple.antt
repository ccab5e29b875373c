-- ===== src/Breaker/Simple.antt =====
-- `CircuitBreaker` of src/omnimemory/adapters/adapter_concurrency.py. Every method holds the
-- thread lock from end to end, and so is one step; the clock is an argument. Settings are not
-- validated.
use omnimemory.Prelude.{ℕ, ◌+◌, Bool, true, false, Option, none, some, leb, if◌then◌else◌}
use omnimemory.Breaker.{
  CircuitState, closed, open_circuit, half_open, is_closed, is_open, is_half_open, Outcome,
  returned, timed_out, raised, cancelled, CallResult, rejected, ended,
}

pub record CircuitBreaker : Type 0 where
  pub failure_threshold : ℕ
  pub recovery_timeout : ℕ
  pub success_threshold : ℕ
  pub state : CircuitState
  pub failure_count : ℕ
  pub success_count : ℕ
  pub total_calls : ℕ
  pub total_timeouts : ℕ
  pub last_failure_time : Option ℕ
  pub state_changed_at : ℕ

-- `__init__`
unfoldable pub init : ℕ → ℕ → ℕ → ℕ → CircuitBreaker
init failure_threshold recovery_timeout success_threshold now = record {
  failure_threshold = failure_threshold;
  recovery_timeout = recovery_timeout;
  success_threshold = success_threshold;
  state = closed;
  failure_count = 0;
  success_count = 0;
  total_calls = 0;
  total_timeouts = 0;
  last_failure_time = none;
  state_changed_at = now;
}

unfoldable pub to_open : CircuitBreaker → ℕ → CircuitBreaker
to_open b now = record b { state = open_circuit; state_changed_at = now }

unfoldable pub to_closed : CircuitBreaker → ℕ → CircuitBreaker
to_closed b now = record b {
  state = closed;
  state_changed_at = now;
  failure_count = 0;
  success_count = 0;
}

unfoldable pub to_half_open : CircuitBreaker → ℕ → CircuitBreaker
to_half_open b now = record b { state = half_open; state_changed_at = now; success_count = 0 }

unfoldable pub record_success : CircuitBreaker → ℕ → CircuitBreaker
unfolding to_closed
record_success b now =
    let counted = record b {
      total_calls = b.total_calls + 1;
      success_count = b.success_count + 1;
    } in
    if is_half_open b.state
    then (if leb b.success_threshold counted.success_count then to_closed counted now else counted)
    else if is_closed b.state
    then record counted { failure_count = 0 }
    else counted

unfoldable pub record_failure : CircuitBreaker → ℕ → CircuitBreaker
unfolding to_open
record_failure b now =
    let failed = record b {
      total_calls = b.total_calls + 1;
      failure_count = b.failure_count + 1;
      last_failure_time = some now;
    } in
    if is_closed b.state
    then (if leb b.failure_threshold failed.failure_count then to_open failed now else failed)
    else if is_half_open b.state
    then to_open failed now
    else failed

unfoldable pub record_timeout : CircuitBreaker → ℕ → CircuitBreaker
unfolding to_open
record_timeout b now =
    let failed = record b {
      total_timeouts = b.total_timeouts + 1;
      total_calls = b.total_calls + 1;
      failure_count = b.failure_count + 1;
      last_failure_time = some now;
    } in
    if is_closed b.state
    then (if leb b.failure_threshold failed.failure_count then to_open failed now else failed)
    else if is_half_open b.state
    then to_open failed now
    else failed

abbrev pub recovery_due : ℕ → ℕ → Option ℕ → Bool
recovery_due timeout now none = false
recovery_due timeout now (some t) = leb (t + timeout) now

unfoldable pub should_allow_request : CircuitBreaker → ℕ → CircuitBreaker × Bool
unfolding to_half_open
should_allow_request b now =
    if is_open b.state
    then (if recovery_due b.recovery_timeout now b.last_failure_time
        then (to_half_open b now, true)
        else (b, false))
    else (b, true)

unfoldable pub record_ended : CircuitBreaker → Outcome → ℕ → CircuitBreaker
unfolding record_success record_failure record_timeout
record_ended b returned now = record_success b now
record_ended b timed_out now = record_timeout b now
record_ended b raised now = record_failure b now
record_ended b cancelled now = b

-- `call`, when no other call's events fall between its own.
unfoldable pub call : CircuitBreaker → ℕ → Outcome → ℕ → CircuitBreaker × CallResult
unfolding should_allow_request record_ended
call b now outcome later =
    let (b', allowed) = should_allow_request b now in
    if allowed then (record_ended b' outcome later, ended outcome) else (b', rejected)
