-- ===== src/RateLimiter.antt =====
-- `ProviderRateLimiter` of src/omnimemory/handlers/adapters/adapter_rate_limiter.py, with the
-- settings of src/omnimemory/models/config/model_rate_limiter_config.py that it reads.
-- Instants and durations are whole microseconds. A read of the clock is an argument of the call
-- that makes it. A section under the limiter's lock is one step, since it does not wait inside.
-- Logging is left out.
pub mod Window
pub mod History
pub mod Acquire
pub mod Registry
mod Tests
use omnimemory.Prelude.{
  ℕ, zero, suc, ◌+◌, ◌-◌, ◌*◌, ◌≤◌, min, Bool, true, false, ◌&&◌, Option, none, some, List, [], ◌∷◌,
  String, Result, ok, err, ◌++◌, ltb, leb, length, if◌then◌else◌,
}

-- A float multiplier of the configuration, as what the code does with it: the validation from 1.0
-- to 10.0, `math.ceil(n * factor)` of a count, and `t * factor` of a duration.
pub record Factor : Type 0 where
  pub in_range : Bool
  pub ceil_times : ℕ → ℕ
  pub times : ℕ → ℕ

pub record RateLimiterConfig : Type 0 where
  pub provider : String
  pub model : String
  pub requests_per_minute : ℕ
  pub tokens_per_minute : ℕ
  pub burst_multiplier : Factor
  pub initial_backoff : ℕ
  pub max_backoff : ℕ
  pub backoff_multiplier : Factor

-- `SECONDS_PER_MINUTE`, in microseconds.
abbrev pub minute : ℕ
minute = 60_000_000

-- `DEQUE_SAFETY_CEILING_MULTIPLIER`
abbrev pub deque_safety_ceiling_multiplier : ℕ
deque_safety_ceiling_multiplier = 2

-- Entries (timestamp, tokens), oldest first.
abbrev pub Entries : Type 0
Entries = List (ℕ × ℕ)

pub record ProviderRateLimiter : Type 0 where
  pub config : RateLimiterConfig
  pub max_requests : ℕ
  pub max_tokens : ℕ
  pub request_window : Entries

-- `__init__`
unfoldable pub init : RateLimiterConfig → ProviderRateLimiter
init c = record {
  config = c;
  max_requests = c.burst_multiplier.ceil_times c.requests_per_minute;
  max_tokens =
      if ltb 0 c.tokens_per_minute then c.burst_multiplier.ceil_times c.tokens_per_minute else 0;
  request_window = [];
}

-- The loop of `_cleanup_window`, over the window that is left.
unfoldable pub drop_expired : ℕ → Entries → Entries
drop_expired cutoff [] = []
drop_expired cutoff ((t, n) ∷ w) = if ltb t cutoff then drop_expired cutoff w else (t, n) ∷ w

-- `now - 60` may be negative in the source, and no timestamp is below it then or below 0 here.
unfoldable pub cleanup_window : ℕ → Entries → Entries
cleanup_window now w = drop_expired (now - minute) w

unfoldable pub sum_tokens : Entries → ℕ
sum_tokens [] = 0
sum_tokens ((t, n) ∷ w) = n + sum_tokens w

unfoldable pub get_current_usage : Entries → ℕ × ℕ
unfolding sum_tokens
get_current_usage w = (length w, sum_tokens w)

-- `popleft` of a deque that is not empty.
abbrev pub pop_left : Entries → Entries
pop_left [] = []
pop_left (e ∷ w) = w

-- `append` on a deque with `maxlen`: a full deque loses its oldest entry.
unfoldable pub append_bounded : ℕ → Entries → ℕ × ℕ → Entries
append_bounded maxlen w e =
    if ltb maxlen (length (w ++ e ∷ [])) then pop_left (w ++ e ∷ []) else w ++ e ∷ []

-- The two texts of `ValueError`, with the numbers that they print.
pub data Error : Type 0 where
  tokens_below_one : ℕ → Error
  tokens_above_maximum : ℕ → ℕ → Error

-- The part of `try_acquire` under the lock.
unfoldable pub try_locked : ProviderRateLimiter → ℕ → ℕ → ProviderRateLimiter × Bool
unfolding cleanup_window get_current_usage append_bounded
try_locked l tokens now =
    let window = cleanup_window now l.request_window in
    let cleaned = record l { request_window = window } in
    let (request_count, token_count) = get_current_usage window in
    if leb l.max_requests request_count
    then (cleaned, false)
    else if ltb 0 l.max_tokens && ltb l.max_tokens (token_count + tokens)
    then (cleaned, false)
    else (
      record l {
        request_window =
            append_bounded (l.max_requests * deque_safety_ceiling_multiplier) window (now, tokens);
      },
      true,
    )

-- A negative count of tokens fails the first test in the source as 0 does here.
unfoldable pub try_acquire : ProviderRateLimiter → ℕ → ℕ → Result Error (ProviderRateLimiter × Bool)
try_acquire l tokens now =
    if ltb tokens 1
    then err (tokens_below_one tokens)
    else if ltb 0 l.max_tokens && ltb l.max_tokens tokens
    then ok (l, false)
    else ok (try_locked l tokens now)

-- `max(0, …)` is the truncated subtraction.
unfoldable pub get_remaining : ProviderRateLimiter → ℕ
get_remaining l = l.max_requests - length l.request_window

unfoldable pub time_until_reset : Entries → ℕ → ℕ
time_until_reset [] now = 0
time_until_reset ((t, n) ∷ w) now = t + minute - now

unfoldable pub get_reset_time : ProviderRateLimiter → ℕ → ℕ
unfolding time_until_reset
get_reset_time l now = time_until_reset l.request_window now

-- What `acquire` meets while it waits: when `get_reset_time` reads the clock after an attempt,
-- when a sleep that begins at an instant ends, and what other tasks do to the limiter meanwhile.
pub record Env : Type 0 where
  pub read_after : ℕ → ℕ
  pub wake : ℕ → ℕ → ℕ
  pub others : ℕ → ProviderRateLimiter → ProviderRateLimiter

-- The `while True` of `acquire`, at most as many rounds as the fuel; `none` when it runs out.
-- The result holds the limiter and the instant of the grant.
unfoldable pub acquire_loop :
    Env → ℕ → ProviderRateLimiter → ℕ → ℕ → ℕ → Option (Result Error (ProviderRateLimiter × ℕ))
acquire_loop env zero l tokens backoff now = none
acquire_loop env (suc fuel) l tokens backoff now = elim (try_acquire l tokens now) [
  | err e ↦ some (err e)
  | ok (l', granted) ↦ elim granted [
    | true ↦ some (ok (l', now))
    | false ↦
        let read = env.read_after now in
        let wait_time = min (get_reset_time l' read) backoff in
        let now' = env.wake read wait_time in
        acquire_loop env fuel (env.others now' l') tokens
          (min (l.config.backoff_multiplier.times backoff) l.config.max_backoff) now'
  ]
]

unfoldable pub acquire :
    Env → ℕ → ProviderRateLimiter → ℕ → ℕ → Option (Result Error (ProviderRateLimiter × ℕ))
acquire env fuel l tokens now =
    if ltb tokens 1
    then some (err (tokens_below_one tokens))
    else if ltb 0 l.max_tokens && ltb l.max_tokens tokens
    then some (err (tokens_above_maximum tokens l.max_tokens))
    else acquire_loop env fuel l tokens l.config.initial_backoff now
