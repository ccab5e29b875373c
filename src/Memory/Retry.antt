-- ===== src/Memory/Retry.antt =====
-- `handle_with_retry` of `HandlerMemoryExpire`: each attempt makes up to three calls of the
-- database.
use omnimemory.Prelude.{
  ℕ, zero, suc, true, not, ◌||◌, Option, none, some, Result, ok, err, if◌then◌else◌,
}
use omnimemory.Lifecycle.{active, state_eq}
use omnimemory.Memory.{Row}
use omnimemory.Memory.Expire.{
  World, Query, MemoryExpireResult, Exception, not_initialized, hard_failure, breaker_open_on_retry,
  failed_on_retry, not_found_on_retry, invalid_on_retry, retries_exceeded, ReadError, not_ready,
  circuit_open, read_failed, read_current_state, failed_result, handle,
}

pub record Attempt : Type 0 where
  pub update : Query
  pub diagnosis : Query
  pub reread : Query

-- Where an attempt in conflict leads: to an end, or to the next attempt with the revision that was
-- found.
pub data Next : Type 0 where
  ends : Result Exception MemoryExpireResult → Next
  again : ℕ → Next

abbrev pub next_of : ℕ → Result ReadError (Option Row) → Next
next_of id (err not_ready) = ends (err not_initialized)
next_of id (err circuit_open) = ends (ok (hard_failure id breaker_open_on_retry))
next_of id (err (read_failed f)) = ends (failed_result id failed_on_retry f)
next_of id (ok none) = ends (ok (hard_failure id not_found_on_retry))
next_of id (ok (some row)) =
    if state_eq row.lifecycle_state active
    then again row.lifecycle_revision
    else ends (
        ok (record (hard_failure id (invalid_on_retry row.lifecycle_state)) {
          previous_state = some row.lifecycle_state;
        }))

-- The end of a round, after `handle`.
unfoldable pub round_after :
    ℕ → Attempt → World × Result Exception MemoryExpireResult → World × Next
unfolding read_current_state
round_after id a (w, err x) = (w, ends (err x))
round_after id a (w, ok result) =
    if result.success || not result.conflict
    then (w, ends (ok result))
    else ((read_current_state w id a.reread).0, next_of id (read_current_state w id a.reread).1)

-- One round of the loop.
unfoldable pub round : World → ℕ → ℕ → Option ℕ → Attempt → World × Next
unfolding round_after
round w id revision at a = round_after id a (
    handle w (record { memory_id = id; expected_revision = revision; expired_at = at }) a.update
      a.diagnosis)

unfoldable pub loop_after :
    (World → ℕ → World × Result Exception MemoryExpireResult)
    → World × Next
    → World × Result Exception MemoryExpireResult
loop_after continue (w, ends answer) = (w, answer)
loop_after continue (w, again found) = continue w found

-- The loop over the attempts that are left, out of `limit`.
unfoldable pub retry_loop :
    ℕ → World → ℕ → ℕ → Option ℕ → ℕ → (ℕ → Attempt) → World × Result Exception MemoryExpireResult
unfolding loop_after
retry_loop zero w id revision at limit attempts =
    (w, ok (record (hard_failure id (retries_exceeded limit)) { conflict = true }))
retry_loop (suc n) w id revision at limit attempts =
    loop_after (λ v found. retry_loop n v id found at limit attempts)
      (round w id revision at (attempts n))

unfoldable pub handle_with_retry :
    World → ℕ → ℕ → Option ℕ → (ℕ → Attempt) → World × Result Exception MemoryExpireResult
unfolding retry_loop
handle_with_retry w id initial_revision at attempts =
    retry_loop w.handler.max_retries w id initial_revision at w.handler.max_retries attempts
