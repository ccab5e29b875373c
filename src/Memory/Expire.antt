-- ===== src/Memory/Expire.antt =====
-- `HandlerMemoryExpire` of handler_memory_expire.py: one attempt to expire a memory under an
-- optimistic lock. While a call of the database is on its way, other tasks change the table and
-- the handler's circuit breaker; what they do is part of the call. A pool and a breaker are set
-- exactly while the handler is initialized; a shutdown in the middle of a call is left out, and
-- so is the reason of a command, which is only logged.
pub mod Outcome
use omnimemory.Prelude.{
  ℕ, ◌+◌, Bool, true, false, not, Option, none, some, List, [], ◌∷◌, Result, ok, err, ltb,
  if◌then◌else◌, ◌==◌,
}
use omnimemory.Prelude.Equality.{Eq, eq_ℕ}
use omnimemory.Prelude.Dict.{Dict, lookup}
use omnimemory.Lifecycle.{LifecycleState, active}
use omnimemory.Breaker.Simple
use omnimemory.Breaker.Simple.{CircuitBreaker, should_allow_request, record_success}
use omnimemory.Memory.{
  Row, Table, expire_sql, Failure, timed_out, postgres_error, client_error, unexpected, Reply,
  answered, failed, record_error,
}

pub record HandlerMemoryExpire : Type 0 where
  pub initialized : Bool
  pub max_retries : ℕ
  pub circuit_breaker : CircuitBreaker

-- The handler and the database.
pub record World : Type 0 where
  pub handler : HandlerMemoryExpire
  pub table : Table

abbrev pub with_breaker : World → CircuitBreaker → World
with_breaker w b = record w { handler = record (w.handler) { circuit_breaker = b } }

-- `__init__`; the breaker is not there yet, and is set before it is read.
unfoldable pub new : CircuitBreaker → HandlerMemoryExpire
new unset = record { initialized = false; max_retries = 3; circuit_breaker = unset }

-- The breaker of `initialize` where none is given: 5 failures, 60 seconds, 2 successes.
unfoldable pub default_breaker : ℕ → CircuitBreaker
default_breaker now = Simple.init 5 60_000_000 2 now

-- `initialize`; `none` is `ValueError`.
unfoldable pub initialize :
    HandlerMemoryExpire → ℕ → Option CircuitBreaker → ℕ → Option HandlerMemoryExpire
unfolding default_breaker
initialize h max_retries given now =
    if ltb max_retries 1
    then none
    else some (record {
      initialized = true;
      max_retries = max_retries;
      circuit_breaker = elim given [ none ↦ default_breaker now | some b ↦ b ];
    })

unfoldable pub shutdown : HandlerMemoryExpire → HandlerMemoryExpire
shutdown h = record h { initialized = false }

-- A call of the database: when the breaker is asked, what others do until the statement runs, the
-- reply, what others do until the task goes on, and when it does.
pub record Query : Type 0 where
  pub asked : ℕ
  pub before : World → World
  pub reply : Reply
  pub later : World → World
  pub ended : ℕ

pub record ExpireMemoryCommand : Type 0 where
  pub memory_id : ℕ
  pub expected_revision : ℕ
  pub expired_at : Option ℕ

-- The texts of `error_message`, with what they print.
pub data Message : Type 0 where
  breaker_open breaker_open_on_read breaker_open_on_retry : Message
  unknown_cause database_failed failed_on_retry : Failure → Message
  not_found not_found_on_retry : Message
  revision_conflict : ℕ → ℕ → Message
  cannot_expire invalid_on_retry : LifecycleState → Message
  retries_exceeded : ℕ → Message

pub record MemoryExpireResult : Type 0 where
  pub memory_id : ℕ
  pub success : Bool
  pub new_revision : Option ℕ
  pub conflict : Bool
  pub error_message : Option Message
  pub previous_state : Option LifecycleState

-- `RuntimeError` of a handler that is not initialized, and an exception that no handler catches.
pub data Exception : Type 0 where
  not_initialized escaped : Exception

abbrev pub hard_failure : ℕ → Message → MemoryExpireResult
hard_failure id message = record {
  memory_id = id;
  success = false;
  new_revision = none;
  conflict = false;
  error_message = some message;
  previous_state = none;
}

-- What `_read_current_state` raises.
pub data ReadError : Type 0 where
  not_ready circuit_open : ReadError
  read_failed : Failure → ReadError

-- `_read_current_state`
unfoldable pub read_current_state : World → ℕ → Query → World × Result ReadError (Option Row)
unfolding should_allow_request record_success record_error
read_current_state w id q =
    if not w.handler.initialized
    then (w, err not_ready)
    else (let (b, allowed) = should_allow_request w.handler.circuit_breaker q.asked in
        if not allowed
        then (with_breaker w b, err circuit_open)
        else (let v = q.before (with_breaker w b) in
            let u = q.later v in
            elim q.reply [
              | answered ↦ (
                with_breaker u (record_success u.handler.circuit_breaker q.ended),
                ok (lookup id v.table),
              )
              | failed f done ↦ (
                with_breaker u (record_error u.handler.circuit_breaker f q.ended),
                err (read_failed f),
              )
            ]))

-- The result of a call that ended in a known failure, or the exception that escapes.
abbrev pub failed_result : ℕ → (Failure → Message) → Failure → Result Exception MemoryExpireResult
failed_result id message unexpected = err escaped
failed_result id message timed_out = ok (hard_failure id (message timed_out))
failed_result id message postgres_error = ok (hard_failure id (message postgres_error))
failed_result id message client_error = ok (hard_failure id (message client_error))

-- Which result a row that was not updated gives, by what is found of it.
abbrev pub no_match : ExpireMemoryCommand → Option Row → MemoryExpireResult
no_match c none = hard_failure c.memory_id not_found
no_match c (some row) =
    if row.lifecycle_revision == c.expected_revision
    then record (hard_failure c.memory_id (cannot_expire row.lifecycle_state)) {
      previous_state = some row.lifecycle_state;
    }
    else record (hard_failure c.memory_id
        (revision_conflict c.expected_revision row.lifecycle_revision)) {
          conflict = true;
          previous_state = some row.lifecycle_state;
        }

-- What the answer to the read of a memory that was not updated leads to.
unfoldable pub conclude :
    World
    → ExpireMemoryCommand
    → ℕ
    → Result ReadError (Option Row)
    → World × Result Exception MemoryExpireResult
unfolding record_success
conclude w c now (err not_ready) = (w, err not_initialized)
conclude w c now (err circuit_open) = (w, ok (hard_failure c.memory_id breaker_open_on_read))
conclude w c now (err (read_failed f)) = (w, failed_result c.memory_id unknown_cause f)
conclude w c now (ok found) =
    (with_breaker w (record_success w.handler.circuit_breaker now), ok (no_match c found))

-- The part of `handle` after an update that hit no row.
unfoldable pub diagnose :
    World → ExpireMemoryCommand → Query → ℕ → World × Result Exception MemoryExpireResult
unfolding read_current_state conclude
diagnose w c q now =
    conclude (read_current_state w c.memory_id q).0 c now (read_current_state w c.memory_id q).1

abbrev pub succeeded : ExpireMemoryCommand → ℕ → MemoryExpireResult
succeeded c revision = record {
  memory_id = c.memory_id;
  success = true;
  new_revision = some revision;
  conflict = false;
  error_message = none;
  previous_state = some active;
}

-- `command.expired_at or datetime.now(timezone.utc)`
abbrev pub given_or : Option ℕ → ℕ → ℕ
given_or none now = now
given_or (some t) now = t

-- What the reply to the update leads to, with the table and the hit that it would make.
unfoldable pub settle :
    World
    → ExpireMemoryCommand
    → Query
    → Query
    → Table × Option ℕ
    → Reply
    → World × Result Exception MemoryExpireResult
unfolding diagnose record_success record_error
settle v c q r (t, some revision) answered =
    let u = q.later (record v { table = t }) in
    (with_breaker u (record_success u.handler.circuit_breaker q.ended), ok (succeeded c revision))
settle v c q r (t, none) answered = diagnose (q.later (record v { table = t })) c r q.ended
settle v c q r (t, hit) (failed f done) =
    let u = q.later (record v { table = if done then t else v.table }) in
    (
      with_breaker u (record_error u.handler.circuit_breaker f q.ended),
      failed_result c.memory_id database_failed f,
    )

-- The part of `handle` behind the breaker.
unfoldable pub attempt :
    World → ExpireMemoryCommand → Query → Query → World × Result Exception MemoryExpireResult
unfolding expire_sql settle
attempt w c q r =
    let v = q.before w in
    settle v c q r
      (expire_sql v.table c.memory_id c.expected_revision (given_or c.expired_at q.asked)) q.reply

unfoldable pub handle :
    World → ExpireMemoryCommand → Query → Query → World × Result Exception MemoryExpireResult
unfolding attempt should_allow_request
handle w c q r =
    if not w.handler.initialized
    then (w, err not_initialized)
    else (let (b, allowed) = should_allow_request w.handler.circuit_breaker q.asked in
        if allowed
        then attempt (with_breaker w b) c q r
        else (with_breaker w b, ok (hard_failure c.memory_id breaker_open)))
