-- ===== src/ConnectionPool.antt =====
-- `AsyncConnectionPool` of src/omnimemory/adapters/adapter_concurrency.py. A task that acquires
-- a connection goes through phases; between two waits it runs in one step. The pool's lock is
-- taken for a look at the capacity, and kept while a connection is created or waited for, and
-- for the two short sections that store and remove an active connection. A connection is a
-- number, and so is a task, in the place of its `connection_id`. What is created, what is found
-- valid, and which wait ends next are the events. Closing a connection does not fail and does
-- not wait.
pub mod Blocked
pub mod Crowd
mod Tests
use omnimemory.Prelude.{
  ℕ, zero, suc, ◌+◌, Bool, true, false, Option, none, some, List, [], ◌∷◌, ◌++◌, length, ltb, ◌&&◌,
  ◌==◌, if◌then◌else◌,
}
use omnimemory.Prelude.Equality.{Eq, eq_ℕ}
use omnimemory.Prelude.Dict.{Dict, insert, erase}

pub data PoolStatus : Type 0 where
  healthy degraded exhausted failed : PoolStatus

pub record PoolMetrics : Type 0 where
  pub total_created : ℕ
  pub total_destroyed : ℕ
  pub failed_connections : ℕ
  pub pool_exhaustions : ℕ

-- Where a call of `acquire` is. `seeking`, `storing` and `returning` wait for the lock, and
-- `inside` has it. A number of retries is left, and `connection` may be set from an earlier
-- round.
pub data Phase : Type 0 where
  outside inside : Phase
  seeking : ℕ → Option ℕ → Phase
  storing lent returning : ℕ → Phase

-- Who holds the lock through a wait, and for what.
pub data Lock : Type 0 where
  unlocked : Lock
  creating awaiting : ℕ → ℕ → Option ℕ → Lock

pub record AsyncConnectionPool : Type 0 where
  pub max_connections : ℕ
  pub min_connections : ℕ
  pub available : List ℕ
  pub active : Dict ℕ ℕ
  pub metrics : PoolMetrics
  pub status : PoolStatus
  pub lock : Lock
  pub phase : ℕ → Phase

-- `__init__`
unfoldable pub new : ℕ → ℕ → AsyncConnectionPool
new max_connections min_connections = record {
  max_connections = max_connections;
  min_connections = min_connections;
  available = [];
  active = [];
  metrics = record {
    total_created = 0;
    total_destroyed = 0;
    failed_connections = 0;
    pool_exhaustions = 0;
  };
  status = healthy;
  lock = unlocked;
  phase = λ t. outside;
}

abbrev pub at_phase : AsyncConnectionPool → ℕ → Phase → AsyncConnectionPool
at_phase p t x = record p { phase = λ u. if t == u then x else p.phase u }

-- `_destroy_connection`
abbrev pub destroy_connection : AsyncConnectionPool → AsyncConnectionPool
destroy_connection p = record p {
  metrics = record (p.metrics) { total_destroyed = p.metrics.total_destroyed + 1 };
}

abbrev pub count_failed : AsyncConnectionPool → AsyncConnectionPool
count_failed p = record p {
  metrics = record (p.metrics) { failed_connections = p.metrics.failed_connections + 1 };
}

-- `finally`: a connection that is set goes back.
abbrev pub clean_up : AsyncConnectionPool → ℕ → Option ℕ → AsyncConnectionPool
clean_up p t none = at_phase p t outside
clean_up p t (some c) = at_phase p t (returning c)

-- `except Exception` of a round: a connection that is set is destroyed.
abbrev pub drop_set : AsyncConnectionPool → Option ℕ → AsyncConnectionPool
drop_set p none = p
drop_set p (some c) = destroy_connection p

-- An exception of a round, other than a timeout.
abbrev pub acquisition_failed : AsyncConnectionPool → ℕ → Option ℕ → AsyncConnectionPool
acquisition_failed p t connection = clean_up (count_failed (drop_set p connection)) t connection

-- A connection at hand is checked; an invalid one is destroyed, and while retries are left the
-- next round begins.
unfoldable pub obtained : ℕ → AsyncConnectionPool → ℕ → (ℕ → Bool) → ℕ → AsyncConnectionPool
obtained zero p t validate c =
    if validate c
    then at_phase p t (storing c)
    else acquisition_failed (destroy_connection p) t (some c)
obtained (suc n) p t validate c =
    if validate c then at_phase p t (storing c) else (elim p.available [
      | [] ↦ at_phase (destroy_connection p) t (seeking n (some c))
      | d ∷ rest ↦ obtained n (destroy_connection (record p { available = rest })) t validate d
    ])

-- `acquire` up to its first wait, with three retries.
unfoldable pub begin : AsyncConnectionPool → ℕ → (ℕ → Bool) → AsyncConnectionPool
unfolding obtained
begin p t validate = elim p.available [
  | [] ↦ at_phase p t (seeking 3 none)
  | c ∷ rest ↦ obtained 3 (record p { available = rest }) t validate c
]

-- The look at the capacity, under the lock: `qsize` and the active connections.
unfoldable pub inspect : AsyncConnectionPool → ℕ → ℕ → Option ℕ → AsyncConnectionPool
inspect p t n connection =
    if ltb (length p.active + length p.available) p.max_connections
    then record (at_phase p t inside) { lock = creating t n connection }
    else record (at_phase p t inside) {
      lock = awaiting t n connection;
      metrics = record (p.metrics) { pool_exhaustions = p.metrics.pool_exhaustions + 1 };
      status = exhausted;
    }

-- `_return_connection`, under the lock and up to its end.
unfoldable pub return_connection : AsyncConnectionPool → ℕ → (ℕ → Bool) → ℕ → AsyncConnectionPool
return_connection p t validate c =
    let q = record (at_phase p t outside) { active = erase t p.active } in
    if validate c && ltb (length q.available) q.max_connections
    then record q { available = q.available ++ (c ∷ []) }
    else destroy_connection q

-- A task gets the lock, which is free.
unfoldable pub enter : AsyncConnectionPool → ℕ → (ℕ → Bool) → Phase → AsyncConnectionPool
unfolding inspect return_connection
enter p t validate outside = p
enter p t validate inside = p
enter p t validate (lent c) = p
enter p t validate (seeking n connection) = inspect p t n connection
enter p t validate (storing c) = record (at_phase p t (lent c)) { active = insert t c p.active }
enter p t validate (returning c) = return_connection p t validate c

pub data Event : Type 0 where
  begins : ℕ → (ℕ → Bool) → Event
  gets_lock : ℕ → (ℕ → Bool) → Event
  creation_ends : (ℕ → Bool) → Option ℕ → Event
  creation_times_out : Event
  receives : (ℕ → Bool) → Event
  times_out holder_cancelled health_check : Event
  body_ends : ℕ → Bool → Event
  cancelled : ℕ → Event

-- The end of `_create_new_connection`; `none` is an exception other than a timeout, which it
-- counts, and `acquire` once more.
unfoldable pub creation_ended :
    AsyncConnectionPool → (ℕ → Bool) → Option ℕ → Lock → AsyncConnectionPool
unfolding obtained
creation_ended p validate made unlocked = p
creation_ended p validate made (awaiting t n connection) = p
creation_ended p validate none (creating t n connection) =
    acquisition_failed (count_failed (record p { lock = unlocked })) t connection
creation_ended p validate (some c) (creating t n connection) =
    obtained n
      (record p {
        lock = unlocked;
        metrics = record (p.metrics) { total_created = p.metrics.total_created + 1 };
      })
      t validate c

-- `TimeoutError` of `_create_connection`, which only `_create_new_connection` counts.
unfoldable pub creation_timed_out : AsyncConnectionPool → Lock → AsyncConnectionPool
creation_timed_out p unlocked = p
creation_timed_out p (awaiting t n connection) = p
creation_timed_out p (creating t n connection) =
    clean_up (drop_set (count_failed (record p { lock = unlocked })) connection) t connection

-- The end of the wait for the queue, with its next connection.
unfoldable pub received : AsyncConnectionPool → (ℕ → Bool) → Lock → List ℕ → AsyncConnectionPool
unfolding obtained
received p validate unlocked queue = p
received p validate (creating t n connection) queue = p
received p validate (awaiting t n connection) [] = p
received p validate (awaiting t n connection) (c ∷ rest) =
    obtained n (record p { lock = unlocked; available = rest }) t validate c

-- `TimeoutError` of the wait for the queue.
unfoldable pub timed_out : AsyncConnectionPool → Lock → AsyncConnectionPool
timed_out p unlocked = p
timed_out p (creating t n connection) = p
timed_out p (awaiting t n connection) =
    clean_up (drop_set (record p { lock = unlocked }) connection) t connection

-- A cancellation of the task that holds the lock.
unfoldable pub lock_cancelled : AsyncConnectionPool → Lock → AsyncConnectionPool
lock_cancelled p unlocked = p
lock_cancelled p (creating t n connection) = clean_up (record p { lock = unlocked }) t connection
lock_cancelled p (awaiting t n connection) = clean_up (record p { lock = unlocked }) t connection

-- The body returns, or raises; an exception other than a timeout is counted.
unfoldable pub body_ended : AsyncConnectionPool → ℕ → Bool → Phase → AsyncConnectionPool
body_ended p t counted (lent c) = at_phase (if counted then count_failed p else p) t (returning c)
body_ended p t counted x = p

-- A cancellation elsewhere; the return of a connection is shielded.
unfoldable pub cancel : AsyncConnectionPool → ℕ → Phase → AsyncConnectionPool
cancel p t outside = p
cancel p t inside = p
cancel p t (returning c) = p
cancel p t (seeking n connection) = clean_up p t connection
cancel p t (storing c) = at_phase p t (returning c)
cancel p t (lent c) = at_phase p t (returning c)

-- `_perform_health_check`
unfoldable pub perform_health_check : AsyncConnectionPool → AsyncConnectionPool
perform_health_check p = record p {
  status =
      if length p.active + length p.available == 0 && ltb 0 p.metrics.pool_exhaustions
      then failed
      else if ltb (length p.available) p.min_connections
      then degraded
      else healthy;
}

abbrev pub is_outside : Phase → Bool
is_outside outside = true
is_outside x = false

-- Whether no task is in a wait under the lock.
abbrev pub is_free : Lock → Bool
is_free unlocked = true
is_free x = false

-- An event that cannot happen leaves the pool.
unfoldable pub step : AsyncConnectionPool → Event → AsyncConnectionPool
unfolding begin enter creation_ended creation_timed_out received timed_out lock_cancelled body_ended
    cancel perform_health_check
step p (begins t validate) = if is_outside (p.phase t) then begin p t validate else p
step p (gets_lock t validate) = if is_free p.lock then enter p t validate (p.phase t) else p
step p (creation_ends validate made) = creation_ended p validate made p.lock
step p creation_times_out = creation_timed_out p p.lock
step p (receives validate) = received p validate p.lock p.available
step p times_out = timed_out p p.lock
step p holder_cancelled = lock_cancelled p p.lock
step p health_check = perform_health_check p
step p (body_ends t counted) = body_ended p t counted (p.phase t)
step p (cancelled t) = cancel p t (p.phase t)

unfoldable pub run : AsyncConnectionPool → List Event → AsyncConnectionPool
unfolding step
run p [] = p
run p (e ∷ es) = run (step p e) es
