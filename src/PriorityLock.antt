-- ===== src/PriorityLock.antt =====
-- `PriorityLock` of src/omnimemory/adapters/adapter_concurrency.py. A request's id, a fresh UUID,
-- is a number; instants are whole microseconds. A section under the inner lock is one step,
-- together with what runs after it before the next wait: so a granted turn and the assignment of
-- the holder are one step. Tracing, logging, metadata and the mean of the hold times are left
-- out.
pub mod Order
pub mod Exclusion
mod Tests
use omnimemory.Prelude.{
  ℕ, ◌+◌, ◌-◌, Bool, true, false, not, ◌&&◌, Option, none, some, List, [], ◌∷◌, ltb, leb, max, ◌==◌,
  if◌then◌else◌,
}

pub data LockPriority : Type 0 where
  low normal high critical : LockPriority

-- `priority.value`
abbrev pub value : LockPriority → ℕ
value low = 1
value normal = 2
value high = 3
value critical = 4

-- A timeout of 0 counts as none in the source, and `none` stands for it too.
pub record LockRequest : Type 0 where
  pub request_id : ℕ
  pub priority : LockPriority
  pub requested_at : ℕ
  pub timeout : Option ℕ

pub record PriorityLock : Type 0 where
  pub queue : List LockRequest
  pub current_holder : Option LockRequest
  pub total_acquisitions : ℕ
  pub total_releases : ℕ
  pub total_timeouts : ℕ
  pub max_hold_time : ℕ

-- `__init__`
unfoldable pub new : PriorityLock
new = record {
  queue = [];
  current_holder = none;
  total_acquisitions = 0;
  total_releases = 0;
  total_timeouts = 0;
  max_hold_time = 0;
}

-- The loop of `_enqueue_request`: in front of the first request of lower priority, or at the end.
unfoldable pub insert_request : LockRequest → List LockRequest → List LockRequest
insert_request r [] = r ∷ []
insert_request r (q ∷ qs) =
    if ltb (value q.priority) (value r.priority) then r ∷ q ∷ qs else q ∷ insert_request r qs

unfoldable pub enqueue_request : PriorityLock → LockRequest → PriorityLock
unfolding insert_request
enqueue_request l r = record l { queue = insert_request r l.queue }

-- `[r for r in self._queue if r.request_id != request.request_id]`
unfoldable pub without : ℕ → List LockRequest → List LockRequest
without id [] = []
without id (q ∷ qs) = if q.request_id == id then without id qs else q ∷ without id qs

abbrev pub held_by : ℕ → Option LockRequest → Bool
held_by id none = false
held_by id (some h) = h.request_id == id

-- `_cleanup_request` of a request that was never granted the lock.
unfoldable pub cleanup_waiting : PriorityLock → LockRequest → PriorityLock
unfolding without
cleanup_waiting l r = record l {
  queue = without r.request_id l.queue;
  current_holder = if held_by r.request_id l.current_holder then none else l.current_holder;
}

-- `_cleanup_request` of a request that was granted the lock at `acquired_at`.
unfoldable pub cleanup_acquired : PriorityLock → LockRequest → ℕ → ℕ → PriorityLock
unfolding cleanup_waiting
cleanup_acquired l r acquired_at now =
    cleanup_waiting
      (record l {
        total_releases = l.total_releases + 1;
        max_hold_time = max l.max_hold_time (now - acquired_at);
      })
      r

abbrev pub is_front : ℕ → List LockRequest → Bool
is_front id [] = false
is_front id (q ∷ qs) = q.request_id == id

abbrev pub is_free : Option LockRequest → Bool
is_free none = true
is_free (some h) = false

-- `self._queue.pop(0)`
abbrev pub pop_front : List LockRequest → List LockRequest
pop_front [] = []
pop_front (q ∷ qs) = qs

abbrev pub elapsed : LockRequest → ℕ → Bool
elapsed r now = elim r.timeout [ none ↦ false | some t ↦ leb (r.requested_at + t) now ]

-- One round of `_wait_for_turn`: the lock, a timeout, or another round after a sleep.
pub data Turn : Type 0 where
  granted timed_out waits : Turn

-- A granted turn goes on to `acquire`'s assignment of the holder; a timeout to its handler and
-- the cleanup.
unfoldable pub poll : PriorityLock → LockRequest → ℕ → PriorityLock × Turn
unfolding cleanup_waiting
poll l r now =
    if is_front r.request_id l.queue && is_free l.current_holder
    then (
      record l {
        queue = pop_front l.queue;
        current_holder = some r;
        total_acquisitions = l.total_acquisitions + 1;
      },
      granted,
    )
    else if elapsed r now
    then (cleanup_waiting (record l { total_timeouts = l.total_timeouts + 1 }) r, timed_out)
    else (l, waits)

-- How the body under the lock ends: a `TimeoutError` of the body meets the handler of the lock.
pub data BodyEnd : Type 0 where
  finished raised_timeout : BodyEnd

unfoldable pub leave : PriorityLock → LockRequest → ℕ → BodyEnd → ℕ → PriorityLock
unfolding cleanup_acquired
leave l r acquired_at finished now = cleanup_acquired l r acquired_at now
leave l r acquired_at raised_timeout now =
    cleanup_acquired (record l { total_timeouts = l.total_timeouts + 1 }) r acquired_at now
