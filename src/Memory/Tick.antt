-- ===== src/Memory/Tick.antt =====
-- `HandlerMemoryTick` of handler_memory_tick.py: on each tick of the runtime it asks the
-- projection reader for memories to expire and to archive, behind a circuit breaker, and emits
-- an event for each. The reader is called; its reply is part of the call, with what other ticks
-- do to the breaker meanwhile. The entity id of an event, which is its memory id too, stands
-- once.
pub mod Emits
use text.Mathlib.Text.{◌==◌ as text_eq}
use omnimemory.Prelude.{
  ℕ, ◌+◌, Bool, true, false, not, ◌&&◌, Option, none, some, List, [], ◌∷◌, ◌++◌, length, String,
  Result, ok, err, leb, if◌then◌else◌,
}
use omnimemory.Breaker.Simple
use omnimemory.Breaker.Simple.{
  CircuitBreaker, should_allow_request, record_success, record_failure, record_timeout,
}

-- `ModelMemoryLifecycleProjection`
pub record Projection : Type 0 where
  pub entity_id : ℕ
  pub lifecycle_state : String
  pub expires_at : Option ℕ
  pub expired_at : Option ℕ
  pub archived_at : Option ℕ
  pub lifecycle_revision : ℕ
  pub expiration_emitted_at : Option ℕ
  pub archive_initiated_at : Option ℕ

abbrev pub is_none {ℓ} : {A : Type ℓ} → Option A → Bool
is_none none = true
is_none (some x) = false

abbrev pub past_deadline : Option ℕ → ℕ → Bool
past_deadline none now = false
past_deadline (some t) now = leb t now

unfoldable pub needs_expiration_event : Projection → ℕ → Bool
needs_expiration_event m now =
    text_eq m.lifecycle_state "active"
    && past_deadline m.expires_at now
    && is_none m.expiration_emitted_at

-- It does not look at the time.
unfoldable pub needs_archive_event : Projection → Bool
needs_archive_event m =
    text_eq m.lifecycle_state "expired" && is_none m.archived_at && is_none m.archive_initiated_at

-- `ModelMemoryExpiredEvent` and `ModelMemoryArchiveInitiated`
pub data Event : Type 0 where
  memory_expired : (memory_id causation_id emitted_at expires_at lifecycle_revision : ℕ) → Event
  archive_initiated :
      (memory_id causation_id emitted_at : ℕ) (expired_at : Option ℕ) (lifecycle_revision : ℕ)
      → Event

-- What a call of the reader raises.
pub data ReaderError : Type 0 where
  timed_out breaker_rejected raised : ReaderError

-- A call of the reader: when the breaker is asked, the reply, what other ticks do to the breaker
-- until the task goes on, and when it does.
pub record Call : Type 0 where
  pub asked : ℕ
  pub reply : Result ReaderError (List Projection)
  pub later : CircuitBreaker → CircuitBreaker
  pub ended : ℕ

-- A breaker is set exactly while the handler is initialized.
pub record HandlerMemoryTick : Type 0 where
  pub has_reader : Bool
  pub batch_size : ℕ
  pub circuit_breaker : CircuitBreaker

-- The breaker of `initialize` where none is given: 5 failures, 30 seconds, 2 successes.
unfoldable pub initialize : Bool → ℕ → Option CircuitBreaker → ℕ → HandlerMemoryTick
initialize has_reader batch_size given now = record {
  has_reader = has_reader;
  batch_size = batch_size;
  circuit_breaker = elim given [ none ↦ Simple.init 5 30_000_000 2 now | some b ↦ b ];
}

-- What the end of a call does to the breaker.
unfoldable pub noted : CircuitBreaker → Result ReaderError (List Projection) → ℕ → CircuitBreaker
unfolding record_success record_failure record_timeout
noted b (ok found) now = record_success b now
noted b (err timed_out) now = record_timeout b now
noted b (err breaker_rejected) now = b
noted b (err raised) now = record_failure b now

-- A failed call gives no candidates.
abbrev pub found_by : Result ReaderError (List Projection) → List Projection
found_by (ok found) = found
found_by (err x) = []

-- The part before the loop, which the two checks share, with the call that each makes.
unfoldable pub candidates : HandlerMemoryTick → Call → HandlerMemoryTick × List Projection
unfolding noted should_allow_request
candidates h q =
    if not h.has_reader
    then (h, [])
    else (let (b, allowed) = should_allow_request h.circuit_breaker q.asked in
        if allowed
        then (record h { circuit_breaker = noted (q.later b) q.reply q.ended }, found_by q.reply)
        else (record h { circuit_breaker = b }, []))

-- The loop of `_check_memory_expirations`, with its check of a deadline that is not there.
unfoldable pub expired_events : ℕ → ℕ → List Projection → List Event
unfolding needs_expiration_event
expired_events tick_id now [] = []
expired_events tick_id now (m ∷ rest) =
    let later = expired_events tick_id now rest in
    if needs_expiration_event m now
    then (elim m.expires_at [
      | none ↦ later
      | some t ↦ memory_expired m.entity_id tick_id now t m.lifecycle_revision ∷ later
    ])
    else later

-- The loop of `_check_archive_candidates`.
unfoldable pub archive_events : ℕ → ℕ → List Projection → List Event
unfolding needs_archive_event
archive_events tick_id now [] = []
archive_events tick_id now (m ∷ rest) =
    let later = archive_events tick_id now rest in
    if needs_archive_event m
    then archive_initiated m.entity_id tick_id now m.expired_at m.lifecycle_revision ∷ later
    else later

-- The events of a tick with its metrics.
pub record Output : Type 0 where
  pub events : List Event
  pub expired_count : ℕ
  pub archive_initiated_count : ℕ
  pub batch_size : ℕ

unfoldable pub check_memory_expirations :
    HandlerMemoryTick → ℕ → ℕ → Call → HandlerMemoryTick × List Event
unfolding candidates expired_events
check_memory_expirations h tick_id now q =
    ((candidates h q).0, expired_events tick_id now (candidates h q).1)

unfoldable pub check_archive_candidates :
    HandlerMemoryTick → ℕ → ℕ → Call → HandlerMemoryTick × List Event
unfolding candidates archive_events
check_archive_candidates h tick_id now q =
    ((candidates h q).0, archive_events tick_id now (candidates h q).1)

unfoldable pub handle : HandlerMemoryTick → ℕ → ℕ → Call → Call → HandlerMemoryTick × Output
unfolding check_memory_expirations check_archive_candidates
handle h tick_id now first second =
    let (g, expirations) = check_memory_expirations h tick_id now first in
    let (f, archivals) = check_archive_candidates g tick_id now second in
    (
      f,
      record {
        events = expirations ++ archivals;
        expired_count = length expirations;
        archive_initiated_count = length archivals;
        batch_size = h.batch_size;
      },
    )
