-- ===== src/Memory/Archive.antt =====
-- `HandlerMemoryArchive` of handler_memory_archive.py: a memory that is expired is written to a
-- compressed file and then marked archived, under an optimistic lock. Other tasks run at every
-- wait; what they do there is part of the run. The clock's calendar, the paths of the platform,
-- the serialization and the compression are parameters. The metadata of a row is one that
-- validates.
pub mod Files
pub mod Kept
pub mod Orphans
pub mod Short
use omnimemory.Prelude.{
  ℕ, ◌+◌, Bool, true, false, not, Option, none, some, List, [], ◌∷◌, String, Result, ok, err, ltb,
  ◌||◌, if◌then◌else◌, ◌==◌,
}
use omnimemory.Prelude.Equality.{Eq, eq_ℕ, eq_String}
use omnimemory.Prelude.Dict.{Dict, lookup}
use omnimemory.Lifecycle.{LifecycleState, expired, state_eq}
use omnimemory.Breaker.Simple
use omnimemory.Breaker.Simple.{CircuitBreaker, should_allow_request, record_success}
use omnimemory.Memory.{
  Row, Table, mark_archived_sql, Failure, timed_out, postgres_error, client_error, unexpected,
  Reply, answered, failed, record_error,
}
use omnimemory.Memory.Archive.Files.{
  ArchiveRecord, Platform, get_archive_path, PathError, validate_archive_path, Writing, WriteError,
  os_error, value_error, write_archive_sync,
}

-- `compression_level`, the pool and the tracker, where there is one, are set by `initialize`.
pub record HandlerMemoryArchive : Type 0 where
  pub initialized : Bool
  pub has_pool : Bool
  pub has_tracker : Bool
  pub compression_level : ℕ
  pub archive_base_path : String
  pub circuit_breaker : CircuitBreaker

-- `initialize`, with the level and the path that the argument, the environment and the defaults
-- give; `none` is `ValueError`.
unfoldable pub initialize : Bool → Bool → ℕ → String → ℕ → Option HandlerMemoryArchive
initialize has_pool has_tracker level base now =
    if ltb level 1 || ltb 9 level
    then none
    else some (record {
      initialized = true;
      has_pool = has_pool;
      has_tracker = has_tracker;
      compression_level = level;
      archive_base_path = base;
      circuit_breaker = Simple.init 5 60_000_000 2 now;
    })

-- The `reason` of `track_orphan`.
pub data Reason : Type 0 where
  conflict_during_update : Reason
  error_during_update : Failure → Reason

-- The handler, the database, the files and what the tracker has been told.
pub record World : Type 0 where
  pub handler : HandlerMemoryArchive
  pub table : Table
  pub files : Dict String (List ℕ)
  pub orphans : List (ℕ × String × Reason)

abbrev pub with_breaker : World → CircuitBreaker → World
with_breaker w b = record w { handler = record (w.handler) { circuit_breaker = b } }

-- A call of the database: what others do before the statement runs, the reply, what others do
-- until the task goes on, and when it does.
pub record Call : Type 0 where
  pub before : World → World
  pub reply : Reply
  pub later : World → World
  pub ended : ℕ

-- A call of the tracker: what others do before the entry is taken, the exception that it raises in
-- place of taking it, if it does, and what others do until the task goes on.
pub record Tracking : Type 0 where
  pub before : World → World
  pub trouble : Option Failure
  pub later : World → World

-- A run of `handle`: its instant and its waits. Others run while the record is compressed, before
-- the path is chosen, and before the file is written.
pub record Run : Type 0 where
  pub now : ℕ
  pub read : Call
  pub before_path : World → World
  pub before_write : World → World
  pub writing : Writing
  pub mark : Call
  pub tracked : Tracking
  pub tracked_again : Tracking

pub record ArchiveMemoryCommand : Type 0 where
  pub memory_id : ℕ
  pub expected_revision : ℕ
  pub archive_path : Option String

-- The texts of `error_message`, with what they print.
pub data Message : Type 0 where
  breaker_open not_found : Message
  read_failed update_failed : Failure → Message
  revision_conflict : ℕ → Message
  cannot_archive : LifecycleState → Message
  bad_path : PathError → Message
  write_failed update_conflict : Message

pub record MemoryArchiveResult : Type 0 where
  pub memory_id : ℕ
  pub success : Bool
  pub archived_at : Option ℕ
  pub archive_path : Option String
  pub bytes_written : ℕ
  pub conflict : Bool
  pub orphaned : Bool
  pub error_message : Option Message

-- `RuntimeError` of a handler that is not initialized or has no pool, and an exception that no
-- handler catches.
pub data Exception : Type 0 where
  not_initialized no_pool escaped : Exception

abbrev pub Answer : Type 0
Answer = World × Result Exception MemoryArchiveResult

abbrev pub failure : ArchiveMemoryCommand → Message → MemoryArchiveResult
failure c message = record {
  memory_id = c.memory_id;
  success = false;
  archived_at = none;
  archive_path = none;
  bytes_written = 0;
  conflict = false;
  orphaned = false;
  error_message = some message;
}

abbrev pub succeeded : ArchiveMemoryCommand → ℕ → String → ℕ → MemoryArchiveResult
succeeded c now path written = record {
  memory_id = c.memory_id;
  success = true;
  archived_at = some now;
  archive_path = some path;
  bytes_written = written;
  conflict = false;
  orphaned = false;
  error_message = none;
}

abbrev pub orphan : ArchiveMemoryCommand → String → ℕ → Message → MemoryArchiveResult
orphan c path written message = record (failure c message) {
  archive_path = some path;
  bytes_written = written;
  orphaned = true;
}

abbrev pub recorded : World → Failure → ℕ → World
recorded w f now = with_breaker w (record_error w.handler.circuit_breaker f now)

abbrev pub noted : World → ℕ → World
noted w now = with_breaker w (record_success w.handler.circuit_breaker now)

abbrev pub listed_orphan : World → ℕ × String × Reason → World
listed_orphan w entry = record w { orphans = entry ∷ w.orphans }

-- A call of `track_orphan`, if there is a tracker: the exception that it raises, if it does.
unfoldable pub track_orphan : World → ℕ → String → Reason → Tracking → World × Option Failure
track_orphan w id path reason t =
    if w.handler.has_tracker
    then (elim t.trouble [
      | none ↦ (t.later (listed_orphan (t.before w) (id, path, reason)), none)
      | some f ↦ (t.later (t.before w), some f)
    ])
    else (w, none)

-- The result where the tracker has been told, or the exception that it raised.
abbrev pub told : World × Option Failure → MemoryArchiveResult → Answer
told (w, none) result = (w, ok result)
told (w, some f) result = (w, err escaped)

-- An exception in the part that marks the row.
unfoldable pub mark_raised : World → ArchiveMemoryCommand → Run → String → ℕ → Failure → Answer
unfolding record_error track_orphan
mark_raised w c run path written unexpected = (w, err escaped)
mark_raised w c run path written f =
    told
      (track_orphan (recorded w f run.mark.ended) c.memory_id path (error_during_update f)
        run.tracked_again)
      (orphan c path written (update_failed f))

-- The call of the tracker after an update that hit no row stands in the same `try`.
abbrev pub told_conflict : ArchiveMemoryCommand → Run → String → ℕ → World × Option Failure → Answer
unfolding mark_raised
told_conflict c run path written (w, none) =
    (w, ok (record (orphan c path written update_conflict) { conflict = true }))
told_conflict c run path written (w, some f) = mark_raised w c run path written f

-- What the reply to the update leads to, with the table and the hit that it would make.
unfoldable pub marked :
    World → ArchiveMemoryCommand → Run → String → ℕ → Table × Option ℕ → Reply → Answer
unfolding mark_raised track_orphan record_success
marked v c run path written (t, some revision) answered = (
  noted (run.mark.later (record v { table = t })) run.mark.ended,
  ok (succeeded c run.now path written),
)
marked v c run path written (t, none) answered = told_conflict c run path written (
    track_orphan (noted (run.mark.later (record v { table = t })) run.mark.ended) c.memory_id path
      conflict_during_update run.tracked)
marked v c run path written (t, hit) (failed f done) =
    mark_raised (run.mark.later (record v { table = if done then t else v.table })) c run path
      written f

-- `_mark_archived` and what follows.
unfoldable pub mark_archived : World → ArchiveMemoryCommand → Run → String → ℕ → Answer
unfolding mark_archived_sql marked
mark_archived w c run path written =
    let v = run.mark.before w in
    marked v c run path written
      (mark_archived_sql v.table c.memory_id c.expected_revision run.now path) run.mark.reply

-- What the outcome of the write leads to.
unfoldable pub after_write :
    World
    → ArchiveMemoryCommand
    → Run
    → String
    → Dict String (List ℕ) × Result WriteError ℕ
    → Answer
unfolding mark_archived
after_write w c run path (files, ok written) =
    mark_archived (record w { files = files }) c run path written
after_write w c run path (files, err os_error) =
    (record w { files = files }, ok (failure c write_failed))
after_write w c run path (files, err value_error) = (record w { files = files }, err escaped)

-- `ModelArchiveRecord` of a row, with `memory.expired_at or now`.
abbrev pub archive_record : ℕ → Row → ℕ → ArchiveRecord
archive_record id row now = record {
  memory_id = id;
  content = row.content;
  created_at = row.created_at;
  expired_at = elim row.expired_at [ none ↦ now | some t ↦ t ];
  archived_at = now;
  lifecycle_revision = row.lifecycle_revision;
}

-- The record is compressed at the level of the handler.
abbrev pub packed : Platform → World → ArchiveMemoryCommand → Run → Row → List ℕ
packed p w c run row =
    p.compress w.handler.compression_level (archive_record c.memory_id row run.now)

-- The path is chosen once the record is compressed, below the base path of the handler then.
unfoldable pub chosen_path : Platform → World → ArchiveMemoryCommand → Run → Result PathError String
unfolding get_archive_path validate_archive_path
chosen_path p w c run = elim c.archive_path [
  | none ↦ ok (get_archive_path p w.handler.archive_base_path c.memory_id run.now)
  | some path ↦ elim (validate_archive_path p w.handler.archive_base_path path) [
    | none ↦ ok path
    | some problem ↦ err problem
  ]
]

abbrev pub store : World → ArchiveMemoryCommand → Run → List ℕ → Result PathError String → Answer
unfolding after_write write_archive_sync
store w c run bytes (err problem) = (w, ok (failure c (bad_path problem)))
store w c run bytes (ok path) =
    after_write (run.before_write w) c run path
      (write_archive_sync (run.before_write w).files path bytes run.writing)

-- What `_read_memory` returns; `missing` is its `ValueError`.
pub data Found : Type 0 where
  missing other_revision : Found
  found : Row → Found

unfoldable pub read_memory : Table → ℕ → ℕ → Found
read_memory t id revision = elim (lookup id t) [
  | none ↦ missing
  | some row ↦ if row.lifecycle_revision == revision then found row else other_revision
]

-- The part of `handle` after the read.
unfoldable pub after_read : Platform → World → ArchiveMemoryCommand → Run → Found → Reply → Answer
unfolding record_error record_success chosen_path store
after_read p w c run seen (failed unexpected done) = (w, err escaped)
after_read p w c run seen (failed f done) =
    (recorded w f run.read.ended, ok (failure c (read_failed f)))
after_read p w c run missing answered = (w, ok (failure c not_found))
after_read p w c run other_revision answered =
    (w, ok (record (failure c (revision_conflict c.expected_revision)) { conflict = true }))
after_read p w c run (found row) answered =
    let v = noted w run.read.ended in
    if state_eq row.lifecycle_state expired
    then store (run.before_path v) c run (packed p v c run row)
        (chosen_path p (run.before_path v) c run)
    else (v, ok (failure c (cannot_archive row.lifecycle_state)))

-- The part of `handle` behind the breaker.
unfoldable pub archive : Platform → World → ArchiveMemoryCommand → Run → Answer
unfolding after_read read_memory
archive p w c run =
    let v = run.read.before w in
    if v.handler.has_pool
    then (after_read p (run.read.later v) c run
        (read_memory v.table c.memory_id c.expected_revision) run.read.reply)
    else (v, err no_pool)

unfoldable pub handle : Platform → World → ArchiveMemoryCommand → Run → Answer
unfolding archive should_allow_request
handle p w c run =
    if not w.handler.initialized
    then (w, err not_initialized)
    else (let (b, allowed) = should_allow_request w.handler.circuit_breaker run.now in
        if allowed
        then archive p (with_breaker w b) c run
        else (with_breaker w b, ok (failure c breaker_open)))
