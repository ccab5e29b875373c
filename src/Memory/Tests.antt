-- ===== src/Memory/Tests.antt =====
-- Small tables and runs of the handlers, and the theorems on them.
use omnimemory.Prelude.{◌+◌, true, ◌≤◌, ◌≡◌, refl, none, some, List, [], ◌∷◌, length, ok, arith}
use omnimemory.Prelude.Equality.{eq_ℕ, eq_String}
use omnimemory.Prelude.Dict.{lookup}
use omnimemory.Lifecycle.{active, expired, archived}
use omnimemory.Lifecycle.Graph.{follow}
use omnimemory.Breaker.{half_open}
use omnimemory.Breaker.Simple.{CircuitBreaker}
use omnimemory.Memory.{Row, Table, answered, failed, timed_out}
use omnimemory.Memory.Expire
use omnimemory.Memory.Expire.Outcome.{Told, handle-Told}
use omnimemory.Memory.Retry.{handle_with_retry}
use omnimemory.Memory.Quiet
use omnimemory.Memory.Quiet.{
  Recovered, IsReady, quiet_attempt, handle_with_retry_recovers, conflict_closes,
}
use omnimemory.Memory.Revisions.{
  Statement, expires, archives, creates, writes, winners, winners_at_most_one,
}
use omnimemory.Memory
use omnimemory.Memory.Revisions
use omnimemory.Memory.Trail
use omnimemory.Memory.Trail.{execute_all, trail, trail-follow}
use omnimemory.Breaker.Simple
use omnimemory.Memory.Archive
use omnimemory.Memory.Archive.Files
use omnimemory.Memory.Archive.Short
use omnimemory.Memory.Archive.Short.{quiet_run, short_archive, handle_cut}
use omnimemory.Memory.Archive.Kept.{Kept}
use omnimemory.Memory.Tick
use omnimemory.Memory.Tick.Emits.{Ticks, handle_emits}

abbrev row : Row
row = record {
  lifecycle_state = active;
  lifecycle_revision = 4;
  content = "tea at five";
  created_at = 10;
  expired_at = none;
  archived_at = none;
  archive_path = none;
  updated_at = 20;
}

abbrev table : Table
table = (7, row) ∷ []

-- Two tasks expire the memory at the same revision, one archives it next.
abbrev rivals : List Statement
rivals = expires 7 4 100 ∷ expires 7 4 101 ∷ archives 7 5 102 "seven" ∷ []

winners_at_most_one_example : winners 7 4 table rivals ≤ 1
winners_at_most_one_example = winners_at_most_one 7 4 table rivals tt

rivals-trail : trail 7 table rivals ≡ expired ∷ archived ∷ []
unfolding trail Trail.moves Memory.expire_sql Revisions.execute Memory.mark_archived_sql
rivals-trail = refl

trail-follow_example :
    (after : Row) × (lookup 7 (execute_all table rivals) ≡ some after)
    × (follow active (trail 7 table rivals) ≡ some after.lifecycle_state)
    × (after.lifecycle_revision ≡ 4 + length (trail 7 table rivals))
trail-follow_example = trail-follow 7 table row rivals refl tt

-- A half-open breaker that wants two more successes.
abbrev breaker : CircuitBreaker
breaker = record {
  failure_threshold = 5;
  recovery_timeout = 60;
  success_threshold = 2;
  state = half_open;
  failure_count = 5;
  success_count = 0;
  total_calls = 0;
  total_timeouts = 0;
  last_failure_time = none;
  state_changed_at = 0;
}

abbrev world : Expire.World
world = record {
  handler = record { initialized = true; max_retries = 2; circuit_breaker = breaker };
  table = table;
}

world-IsReady : IsReady world
world-IsReady = record { initialized = refl; not_open = λ e. ground arith }

-- The caller thinks that the memory is at revision 2.
handle_with_retry_recovers_example :
    Recovered world 7 row (handle_with_retry world 7 2 none (λ k. quiet_attempt (λ i. 100 + i)))
handle_with_retry_recovers_example =
    handle_with_retry_recovers world 7 none row world-IsReady refl refl (λ k i. 100 + i) 2
      (omega arith)

-- The update is answered, and meanwhile another task deletes the whole table.
abbrev update : Expire.Query
update = record {
  asked = 30;
  before = λ w. w;
  reply = answered;
  later = λ w. record w { table = [] };
  ended = 40;
}

expired_now : Expire.handle world (Quiet.command 7 4 none) update update ≡ (
  (Expire.handle world (Quiet.command 7 4 none) update update).0,
  ok (Expire.succeeded (Quiet.command 7 4 none) 5),
)
unfolding Expire.handle Expire.attempt Expire.settle Memory.expire_sql Simple.should_allow_request
expired_now = refl

handle-Told_example :
    Told world
      (Quiet.command 7 4 none)
      update
      update
      (Expire.handle world (Quiet.command 7 4 none) update update).0
      (Expire.succeeded (Quiet.command 7 4 none) 5)
handle-Told_example =
    handle-Told world (Expire.handle world (Quiet.command 7 4 none) update update).0
      (Quiet.command 7 4 none) update update (Expire.succeeded (Quiet.command 7 4 none) 5)
      expired_now

-- One memory is past its deadline, and another was announced before.
abbrev due : Tick.Projection
due = record {
  entity_id = 7;
  lifecycle_state = "active";
  expires_at = some 50;
  expired_at = none;
  archived_at = none;
  lifecycle_revision = 4;
  expiration_emitted_at = none;
  archive_initiated_at = none;
}

abbrev announced : Tick.Projection
announced = record due { entity_id = 8; expiration_emitted_at = some 60 }

abbrev call : List Tick.Projection → Tick.Call
call found = record { asked = 70; reply = ok found; later = λ b. b; ended = 71 }

abbrev ticker : Tick.HandlerMemoryTick
ticker = record { has_reader = true; batch_size = 100; circuit_breaker = breaker }

handle_emits_example :
    Ticks ticker 1 70
      (call (due ∷ announced ∷ []))
      (call [])
      (Tick.handle ticker 1 70 (call (due ∷ announced ∷ [])) (call []))
handle_emits_example = handle_emits ticker 1 70 (call (due ∷ announced ∷ [])) (call [])

-- Dates and paths of a small platform, which compresses a record to its memory's number and dates.
abbrev platform : Archive.Files.Platform
platform = record {
  compress = λ level r. r.memory_id ∷ r.created_at ∷ r.expired_at ∷ [];
  dated = λ at. "2026" ∷ [];
  join = λ base parts. base;
  resolve = λ path. some (path ∷ []);
  file_name = λ id. "7.jsonl.gz";
}

abbrev old_row : Row
old_row = record row { lifecycle_state = expired; expired_at = some 50 }

abbrev store : Archive.World
store = record {
  handler = record {
    initialized = true;
    has_pool = true;
    has_tracker = true;
    compression_level = 6;
    archive_base_path = "archives";
    circuit_breaker = breaker;
  };
  table = (7, old_row) ∷ [];
  files = [];
  orphans = [];
}

-- Three bytes are to be written, and `os.write` takes two.
handle_cut_example :
    Archive.handle platform store (Archive.Short.command 7 4) (quiet_run 100 101 102 2) ≡ (
      short_archive platform 7 100 101 102 2 old_row refl store,
      ok (Archive.succeeded (Archive.Short.command 7 4) 100 "archives" 3),
    )
unfolding Archive.Files.get_archive_path
handle_cut_example =
    handle_cut platform 7 100 101 102 2 old_row refl store refl refl (λ e. ground arith) refl

-- The row is gone when the update runs, and others list an orphan before and after.
abbrev raced : Archive.Run
raced =
    let other : Archive.World → Archive.World =
      λ w. Archive.listed_orphan w (9, "other", Archive.conflict_during_update) in
    record (quiet_run 100 101 102 3) {
      mark = record {
        before = λ w. record w { table = [] };
        reply = Memory.answered;
        later = λ w. w;
        ended = 102;
      };
      tracked = record { before = other; trouble = none; later = other };
    }
