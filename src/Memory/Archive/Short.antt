-- ===== src/Memory/Archive/Short.antt =====
-- The handler alone with its database and its files: what a write that is cut short leads to.
use omnimemory.Prelude.{
  ℕ, ◌+◌, ◌≡◌, ◌≢◌, ap, ◌∙◌, true, not, none, some, length, String, ok, if_true, if_false, arith,
}
use omnimemory.Prelude.Equality.{eq_ℕ, eq_String}
use omnimemory.Prelude.Dict.{lookup, insert}
use omnimemory.Lifecycle.{expired, state_eq}
use omnimemory.Breaker.{open_circuit}
use omnimemory.Breaker.Simple.{should_allow_request}
use omnimemory.Memory.{Row, Table, answered, update_selected, archived_row, mark_archived_sql}
use omnimemory.Memory.Quiet.{allows}
use omnimemory.Memory.Archive.{
  World, with_breaker, Call, Run, ArchiveMemoryCommand, succeeded, noted, marked, mark_archived,
  after_write, archive_record, chosen_path, store, found, read_memory, after_read, archive, handle,
}
use omnimemory.Memory.Archive.Files.{Platform, get_archive_path, cut, write_archive_sync}

-- A call that is answered, with nobody else about.
abbrev pub quiet : ℕ → Call
quiet ended = record { before = λ w. w; reply = answered; later = λ w. w; ended = ended }

-- A run in which nothing is raised, and `os.write` takes so many bytes.
abbrev pub quiet_run : ℕ → ℕ → ℕ → ℕ → Run
quiet_run now read_end mark_end taken = record {
  now = now;
  read = quiet read_end;
  before_path = λ w. w;
  before_write = λ w. w;
  writing = record { trouble = none; temp_path = "archive.tmp"; taken = taken; unlinks = true };
  mark = quiet mark_end;
  tracked = record { before = λ w. w; trouble = none; later = λ w. w };
  tracked_again = record { before = λ w. w; trouble = none; later = λ w. w };
}

abbrev pub command : ℕ → ℕ → ArchiveMemoryCommand
command id revision = record { memory_id = id; expected_revision = revision; archive_path = none }

mark_archived_sql_hit :
    (t : Table) (id at : ℕ) (path : String) (row : Row)
    → lookup id t ≡ some row
    → row.lifecycle_state ≡ expired
    → mark_archived_sql t id row.lifecycle_revision at path
      ≡ (insert id (archived_row at path row) t, some (row.lifecycle_revision + 1))
unfolding mark_archived_sql update_selected
mark_archived_sql_hit t id at path row there state = ground arith

module _ (p : Platform) (id now read_end mark_end taken : ℕ) (row : Row)
    (state : row.lifecycle_state ≡ expired) where
  abbrev run : Run
  run = quiet_run now read_end mark_end taken

  abbrev c : ArchiveMemoryCommand
  c = command id row.lifecycle_revision

  quiet_mark :
      (w : World) (path : String) (n : ℕ)
      → lookup id w.table ≡ some row
      → mark_archived w c run path n ≡ (
        noted (record w { table = insert id (archived_row now path row) w.table }) mark_end,
        ok (succeeded c now path n),
      )
  unfolding mark_archived marked
  quiet_mark w path n there =
      ap (λ x. marked w c run path n x answered)
        (mark_archived_sql_hit w.table id now path row there state)

  -- The archive of a memory, where nobody else does anything and `os.write` takes `taken` bytes.
  abbrev pub short_archive : World → World
  short_archive w =
      let path = get_archive_path p w.handler.archive_base_path id now in
      noted
        (record (noted w read_end) {
          table = insert id (archived_row now path row) w.table;
          files =
              insert path
                (cut taken (p.compress w.handler.compression_level (archive_record id row now)))
                w.files;
        })
        mark_end

  quiet_after_read :
      (w : World)
      → lookup id w.table ≡ some row
      → after_read p w c run (found row) answered ≡ (
        short_archive w,
        ok (
            succeeded c now
              (get_archive_path p w.handler.archive_base_path id now)
              (length (p.compress w.handler.compression_level (archive_record id row now)))),
      )
  unfolding after_read store chosen_path after_write write_archive_sync
  quiet_after_read w there =
      if_true (state_eq row.lifecycle_state expired) _ _ (ground arith)
      ∙ quiet_mark
          (record (noted w read_end) {
            files =
                insert (get_archive_path p w.handler.archive_base_path id now)
                  (cut taken (p.compress w.handler.compression_level (archive_record id row now)))
                  w.files;
          })
          (get_archive_path p w.handler.archive_base_path id now)
          (length (p.compress w.handler.compression_level (archive_record id row now))) there

  quiet_read :
      (t : Table) → lookup id t ≡ some row → read_memory t id row.lifecycle_revision ≡ found row
  unfolding read_memory
  quiet_read t there = ground arith

  -- An initialized handler with a pool and a breaker that is not open, asked to archive an
  -- expired memory at its revision to the default path, answers with a success that counts every
  -- byte of the record, and the table has the row archived, whatever number of bytes `os.write`
  -- took: the file holds those bytes only. Nothing is raised and nobody else does anything.
  pub handle_cut :
      (w : World)
      → w.handler.initialized ≡ true
      → w.handler.has_pool ≡ true
      → w.handler.circuit_breaker.state ≢ open_circuit
      → lookup id w.table ≡ some row
      → handle p w c run ≡ (
        short_archive w,
        ok (
            succeeded c now
              (get_archive_path p w.handler.archive_base_path id now)
              (length (p.compress w.handler.compression_level (archive_record id row now)))),
      )
  unfolding handle archive
  handle_cut w on pool closed there =
      if_false (not w.handler.initialized) _ _ (ap not on)
      ∙ if_true (should_allow_request w.handler.circuit_breaker now).1 _ _
          (ap (λ x. x.1) (allows w.handler.circuit_breaker now closed))
      ∙ ap (λ x. archive p (with_breaker w x.0) c run) (allows w.handler.circuit_breaker now closed)
      ∙ if_true w.handler.has_pool _ _ pool
      ∙ ap (λ seen. after_read p w c run seen answered) (quiet_read w.table there)
      ∙ quiet_after_read w there
