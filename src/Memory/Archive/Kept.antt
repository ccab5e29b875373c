-- ===== src/Memory/Archive/Kept.antt =====
-- What a memory's file holds once `handle` says that the memory is archived.
use omnimemory.Prelude.{ℕ, ◌≡◌, ◌≢◌, ◌⊎◌, true, false, some, String, ok, err}
use omnimemory.Prelude.Equality.{eq_ℕ, eq_String}
use omnimemory.Prelude.Dict.{Dict, lookup}
use omnimemory.Lifecycle.{expired}
use omnimemory.Memory.{Row, Table, archived_row}
use omnimemory.Memory.Archive.{World, Run, ArchiveMemoryCommand, Answer, noted, archive_record}
use omnimemory.Memory.Archive.Files.{Platform}

-- The row with an id is not there at a revision.
abbrev pub Gone : ℕ → ℕ → Table → Type 0
Gone id revision t = (row : Row) → lookup id t ≡ some row → row.lifecycle_revision ≢ revision

-- The row is as it was, or is not there at its revision any more.
abbrev Holds : ℕ → Row → Table → Type 0
Holds id row t = (lookup id t ≡ some row) ⊎ Gone id row.lifecycle_revision t

-- What other tasks do keeps to the revisions: a row that changes leaves its revision for good.
pub record Keeps (id : ℕ) (others : World → World) : Type 0 where
  pub row_or_gone :
      (w : World) (row : Row)
      → lookup id w.table ≡ some row
      → (lookup id (others w).table ≡ some row) ⊎ Gone id row.lifecycle_revision (others w).table
  pub gone_stays :
      (w : World) (revision : ℕ) → Gone id revision w.table → Gone id revision (others w).table

-- An answer that is no success.
abbrev Fails : Answer → Type 0
Fails (w, err x) = Unit {0}
Fails (w, ok result) = result.success ≡ false

-- A success whose file is at `path` comes with the row that was archived, marked with the path,
-- and with a whole copy of it in the file, in the world in which the update ended.
abbrev pub Kept : Platform → ArchiveMemoryCommand → Run → String → Answer → Type 0
Kept p c run path (u, err x) = Unit {0}
Kept p c run path (u, ok result) =
    result.success ≡ true
    → result.archive_path ≡ some path
    → (x : World) × (row : Row) × (level : ℕ) × (u ≡ noted (run.mark.later x) run.mark.ended)
      × (row.lifecycle_state ≡ expired)
      × (row.lifecycle_revision ≡ c.expected_revision)
      × (lookup c.memory_id x.table ≡ some (archived_row run.now path row))
      × (lookup path x.files ≡ some (p.compress level (archive_record c.memory_id row run.now)))

module _ (p : Platform) (c : ArchiveMemoryCommand) (run : Run) (path : String) where
  -- The file of the row is there, if it is the one that is asked about.
  abbrev Copied : World → Row → ℕ → String → Type 0
  Copied v row level chosen =
      chosen ≡ path
      → lookup path v.files ≡ some (p.compress level (archive_record c.memory_id row run.now))
