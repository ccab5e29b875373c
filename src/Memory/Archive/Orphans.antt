-- ===== src/Memory/Archive/Orphans.antt =====
-- Which results of `handle` say that a file is left without its row, and what the tracker is told.
use mathlib.Core.List.{Memᴰ}
use omnimemory.Prelude.{ℕ, ◌≡◌, true, false, none, some, List, String, ok, err}
use omnimemory.Prelude.Dict.{Dict}
use omnimemory.Memory.Archive.{
  World, Tracking, ArchiveMemoryCommand, MemoryArchiveResult, Answer, Reason,
}

-- What a result says of the file, in the world in which it is given: a success archived the row
-- with it; or it is left behind, and the tracker, if there is one, lists its path; or the result
-- names no file.
pub data Accounted (c : ArchiveMemoryCommand) (w : World) (result : MemoryArchiveResult)
    : Type 0 where
  archived : result.success ≡ true → result.orphaned ≡ false → Accounted c w result
  listed :
      result.success ≡ false
      → result.orphaned ≡ true
      → (path : String) → result.archive_path ≡ some path
      → (w.handler.has_tracker ≡ true
          → (reason : Reason) × Memᴰ {A = ℕ × String × Reason}
              (c.memory_id, path, reason)
              w.orphans)
      → Accounted c w result
  no_file :
      result.success ≡ false
      → result.orphaned ≡ false
      → result.archive_path ≡ none
      → Accounted c w result

abbrev pub Accounts : ArchiveMemoryCommand → Answer → Type 0
Accounts c (w, err x) = Unit {0}
Accounts c (w, ok result) = Accounted c w result

-- Once the tracker has taken an entry, other tasks take none off its list before the task that
-- called it goes on.
abbrev pub Lasts : Tracking → Type 0
Lasts t =
    (w : World) (entry : ℕ × String × Reason)
    → Memᴰ entry w.orphans
    → Memᴰ entry (t.later w).orphans
