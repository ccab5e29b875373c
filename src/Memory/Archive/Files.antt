-- ===== src/Memory/Archive/Files.antt =====
-- The paths and the files of handler_memory_archive.py: `_get_archive_path`,
-- `_validate_archive_path`, `_write_archive_sync` and the record that is written.
use text.Mathlib.Text.{◌==◌ as text_eq}
use omnimemory.Prelude.{
  ℕ, zero, suc, Bool, true, false, Option, none, some, List, [], ◌∷◌, ◌++◌, length, String, Result,
  ok, err, if◌then◌else◌,
}
use omnimemory.Prelude.Equality.{eq_String}
use omnimemory.Prelude.Dict.{Dict, insert}

-- `ModelArchiveRecord`; `content` stands for the content with its type and metadata.
pub record ArchiveRecord : Type 0 where
  pub memory_id : ℕ
  pub content : String
  pub created_at : ℕ
  pub expired_at : ℕ
  pub archived_at : ℕ
  pub lifecycle_revision : ℕ

-- What the handler calls: the JSON line of a record, compressed at a level; the names of the year,
-- the month and the day of an instant; a path under another; the parts of a path that is
-- resolved, unless that raises; the name of a memory's file.
pub record Platform : Type 0 where
  pub compress : ℕ → ArchiveRecord → List ℕ
  pub dated : ℕ → List String
  pub join : String → List String → String
  pub resolve : String → Option (List String)
  pub file_name : ℕ → String

-- `_get_archive_path`
unfoldable pub get_archive_path : Platform → String → ℕ → ℕ → String
get_archive_path p base id at = p.join base (p.dated at ++ (p.file_name id ∷ []))

-- `Path.is_relative_to`, on the parts of the paths.
abbrev pub is_relative_to : List String → List String → Bool
is_relative_to parts [] = true
is_relative_to [] (b ∷ base) = false
is_relative_to (x ∷ parts) (b ∷ base) = if text_eq x b then is_relative_to parts base else false

-- The texts that `_validate_archive_path` returns.
pub data PathError : Type 0 where
  outside unresolved : PathError

-- `_validate_archive_path`, with a base path that is set; the base is resolved first.
unfoldable pub validate_archive_path : Platform → String → String → Option PathError
validate_archive_path p base path = elim (p.resolve base) [
  | none ↦ some unresolved
  | some allowed ↦ elim (p.resolve path) [
    | none ↦ some unresolved
    | some parts ↦ if is_relative_to parts allowed then none else some outside
  ]
]

-- The calls of `_write_archive_sync` that can raise.
pub data Step : Type 0 where
  mkdir mkstemp write fsync close rename : Step

-- Which exception is raised; `handle` catches the first only.
pub data WriteError : Type 0 where
  os_error value_error : WriteError

-- How a write goes: the call that raises, if one does, the name of the temporary file, the
-- number of bytes that `os.write` takes, and whether the clean-up can remove the file.
pub record Writing : Type 0 where
  pub trouble : Option (Step × WriteError)
  pub temp_path : String
  pub taken : ℕ
  pub unlinks : Bool

-- What `os.write` puts into the file, of what it is given.
abbrev pub cut : ℕ → List ℕ → List ℕ
cut zero bytes = []
cut (suc n) [] = []
cut (suc n) (b ∷ bytes) = b ∷ cut n bytes

-- The files after a write that raised.
abbrev pub left : Dict String (List ℕ) → List ℕ → Writing → Step → Dict String (List ℕ)
left files bytes x mkdir = files
left files bytes x mkstemp = files
left files bytes x write = if x.unlinks then files else insert x.temp_path [] files
left files bytes x step = if x.unlinks then files else insert x.temp_path (cut x.taken bytes) files

-- `_write_archive_sync`. The temporary file is renamed into place; how many bytes `os.write`
-- took is not looked at.
unfoldable pub write_archive_sync :
    Dict String (List ℕ) → String → List ℕ → Writing → Dict String (List ℕ) × Result WriteError ℕ
write_archive_sync files path bytes x = elim x.trouble [
  | none ↦ (insert path (cut x.taken bytes) files, ok (length bytes))
  | some (step, raised) ↦ (left files bytes x step, err raised)
]
