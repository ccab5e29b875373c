-- ===== src/Migration/Tracker.antt =====
-- The operations of a tracker on its files.
use omnimemory.Prelude.{
  ℕ, ◌+◌, Bool, true, false, Option, none, some, List, [], ◌∷◌, ◌++◌, String, length, if◌then◌else◌,
}
use omnimemory.Prelude.Equality.{eq_String}
use omnimemory.Prelude.Dict.{Dict, lookup, insert}
use omnimemory.Migration.{
  FileProcessingInfo, MigrationProgressMetrics, invalidate_cache, MigrationProgressTracker, pending,
  processing, completed, failed, skipped,
}
use omnimemory.Migration.ErrorType.{TextOps, extract_error_type}

unfoldable pub find_file : String → List FileProcessingInfo → Option FileProcessingInfo
find_file path [] = none
find_file path (f ∷ fs) = if eq_String.equal f.file_path path then some f else find_file path fs

-- An assignment to fields of the file that `_find_file` returns.
unfoldable pub update_file :
    String
    → (FileProcessingInfo → FileProcessingInfo)
    → List FileProcessingInfo
    → List FileProcessingInfo
update_file path change [] = []
update_file path change (f ∷ fs) =
    if eq_String.equal f.file_path path then change f ∷ fs else f ∷ update_file path change fs

abbrev pub add_size : Option ℕ → Option ℕ → Option ℕ
add_size total none = total
add_size none (some n) = some (0 + n)
add_size (some t) (some n) = some (t + n)

abbrev pub added_file : String → Option ℕ → FileProcessingInfo
added_file path size = record {
  file_path = path;
  file_size = size;
  status = pending;
  start_time = none;
  end_time = none;
  error_message = none;
  retry_count = 0;
  batch_id = none;
}

unfoldable pub add_file :
    MigrationProgressTracker → String → Option ℕ → ℕ → MigrationProgressTracker
add_file t path size now = record t {
  files = t.files ++ added_file path size ∷ [];
  metrics = record (t.metrics) {
    total_files = length (t.files ++ added_file path size ∷ []);
    total_size_bytes = add_size t.metrics.total_size_bytes size;
  };
  updated_at = now;
}

abbrev pub started_file : Option String → ℕ → FileProcessingInfo → FileProcessingInfo
started_file batch now f = record f { status = processing; start_time = some now; batch_id = batch }

abbrev pub skipped_file : String → FileProcessingInfo → FileProcessingInfo
skipped_file reason f = record f { status = skipped; error_message = some reason }

unfoldable pub start_file_processing :
    MigrationProgressTracker → String → Option String → ℕ → MigrationProgressTracker × Bool
start_file_processing t path batch now = elim (find_file path t.files) [
  | none ↦ (t, false)
  | some f ↦ (
    record t { files = update_file path (started_file batch now) t.files; updated_at = now },
    true,
  )
]

-- How `complete_file_processing` is told that a file ended.
pub data Completion : Type 0 where
  success : Completion
  failure : Option String → Completion

abbrev pub known_size : Option ℕ → ℕ
known_size none = 0
known_size (some n) = n

abbrev pub count_of : Option ℕ → ℕ
count_of none = 0
count_of (some n) = n

-- `if error_message:` is false for `None` and for the empty text.
abbrev pub count_error : TextOps → Option String → Dict String ℕ → Dict String ℕ
count_error text none summary = summary
count_error text (some message) summary =
    if eq_String.equal message ""
    then summary
    else (let kind = extract_error_type text message in
        insert kind (count_of (lookup kind summary) + 1) summary)

abbrev pub ended_file : Completion → ℕ → FileProcessingInfo → FileProcessingInfo
ended_file success now f = record f { end_time = some now; status = completed }
ended_file (failure message) now f = record f {
  end_time = some now;
  status = failed;
  error_message = message;
}

abbrev pub count_ended :
    TextOps → MigrationProgressTracker → FileProcessingInfo → Completion → MigrationProgressTracker
count_ended text t f success = record t {
  metrics = record (t.metrics) {
    processed_files = t.metrics.processed_files + 1;
    processed_size_bytes = t.metrics.processed_size_bytes + known_size f.file_size;
  };
}
count_ended text t f (failure message) = record t {
  metrics = record (t.metrics) { failed_files = t.metrics.failed_files + 1 };
  error_summary = count_error text message t.error_summary;
}

-- `_update_progress_metrics`, less the rates and the estimate.
unfoldable pub update_progress_metrics : MigrationProgressMetrics → ℕ → MigrationProgressMetrics
unfolding invalidate_cache
update_progress_metrics m now = record (invalidate_cache m now) { last_update_time = now }

unfoldable pub complete_file_processing :
    TextOps → MigrationProgressTracker → String → Completion → ℕ → MigrationProgressTracker
unfolding update_progress_metrics
complete_file_processing text t path how now = elim (find_file path t.files) [
  | none ↦ t
  | some f ↦
      let counted = count_ended text t f how in
      record counted {
        files = update_file path (ended_file how now) t.files;
        metrics = update_progress_metrics counted.metrics now;
        updated_at = now;
      }
]

-- `reason` is the whole text, "Skipped: " in front.
unfoldable pub skip_file_processing :
    MigrationProgressTracker → String → String → ℕ → MigrationProgressTracker
skip_file_processing t path reason now = elim (find_file path t.files) [
  | none ↦ t
  | some f ↦ record t {
    files = update_file path (skipped_file reason) t.files;
    metrics = record (t.metrics) { skipped_files = t.metrics.skipped_files + 1 };
    updated_at = now;
  }
]
