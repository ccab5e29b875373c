-- ===== src/Migration.antt =====
-- `MigrationProgressTracker` and its parts, of
-- src/omnimemory/models/foundation/model_migration_progress.py. Instants are whole microseconds;
-- the clock is an argument of each call. A percentage is an exact fraction. The files are objects
-- in a list, changed in place: an operation on a path changes the first file with that path.
-- Rates per second, the estimate of the completion, durations, the status, priority and free
-- metadata are left out: no other field depends on them.
pub mod Tracker
pub mod Batches
pub mod Retry
pub mod ErrorType
pub mod Files
pub mod Counters
pub mod Cache
mod Tests
use omnimemory.Prelude.{
  ℕ, ◌+◌, ◌*◌, Bool, true, false, ◌&&◌, Option, none, some, List, [], ◌∷◌, ◌++◌, String, ltb,
  length, if◌then◌else◌,
}
use omnimemory.Prelude.Equality.{Eq, eq_String}
use omnimemory.Prelude.Dict.{Dict, lookup, insert}
use omnimemory.Prelude.Int.{ℤ, sub_ℕ}

pub data FileProcessingStatus : Type 0 where
  pending processing completed failed skipped : FileProcessingStatus

pub record FileProcessingInfo : Type 0 where
  pub file_path : String
  pub file_size : Option ℕ
  pub status : FileProcessingStatus
  pub start_time : Option ℕ
  pub end_time : Option ℕ
  pub error_message : Option String
  pub retry_count : ℕ
  pub batch_id : Option String

pub record BatchProcessingMetrics : Type 0 where
  pub batch_id : String
  pub batch_size : ℕ
  pub start_time : Option ℕ
  pub end_time : Option ℕ

-- A quotient of integers, where the source divides floats.
pub record Ratio : Type 0 where
  pub numerator : ℤ
  pub denominator : ℕ

pub record MigrationProgressMetrics : Type 0 where
  pub total_files : ℕ
  pub processed_files : ℕ
  pub failed_files : ℕ
  pub skipped_files : ℕ
  pub total_size_bytes : Option ℕ
  pub processed_size_bytes : ℕ
  pub last_update_time : ℕ
  pub current_batch : Option String
  pub batch_metrics : List BatchProcessingMetrics
  pub cached_completion_percentage : Option Ratio
  pub cached_success_rate : Option Ratio
  pub cache_invalidated_at : Option ℕ
  pub cache_ttl : ℕ

-- `_is_cache_valid`
abbrev pub younger : ℕ → Option ℕ → ℕ → Bool
younger ttl none now = false
younger ttl (some t) now = ltb now (t + ttl)

unfoldable pub is_cache_valid : MigrationProgressMetrics → ℕ → Bool
is_cache_valid m now = younger m.cache_ttl m.cache_invalidated_at now

unfoldable pub invalidate_cache : MigrationProgressMetrics → ℕ → MigrationProgressMetrics
invalidate_cache m now = record m {
  cached_completion_percentage = none;
  cached_success_rate = none;
  cache_invalidated_at = some now;
}

abbrev pub is_zero : ℕ → Bool
is_zero n = if ltb 0 n then false else true

abbrev pub zero_ratio : Ratio
zero_ratio = record { numerator = ℤ.pos 0; denominator = 1 }

-- The fraction that `completion_percentage` calculates.
unfoldable pub completion_ratio : MigrationProgressMetrics → Ratio
completion_ratio m =
    if is_zero m.total_files
    then zero_ratio
    else record { numerator = ℤ.pos (m.processed_files * 100); denominator = m.total_files }

-- The fraction that `success_rate` calculates; `(processed - failed) * 100` may be negative.
unfoldable pub success_ratio : MigrationProgressMetrics → Ratio
success_ratio m = if is_zero m.processed_files then zero_ratio else record {
  numerator = sub_ℕ (m.processed_files * 100) (m.failed_files * 100);
  denominator = m.processed_files;
}

-- A value is taken from a cache, or calculated.
abbrev pub cached_or : Bool → Option Ratio → Ratio → Ratio
cached_or true (some r) fresh = r
cached_or true none fresh = fresh
cached_or false cached fresh = fresh

unfoldable pub completion_percentage :
    MigrationProgressMetrics → ℕ → MigrationProgressMetrics × Ratio
unfolding is_cache_valid completion_ratio
completion_percentage m now =
    let r = cached_or (is_cache_valid m now) m.cached_completion_percentage (completion_ratio m) in
    (record m { cached_completion_percentage = some r }, r)

unfoldable pub success_rate : MigrationProgressMetrics → ℕ → MigrationProgressMetrics × Ratio
unfolding is_cache_valid success_ratio
success_rate m now =
    let r = cached_or (is_cache_valid m now) m.cached_success_rate (success_ratio m) in
    (record m { cached_success_rate = some r }, r)

pub record MigrationProgressTracker : Type 0 where
  pub metrics : MigrationProgressMetrics
  pub files : List FileProcessingInfo
  pub error_summary : Dict String ℕ
  pub recovery_attempts : ℕ
  pub updated_at : ℕ

-- A tracker before any file is added, at an instant.
abbrev pub new_metrics : ℕ → MigrationProgressMetrics
new_metrics now = record {
  total_files = 0;
  processed_files = 0;
  failed_files = 0;
  skipped_files = 0;
  total_size_bytes = none;
  processed_size_bytes = 0;
  last_update_time = now;
  current_batch = none;
  batch_metrics = [];
  cached_completion_percentage = none;
  cached_success_rate = none;
  cache_invalidated_at = none;
  cache_ttl = 60_000_000;
}

unfoldable pub new : ℕ → MigrationProgressTracker
new now = record {
  metrics = new_metrics now;
  files = [];
  error_summary = [];
  recovery_attempts = 0;
  updated_at = now;
}

-- The fields of `get_progress_summary` that count items.
pub record ProgressSummary : Type 0 where
  pub total_items : ℕ
  pub processed_items : ℕ
  pub successful_items : ℤ
  pub failed_items : ℕ

unfoldable pub get_progress_summary : MigrationProgressTracker → ProgressSummary
get_progress_summary t = record {
  total_items = t.metrics.total_files;
  processed_items = t.metrics.processed_files;
  successful_items = sub_ℕ t.metrics.processed_files t.metrics.failed_files;
  failed_items = t.metrics.failed_files;
}
