-- ===== src/Migration/Tests.antt =====
-- Runs of a migration tracker, and the theorems on it at concrete inputs.
use omnimemory.Prelude.{◌≡◌, refl, true, false, none, some, List, [], ◌∷◌, String}
use omnimemory.Prelude.Equality.{eq_String}
use omnimemory.Migration.{FileProcessingInfo, failed, pending, MigrationProgressTracker}
use omnimemory.Migration.Tracker.{success, failure}
use omnimemory.Migration.ErrorType.{TextOps, extract_error_type}
use omnimemory.Migration.Counters.{Operation, adds, completes}

-- Texts where "ValueError" stands before the first colon.
abbrev text : TextOps
text = record {
  before_colon = λ s. some "ValueError";
  strip = λ s. s;
  has_dot = λ s. false;
  split_dots = λ s. s ∷ [];
  is_identifier = λ s. true;
  starts_upper = λ s. true;
  size = λ s. 10;
}

value_error : extract_error_type text "ValueError: bad digit" ≡ "ValueError"
unfolding extract_error_type
value_error = refl

-- Three files, of which two end well and one badly.
abbrev history : List Operation
history =
    adds "a" (some 10) 1
    ∷ adds "b" none 2
    ∷ adds "c" none 3
    ∷ completes "a" success 4
    ∷ completes "b" success 5
    ∷ completes "c" (failure (some "ValueError: bad digit")) 6
    ∷ []

abbrev bad_file : FileProcessingInfo
bad_file = record {
  file_path = "a";
  file_size = some 10;
  status = failed;
  start_time = some 1;
  end_time = some 2;
  error_message = none;
  retry_count = 1;
  batch_id = none;
}

abbrev new_file : FileProcessingInfo
new_file = record bad_file { file_path = "b"; status = pending; retry_count = 0 }

-- Two files, one processed and one that failed, and a cache that was invalidated at 4.
abbrev tracker : MigrationProgressTracker
tracker = record {
  metrics = record {
    total_files = 2;
    processed_files = 1;
    failed_files = 1;
    skipped_files = 0;
    total_size_bytes = some 10;
    processed_size_bytes = 10;
    last_update_time = 4;
    current_batch = none;
    batch_metrics = [];
    cached_completion_percentage = none;
    cached_success_rate = none;
    cache_invalidated_at = some 4;
    cache_ttl = 60_000_000;
  };
  files = bad_file ∷ new_file ∷ [];
  error_summary = [];
  recovery_attempts = 0;
  updated_at = 4;
}

abbrev path_a : String
path_a = "a"

abbrev path_b : String
path_b = "b"
