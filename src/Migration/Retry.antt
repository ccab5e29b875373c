-- ===== src/Migration/Retry.antt =====
-- The retry of the files that failed.
use omnimemory.Prelude.{
  is_nonempty, ℕ, ◌+◌, Bool, true, false, ◌&&◌, List, [], ◌∷◌, ltb, if◌then◌else◌,
}
use omnimemory.Prelude.Equality.{eq_String}
use omnimemory.Migration.{
  FileProcessingStatus, FileProcessingInfo, MigrationProgressTracker, pending, failed,
}

abbrev pub is_failed : FileProcessingStatus → Bool
is_failed failed = true
is_failed _ = false

-- The test of `retry_failed_files`, and what it does to a file that passes.
abbrev pub can_retry : ℕ → FileProcessingInfo → Bool
can_retry max_retries f = is_failed f.status && ltb f.retry_count max_retries

abbrev pub retried : FileProcessingInfo → FileProcessingInfo
retried f = record f { retry_count = f.retry_count + 1; status = pending }

-- The loop: the files afterwards, and those that are to be retried.
unfoldable pub retry_files :
    ℕ → List FileProcessingInfo → List FileProcessingInfo × List FileProcessingInfo
retry_files max_retries [] = ([], [])
retry_files max_retries (f ∷ fs) =
    let (rest, retryable) = retry_files max_retries fs in
    if can_retry max_retries f
    then (retried f ∷ rest, retried f ∷ retryable)
    else (f ∷ rest, retryable)

unfoldable pub retry_failed_files :
    MigrationProgressTracker → ℕ → ℕ → MigrationProgressTracker × List FileProcessingInfo
unfolding retry_files
retry_failed_files t max_retries now =
    let (files, retryable) = retry_files max_retries t.files in
    let marked = record t { files = files } in
    (
      if is_nonempty retryable
          then record marked { recovery_attempts = t.recovery_attempts + 1; updated_at = now }
          else marked,
      retryable,
    )
