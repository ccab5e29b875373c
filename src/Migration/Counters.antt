-- ===== src/Migration/Counters.antt =====
-- The counters of a tracker against the operations that were made.
use omnimemory.Prelude.{
  ℕ, ◌+◌, ◌≡◌, refl, Option, none, some, List, [], ◌∷◌, String, length, length-append, arith,
}
use omnimemory.Prelude.Int.{sub_ℕ}
use omnimemory.Migration.ErrorType.{TextOps}
use omnimemory.Migration.{FileProcessingInfo, MigrationProgressTracker, new, get_progress_summary}
use omnimemory.Migration.Tracker.{
  Completion, success, failure, find_file, ended_file, added_file, started_file, skipped_file,
  add_file, start_file_processing, complete_file_processing, skip_file_processing,
}
use omnimemory.Migration.Retry.{retry_files, retry_failed_files}
use omnimemory.Migration.Batches.{start_batch, complete_batch}
use omnimemory.Migration.Files.{length-update_file}

pub data Operation : Type 0 where
  adds : String → Option ℕ → ℕ → Operation
  starts : String → Option String → ℕ → Operation
  completes : String → Completion → ℕ → Operation
  skips : String → String → ℕ → Operation
  retries : ℕ → ℕ → Operation
  starts_batch : String → ℕ → ℕ → Operation
  completes_batch : String → ℕ → Operation

module _ (text : TextOps) where
  unfoldable pub step : MigrationProgressTracker → Operation → MigrationProgressTracker
  step t (adds path size now) = add_file t path size now
  step t (starts path batch now) = (start_file_processing t path batch now).0
  step t (completes path how now) = complete_file_processing text t path how now
  step t (skips path reason now) = skip_file_processing t path reason now
  step t (retries k now) = (retry_failed_files t k now).0
  step t (starts_batch batch size now) = start_batch t batch size now
  step t (completes_batch batch now) = complete_batch t batch now

  unfoldable pub run : MigrationProgressTracker → List Operation → MigrationProgressTracker
  run t [] = t
  run t (o ∷ os) = run (step t o) os

-- Whether an operation reports a tracked file as ended well, or badly.
abbrev pub well : MigrationProgressTracker → Operation → ℕ
well t (completes path success now) = elim (find_file path t.files) [ none ↦ 0 | some f ↦ 1 ]
well t _ = 0

abbrev pub badly : MigrationProgressTracker → Operation → ℕ
badly t (completes path (failure message) now) = elim (find_file path t.files) [
  | none ↦ 0
  | some f ↦ 1
]
badly t _ = 0

length-retry_files :
    (k : ℕ) (fs : List FileProcessingInfo) → length (retry_files k fs).0 ≡ length fs
unfolding retry_files
length-retry_files k [] = refl
length-retry_files k (f ∷ fs) = ground (arith, length-retry_files k fs)

-- One operation on the counters, where the total is the number of files.
abbrev pub Counted : MigrationProgressTracker → ℕ → ℕ → Type 0
Counted t good bad =
    (t.metrics.total_files ≡ length t.files)
    × (t.metrics.processed_files ≡ good)
    × (t.metrics.failed_files ≡ bad)

module _ (text : TextOps) (t : MigrationProgressTracker) (good bad : ℕ)
    (c : Counted t good bad) where
  completes-Counted :
      (path : String) (how : Completion) (now : ℕ)
      → Counted
          (step text t (completes path how now))
          (good + well t (completes path how now))
          (bad + badly t (completes path how now))
  unfolding step complete_file_processing
  completes-Counted path success now =
      ground (arith, length-update_file path (ended_file success now) t.files)
  completes-Counted path (failure message) now =
      ground (arith, length-update_file path (ended_file (failure message) now) t.files)

  step-Counted : (o : Operation) → Counted (step text t o) (good + well t o) (bad + badly t o)
  unfolding step add_file start_file_processing skip_file_processing retry_failed_files start_batch
      complete_batch
  step-Counted (adds path size now) =
      ground (arith, length-append t.files (added_file path size ∷ []))
  step-Counted (starts path batch now) =
      ground (arith, length-update_file path (started_file batch now) t.files)
  step-Counted (completes path success now) = completes-Counted path success now
  step-Counted (completes path (failure message) now) = completes-Counted path (failure message) now
  step-Counted (skips path reason now) =
      ground (arith, length-update_file path (skipped_file reason) t.files)
  step-Counted (retries k now) = ground (arith, length-retry_files k t.files)
  step-Counted (starts_batch batch size now) = ground arith
  step-Counted (completes_batch batch now) = ground arith

-- How many files a history reports as ended well, and how many badly.
module _ (text : TextOps) where
  unfoldable pub all_well : MigrationProgressTracker → List Operation → ℕ
  all_well t [] = 0
  all_well t (o ∷ os) = well t o + all_well (step text t o) os

  unfoldable pub all_badly : MigrationProgressTracker → List Operation → ℕ
  all_badly t [] = 0
  all_badly t (o ∷ os) = badly t o + all_badly (step text t o) os

  run-Counted_from :
      (t : MigrationProgressTracker) (os : List Operation) (good bad : ℕ)
      → Counted t good bad
      → Counted (run text t os) (good + all_well t os) (bad + all_badly t os)
  unfolding run all_well all_badly
  run-Counted_from t [] good bad c = omega arith
  run-Counted_from t (o ∷ os) good bad c = omega (
    arith,
    run-Counted_from (step text t o) os (good + well t o) (bad + badly t o)
        (step-Counted text t good bad c o),
  )

  pub run-Counted :
      (now : ℕ) (os : List Operation)
      → Counted (run text (new now) os) (all_well (new now) os) (all_badly (new now) os)
  unfolding new
  run-Counted now os = omega (arith, run-Counted_from (new now) os 0 0 (refl, refl, refl))

  -- The summary of a tracker counts its files, the reports that a file ended well as processed,
  -- and the reports that one ended badly as failed, whatever operations were made. Its successful
  -- items are the first less the second.
  pub summary_counts :
      (now : ℕ) (os : List Operation)
      → let s = get_progress_summary (run text (new now) os) in
        (s.total_items ≡ length (run text (new now) os).files)
        × (s.processed_items ≡ all_well (new now) os)
        × (s.failed_items ≡ all_badly (new now) os)
        × (s.successful_items ≡ sub_ℕ (all_well (new now) os) (all_badly (new now) os))
  unfolding get_progress_summary
  summary_counts now os = ground (arith, run-Counted now os)
