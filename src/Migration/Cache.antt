-- ===== src/Migration/Cache.antt =====
-- The cached percentages: when they are right, and when they are not.
use omnimemory.Prelude.{
  ℕ, ◌+◌, ◌*◌, ◌<◌, ◌≡◌, ◌≢◌, Option, none, some, [], ◌∷◌, String, length, length-append, arith,
}
use omnimemory.Prelude.Int.{ℤ, sub_ℕ}
use omnimemory.Migration.ErrorType.{TextOps}
use omnimemory.Migration.{
  MigrationProgressTracker, Ratio, completion_percentage, completion_ratio, success_rate,
  success_ratio,
}
use omnimemory.Migration.Tracker.{
  Completion, success, failure, find_file, add_file, added_file, complete_file_processing,
}

-- Right after a tracked file was reported as ended, both percentages are calculated from the new
-- counters, at whatever time they are read.
pub complete_refreshes :
    (text : TextOps) (t : MigrationProgressTracker) (path : String) (how : Completion)
    (now later : ℕ)
    → find_file path t.files ≢ none
    → let m = (complete_file_processing text t path how now).metrics in
      ((completion_percentage m later).1 ≡ completion_ratio m)
      × ((success_rate m later).1 ≡ success_ratio m)
unfolding complete_file_processing completion_percentage success_rate
complete_refreshes text t path success now later found = ground arith
complete_refreshes text t path (failure message) now later found = ground arith

-- An integer times a natural number, and whether two fractions have the same value.
abbrev pub scale : ℤ → ℕ → ℤ
scale (ℤ.pos n) k = ℤ.pos (n * k)
scale (ℤ.negsuc n) k = sub_ℕ 0 ((n + 1) * k)

abbrev pub SameValue : Ratio → Ratio → Type 0
SameValue r q = scale r.numerator q.denominator ≡ scale q.numerator r.denominator

larger_total : (p n : ℕ) → 0 < p → ℤ.pos (p * 100 * (n + 1)) ≢ ℤ.pos (p * 100 * n)
larger_total p n h e = ground arith

-- `add_file` does not invalidate the cache. In a tracker with files, of which one at least counts
-- as processed, with an invalidated cache whose lifetime runs and no cached completion
-- percentage: a percentage that is read then is reported again after a file is added, until the
-- lifetime is over, though by the counters it is another one.
pub add_file_stale :
    (t : MigrationProgressTracker) (path : String) (size : Option ℕ)
    (invalidated read added later : ℕ)
    → t.metrics.cache_invalidated_at ≡ some invalidated
    → t.metrics.cached_completion_percentage ≡ none
    → later < invalidated + t.metrics.cache_ttl
    → t.metrics.total_files ≡ length t.files
    → 0 < t.metrics.total_files
    → 0 < t.metrics.processed_files
    → let t' = record t { metrics = (completion_percentage t.metrics read).0 } in
      let m = (add_file t' path size added).metrics in
      ((completion_percentage m later).1 ≡ completion_ratio t.metrics)
      × ¬ SameValue (completion_percentage m later).1 (completion_ratio m)
unfolding add_file completion_percentage
add_file_stale t path size invalidated read added later when none_cached young total some_file
      some_done =
    ground (
      arith,
      length-append t.files (added_file path size ∷ []),
      larger_total t.metrics.processed_files t.metrics.total_files some_done,
    )
