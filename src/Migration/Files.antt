-- ===== src/Migration/Files.antt =====
-- What the operations on a path do to the files.
use omnimemory.Prelude.{
  is_nonempty, ℕ, ◌+◌, ◌≤◌, ◌<◌, ◌≡◌, ◌≢◌, refl, ◌⊎◌, inl, inr, true, false, some, List, [], ◌∷◌,
  String, length, arith, Bool-cases,
}
use omnimemory.Prelude.Equality.{eq_String}
use omnimemory.Migration.ErrorType.{TextOps}
use omnimemory.Migration.{FileProcessingInfo, completed, failed, pending, MigrationProgressTracker}
use omnimemory.Migration.Tracker.{
  Completion, success, failure, find_file, update_file, ended_file, complete_file_processing,
}
use omnimemory.Migration.Retry.{can_retry, retry_files, retry_failed_files}

-- An update at a path that keeps the path changes what is found there, and nothing elsewhere.
pub find_file-update_file :
    (p q : String) (change : FileProcessingInfo → FileProcessingInfo) (fs : List FileProcessingInfo)
    → ((f : FileProcessingInfo) → (change f).file_path ≡ f.file_path)
    → (f : FileProcessingInfo) → find_file p fs ≡ some f
    → (find_file p (update_file p change fs) ≡ some (change f))
      × (p ≢ q → find_file q (update_file p change fs) ≡ find_file q fs)
unfolding find_file update_file
find_file-update_file p q change [] keeps f h = cc
find_file-update_file p q change (g ∷ fs) keeps f h = ground (
  arith,
  keeps g,
  eq_String.equal_iff g.file_path p,
  eq_String.equal_iff g.file_path q,
  find_file-update_file p q change fs keeps f,
)

pub length-update_file :
    (p : String) (change : FileProcessingInfo → FileProcessingInfo) (fs : List FileProcessingInfo)
    → length (update_file p change fs) ≡ length fs
unfolding update_file
length-update_file p change [] = refl
length-update_file p change (g ∷ fs) = ground (arith, length-update_file p change fs)

-- The state of the work on a file after it was reported as ended.
abbrev pub Ended : Completion → ℕ → FileProcessingInfo → FileProcessingInfo → Type 0
Ended success now f g =
    (g.status ≡ completed)
    × (g.end_time ≡ some now)
    × (g.file_size ≡ f.file_size)
    × (g.retry_count ≡ f.retry_count)
Ended (failure message) now f g =
    (g.status ≡ failed)
    × (g.end_time ≡ some now)
    × (g.error_message ≡ message)
    × (g.retry_count ≡ f.retry_count)

ended_file-Ended :
    (how : Completion) (now : ℕ) (f : FileProcessingInfo) → Ended how now f (ended_file how now f)
ended_file-Ended success now f = (refl, refl, refl, refl)
ended_file-Ended (failure message) now f = (refl, refl, refl, refl)

ended_file-path :
    (how : Completion) (now : ℕ) (f : FileProcessingInfo)
    → (ended_file how now f).file_path ≡ f.file_path
ended_file-path success now f = refl
ended_file-path (failure message) now f = refl

-- `complete_file_processing` of a tracked path ends the file that is found there, and leaves the
-- file that is found under another path as it was.
pub complete_file_processing-Ended :
    (text : TextOps) (t : MigrationProgressTracker) (p q : String) (how : Completion) (now : ℕ)
    (f : FileProcessingInfo)
    → find_file p t.files ≡ some f
    → p ≢ q
    → let t' = complete_file_processing text t p how now in
      (g : FileProcessingInfo) × (find_file p t'.files ≡ some g)
      × Ended how now f g
      × (find_file q t'.files ≡ find_file q t.files)
unfolding complete_file_processing
complete_file_processing-Ended text t p q how now f found ne =
    let (here, others) =
      find_file-update_file p q (ended_file how now) t.files (ended_file-path how now) f found in
    (
      ended_file how now f,
      rw (found, complete_file_processing) here,
      ended_file-Ended how now f,
      rw (found, complete_file_processing) (others ne),
    )

-- The files before and after a retry, and the files that it returns, one by one: a file is
-- picked, set to pending with one retry more and returned, if it failed and has retries left; any
-- other stays as it is.
abbrev pub Retries :
    ℕ → List FileProcessingInfo → List FileProcessingInfo → List FileProcessingInfo → Type 0
Retries k [] [] rs = rs ≡ []
Retries k (f ∷ fs) (g ∷ gs) rs =
    ((f.status ≡ failed)
      × (f.retry_count < k)
      × (g ≡ record f { retry_count = f.retry_count + 1; status = pending })
      × (picked : List FileProcessingInfo) × (rs ≡ g ∷ picked)
      × Retries k fs gs picked)
    ⊎ (((f.status ≢ failed) ⊎ (k ≤ f.retry_count)) × (g ≡ f) × Retries k fs gs rs)
Retries k _ _ rs = ⊥

can_retry_failed :
    (k : ℕ) (f : FileProcessingInfo)
    → can_retry k f ≡ true
    → (f.status ≡ failed) × (f.retry_count < k)
can_retry_failed k f e = ground arith

cannot_retry :
    (k : ℕ) (f : FileProcessingInfo)
    → can_retry k f ≡ false
    → (f.status ≢ failed) ⊎ (k ≤ f.retry_count)
cannot_retry k f e = ground arith

retry_files-Retries :
    (k : ℕ) (fs : List FileProcessingInfo) → Retries k fs (retry_files k fs).0 (retry_files k fs).1
unfolding retry_files
retry_files-Retries k [] = refl
retry_files-Retries k (f ∷ fs) = elim (Bool-cases (can_retry k f)) [
  | inl e ↦
      let (bad, left) = can_retry_failed k f e in
      rw e (inl (bad, left, refl, (retry_files k fs).1, refl, retry_files-Retries k fs))
  | inr e ↦ rw e (inr (cannot_retry k f e, refl, retry_files-Retries k fs))
]

nonempty : (rs : List FileProcessingInfo) → is_nonempty rs ≡ true → rs ≢ []
nonempty [] e h = cc
nonempty (f ∷ rs) e h = cc

empty : (rs : List FileProcessingInfo) → is_nonempty rs ≡ false → rs ≡ []
empty [] e = refl
empty (f ∷ rs) e = cc

-- `retry_failed_files` retries exactly the files that failed and have retries left, returns them,
-- and counts one recovery attempt exactly if there are any.
pub retry_failed_files-Retries :
    (t : MigrationProgressTracker) (k now : ℕ)
    → let (t', rs) = retry_failed_files t k now in
      Retries k t.files t'.files rs
      × (((rs ≡ []) × (t'.recovery_attempts ≡ t.recovery_attempts))
          ⊎ ((rs ≢ []) × (t'.recovery_attempts ≡ t.recovery_attempts + 1)))
unfolding retry_failed_files
retry_failed_files-Retries t k now = elim (Bool-cases (is_nonempty (retry_files k t.files).1)) [
  | inl e ↦ rw e (retry_files-Retries k t.files, inr (nonempty _ e, refl))
  | inr e ↦ rw e (retry_files-Retries k t.files, inl (empty _ e, refl))
]
