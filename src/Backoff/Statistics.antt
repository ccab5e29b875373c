-- ===== src/Backoff/Statistics.antt =====
-- What the statistics of `RetryManager` say after a number of operations.
use mathlib.Core.Path.{ap₂}
use omnimemory.Prelude.{
  ℕ, zero, suc, ◌+◌, ◌≤◌, ◌≡◌, refl, ap, ◌∙◌, Bool, true, false, List, [], ◌∷◌, String, Result, ok,
  err, length, sum_by, if◌then◌else◌, if_true, arith,
}
use omnimemory.Prelude.Equality.{eq_String}
use omnimemory.Prelude.Dict.{Dict, lookup, insert}
use omnimemory.Backoff.{
  RetryConfig, Failure, RetryStatistics, new_statistics, count_of, failure_name, count_success,
  count_failure, counted, is_positive, execute_with_retry, get_statistics,
}

abbrev pub amount : String × ℕ → ℕ
amount entry = entry.1

sum-insert :
    (name : String) (d : Dict String ℕ)
    → sum_by amount (insert name (count_of (lookup name d) + 1) d) ≡ sum_by amount d + 1
sum-insert name [] = refl
sum-insert name ((other, n) ∷ d) = ground (arith, sum-insert name d)

-- The numbers agree: every operation is a success or a failure, and every failure is counted under
-- the name of its exception.
pub record IsBalanced (s : RetryStatistics) : Type 0 where
  pub total : s.total_operations ≡ s.successful_operations + s.failed_operations
  pub named : sum_by amount s.common_exceptions ≡ s.failed_operations

-- What the statistics come to, from any that are balanced.
record Comes (s q : RetryStatistics) (calls : ℕ) : Type 0 where
  balanced : IsBalanced q
  retries : q.total_retries ≡ s.total_retries
  operations : q.total_operations ≡ s.total_operations + calls

-- What a property of both branches says of their choice.
either {ℓ} :
    (P : RetryStatistics → Type ℓ) (test : Bool) (s q : RetryStatistics)
    → P s
    → P q
    → P (if test then s else q)
either P true s q hs hq = hs
either P false s q hs hq = hq

abbrev averaged : RetryStatistics → RetryStatistics
averaged s = record s {
  average_attempts = (s.total_operations + s.total_retries, s.total_operations);
}

positive : (n : ℕ) → 1 ≤ n → is_positive n ≡ true
positive zero h = ground arith
positive (suc n) h = refl

module _ {ℓ} {T : Type ℓ} (within : String → String → Bool) where
  counted-IsBalanced :
      (s : RetryStatistics) (answer : Result Failure T)
      → IsBalanced s
      → IsBalanced (counted s answer)
  unfolding counted count_success count_failure
  counted-IsBalanced s (ok value) b = record { total = omega (arith, b.total); named = b.named }
  counted-IsBalanced s (err failure) b = record {
    total = omega (arith, b.total);
    named = omega (arith, b.named, sum-insert (failure_name failure) s.common_exceptions);
  }

  -- Operations one after another, each with its configuration.
  unfoldable pub execute_all :
      RetryStatistics → List (RetryConfig × (ℕ → Result String T)) → RetryStatistics
  unfolding execute_with_retry
  execute_all s [] = s
  execute_all s ((config, operation) ∷ calls) =
      execute_all (execute_with_retry within config s operation).0 calls

  counted_retries :
      (s : RetryStatistics) (answer : Result Failure T)
      → (counted s answer).total_retries ≡ s.total_retries
  unfolding counted count_success count_failure
  counted_retries s (ok value) = refl
  counted_retries s (err failure) = refl

  counted_total :
      (s : RetryStatistics) (answer : Result Failure T)
      → (counted s answer).total_operations ≡ s.total_operations + 1
  unfolding counted count_success count_failure
  counted_total s (ok value) = refl
  counted_total s (err failure) = refl

  execute_all-Comes :
      (s : RetryStatistics) (calls : List (RetryConfig × (ℕ → Result String T)))
      → IsBalanced s
      → Comes s (execute_all s calls) (length calls)
  unfolding execute_all execute_with_retry
  execute_all-Comes s [] b = record { balanced = b; retries = refl; operations = omega arith }
  execute_all-Comes s ((config, operation) ∷ calls) b =
      let answer = (execute_with_retry within config s operation).1 in
      let rest = execute_all-Comes (counted s answer) calls (counted-IsBalanced s answer b) in
      record {
        balanced = rest.balanced;
        retries = rest.retries ∙ counted_retries s answer;
        operations = omega (arith, rest.operations, counted_total s answer);
      }

  -- After any operations the statistics are balanced and count each once; but no retry is ever
  -- counted, so that after at least one operation the mean number of attempts is one attempt for
  -- each operation, however many attempts were made.
  pub statistics_lem :
      (calls : List (RetryConfig × (ℕ → Result String T)))
      → let q = get_statistics (execute_all new_statistics calls) in
        IsBalanced q
        × (q.total_operations ≡ length calls)
        × (q.total_retries ≡ 0)
        × (1 ≤ length calls → q.average_attempts ≡ (length calls, length calls))
  unfolding get_statistics new_statistics
  statistics_lem calls =
      let came = execute_all-Comes new_statistics calls (record { total = refl; named = refl }) in
      let start = execute_all new_statistics calls in
      let made : start.total_operations ≡ length calls = omega (arith, came.operations) in
      (
        either IsBalanced (is_positive start.total_operations) (averaged start) start
            (record { total = came.balanced.total; named = came.balanced.named }) came.balanced,
        either (λ q. q.total_operations ≡ length calls) (is_positive start.total_operations)
            (averaged start) start made made,
        either (λ q. q.total_retries ≡ 0) (is_positive start.total_operations) (averaged start)
            start came.retries came.retries,
        λ some_made.
            ap (λ q. q.average_attempts)
              (if_true (is_positive start.total_operations) (averaged start) start
                (positive start.total_operations (omega (arith, came.operations, some_made))))
            ∙ ap₂ (λ a b. (a, b)) (omega (arith, came.retries, made)) made,
      )
