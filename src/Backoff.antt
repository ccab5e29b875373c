-- ===== src/Backoff.antt =====
-- The retries of src/omnimemory/adapters/adapter_retry_utils.py: `retry_with_backoff`, and the
-- statistics of `RetryManager`. An operation is what each of its attempts gives: a value, or the
-- name of the exception that it raises; one that is cancelled, which nothing here catches or counts
-- at its end, is left out. The delays between attempts, which change no result, are
-- left out; `in` on texts is a parameter.
pub mod Attempts
pub mod Statistics
mod Tests
use text.Mathlib.Text.{◌==◌ as text_eq}
use omnimemory.Prelude.{
  ℕ, zero, suc, ◌+◌, Bool, true, false, ◌&&◌, ◌||◌, Option, none, some, List, [], ◌∷◌, String,
  Result, ok, err, if◌then◌else◌,
}
use omnimemory.Prelude.Equality.{Eq, eq_String}
use omnimemory.Prelude.Dict.{Dict, lookup, insert}

-- `ModelRetryConfig`, without the delays.
pub record RetryConfig : Type 0 where
  pub max_attempts : ℕ
  pub retryable_exceptions : List String

abbrev pub is_listed : String → List String → Bool
is_listed name [] = false
is_listed name (x ∷ xs) = text_eq name x || is_listed name xs

abbrev pub some_within : (String → String → Bool) → String → List String → Bool
some_within within name [] = false
some_within within name (x ∷ xs) = within x name || some_within within name xs

-- `is_retryable_exception`
unfoldable pub is_retryable_exception : (String → String → Bool) → String → List String → Bool
is_retryable_exception within name retryable =
    is_listed name retryable || some_within within name retryable

abbrev pub is_positive : ℕ → Bool
is_positive zero = false
is_positive (suc n) = true

-- What `retry_with_backoff` raises: the last exception, or `RuntimeError` where no attempt is
-- made.
pub data Failure : Type 0 where
  exception : String → Failure
  no_attempt : Failure

module _ {ℓ} {T : Type ℓ} where
  -- The loop from an attempt on, with so many attempts left, and the number of the last attempt.
  unfoldable pub attempt_loop :
      (String → String → Bool)
      → List String
      → ℕ
      → (ℕ → Result String T)
      → ℕ
      → Result String T
      → ℕ × Result Failure T
  unfolding is_retryable_exception
  attempt_loop within retryable left operation attempt (ok value) = (attempt, ok value)
  attempt_loop within retryable zero operation attempt (err name) = (attempt, err (exception name))
  attempt_loop within retryable (suc left) operation attempt (err name) =
      let rest =
        attempt_loop within retryable left operation (attempt + 1) (operation (attempt + 1)) in
      if is_retryable_exception within name retryable then rest else (attempt, err (exception name))

  unfoldable pub retry_with_backoff :
      (String → String → Bool) → RetryConfig → (ℕ → Result String T) → ℕ × Result Failure T
  unfolding attempt_loop
  retry_with_backoff within config operation = elim config.max_attempts [
    | zero ↦ (0, err no_attempt)
    | suc left ↦ attempt_loop within config.retryable_exceptions left operation 1 (operation 1)
  ]

-- `ModelRetryStatistics`; the mean number of attempts is a fraction.
pub record RetryStatistics : Type 0 where
  pub total_operations : ℕ
  pub successful_operations : ℕ
  pub failed_operations : ℕ
  pub total_retries : ℕ
  pub average_attempts : ℕ × ℕ
  pub common_exceptions : Dict String ℕ

-- `RetryManager.__init__` and `reset_statistics`
unfoldable pub new_statistics : RetryStatistics
new_statistics = record {
  total_operations = 0;
  successful_operations = 0;
  failed_operations = 0;
  total_retries = 0;
  average_attempts = (0, 1);
  common_exceptions = [];
}

abbrev pub count_of : Option ℕ → ℕ
count_of none = 0
count_of (some n) = n

abbrev pub failure_name : Failure → String
failure_name (exception name) = name
failure_name no_attempt = "RuntimeError"

unfoldable pub count_success : RetryStatistics → RetryStatistics
count_success s = record s {
  total_operations = s.total_operations + 1;
  successful_operations = s.successful_operations + 1;
}

unfoldable pub count_failure : RetryStatistics → String → RetryStatistics
count_failure s name = record s {
  total_operations = s.total_operations + 1;
  failed_operations = s.failed_operations + 1;
  common_exceptions =
      insert name (count_of (lookup name s.common_exceptions) + 1) s.common_exceptions;
}

-- What the end of the retries does to the statistics.
unfoldable pub counted {ℓ} : {T : Type ℓ} → RetryStatistics → Result Failure T → RetryStatistics
unfolding count_success count_failure
counted s (ok value) = count_success s
counted s (err failure) = count_failure s (failure_name failure)

-- `execute_with_retry`
unfoldable pub execute_with_retry {ℓ} :
    {T : Type ℓ}
    → (String → String → Bool)
    → RetryConfig
    → RetryStatistics
    → (ℕ → Result String T)
    → RetryStatistics × Result Failure T
unfolding counted retry_with_backoff
execute_with_retry within config s operation =
    let answer = (retry_with_backoff within config operation).1 in (counted s answer, answer)

-- `get_statistics`, which stores the mean.
unfoldable pub get_statistics : RetryStatistics → RetryStatistics
get_statistics s =
    if is_positive s.total_operations
    then record s { average_attempts = (s.total_operations + s.total_retries, s.total_operations) }
    else s
