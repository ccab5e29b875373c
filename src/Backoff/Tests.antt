-- ===== src/Backoff/Tests.antt =====
-- An operation that fails twice, and the theorems on its retries.
use omnimemory.Prelude.{
  ℕ, zero, suc, ◌≤◌, ◌≡◌, refl, Bool, false, List, [], ◌∷◌, String, Result, ok, err,
}
use omnimemory.Backoff.{
  RetryConfig, retry_with_backoff, new_statistics, get_statistics, is_retryable_exception,
  attempt_loop,
}
use omnimemory.Backoff.Attempts.{Stops, retry-Stops}
use omnimemory.Backoff.Statistics.{IsBalanced, execute_all, statistics_lem}

abbrev within : String → String → Bool
within a b = false

-- It times out twice, and then gives 5.
abbrev operation : ℕ → Result String ℕ
operation zero = err "TimeoutError"
operation (suc zero) = err "TimeoutError"
operation (suc (suc zero)) = err "TimeoutError"
operation (suc (suc (suc n))) = ok 5

abbrev config : RetryConfig
config = record { max_attempts = 4; retryable_exceptions = "TimeoutError" ∷ [] }

third_succeeds : retry_with_backoff within config operation ≡ (3, ok 5)
unfolding retry_with_backoff attempt_loop is_retryable_exception
third_succeeds = refl

retry-Stops_example :
    Stops within ("TimeoutError" ∷ []) operation 1 4 (retry_with_backoff within config operation)
retry-Stops_example = retry-Stops within ("TimeoutError" ∷ []) operation 3

abbrev calls : List (RetryConfig × (ℕ → Result String ℕ))
calls = (config, operation) ∷ (config, operation) ∷ []

-- Two operations of three attempts each.
statistics_lem_example :
    IsBalanced (get_statistics (execute_all within new_statistics calls))
    × ((get_statistics (execute_all within new_statistics calls)).total_operations ≡ 2)
    × ((get_statistics (execute_all within new_statistics calls)).total_retries ≡ 0)
    × (1 ≤ 2 → (get_statistics (execute_all within new_statistics calls)).average_attempts ≡ (2, 2))
statistics_lem_example = statistics_lem within calls
