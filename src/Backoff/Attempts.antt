-- ===== src/Backoff/Attempts.antt =====
-- Which attempts `retry_with_backoff` makes.
use mathlib.Core.Path.{subst}
use omnimemory.Prelude.{
  ℕ, zero, suc, ◌+◌, ◌≤◌, ◌<◌, ◌≡◌, refl, ap, ◌∙◌, ◌⊎◌, inl, inr, Bool, true, false, List, String,
  Result, ok, err, ◌==◌, arith, Bool-cases,
}
use omnimemory.Backoff.{
  is_retryable_exception, Failure, exception, attempt_loop, retry_with_backoff,
}

Nat-cases : (i first : ℕ) → first ≤ i → (i ≡ first) ⊎ (first + 1 ≤ i)
Nat-cases i first low = elim (Bool-cases (i == first)) [
  | inl e ↦ inl (ground arith)
  | inr e ↦ inr (ground arith)
]

module _ {ℓ} {T : Type ℓ} (within : String → String → Bool) (retryable : List String)
    (operation : ℕ → Result String T) where
  -- The attempt raised an exception that is retried.
  abbrev pub Retried : ℕ → Type ℓ
  Retried i =
      (name : String) × (operation i ≡ err name)
      × (is_retryable_exception within name retryable ≡ true)

  -- The call ends with an attempt: with its value, or with its exception, which is not retried
  -- unless the attempt is the last one allowed.
  pub data Ends (last calls : ℕ) : Result Failure T → Type ℓ where
    returns : (value : T) → operation calls ≡ ok value → Ends last calls (ok value)
    raises :
        (name : String)
        → operation calls ≡ err name
        → (calls ≡ last) ⊎ (is_retryable_exception within name retryable ≡ false)
        → Ends last calls (err (exception name))

  pub record Stops (first last : ℕ) (answer : ℕ × Result Failure T) : Type ℓ where
    pub from_first : first ≤ answer.0
    pub to_last : answer.0 ≤ last
    pub before : (i : ℕ) → first ≤ i → i < answer.0 → Retried i
    pub ends : Ends last answer.0 answer.1

  same_last : (left first : ℕ) → first + 1 + left ≡ first + suc left
  same_last left first = omega arith

  attempt_loop-Stops :
      (left first : ℕ) (outcome : Result String T)
      → operation first ≡ outcome
      → Stops first (first + left) (attempt_loop within retryable left operation first outcome)
  unfolding attempt_loop
  attempt_loop-Stops zero first (ok value) e = record {
    from_first = omega arith;
    to_last = omega arith;
    before = λ i low high. absurd (omega (arith, low, high));
    ends = returns value e;
  }
  attempt_loop-Stops (suc left) first (ok value) e = record {
    from_first = omega arith;
    to_last = omega arith;
    before = λ i low high. absurd (omega (arith, low, high));
    ends = returns value e;
  }
  attempt_loop-Stops zero first (err name) e = record {
    from_first = omega arith;
    to_last = omega arith;
    before = λ i low high. absurd (omega (arith, low, high));
    ends = raises name e (inl (omega arith));
  }
  attempt_loop-Stops (suc left) first (err name) e =
      elim (Bool-cases (is_retryable_exception within name retryable)) [
        | inr refused ↦ rw refused (record {
          from_first = omega arith;
          to_last = omega arith;
          before = λ i low high. absurd (omega (arith, low, high));
          ends = raises name e (inr refused);
        })
        | inl kept ↦
            let rest = attempt_loop-Stops left (first + 1) (operation (first + 1)) refl in
            rw kept (record {
              from_first = omega (arith, rest.from_first);
              to_last = omega (arith, rest.to_last);
              before = λ i low high. elim (Nat-cases i first low) [
                | inl same ↦ (name, ap operation same ∙ e, kept)
                | inr more ↦ rest.before i more high
              ];
              ends =
                  subst
                    (λ last.
                      Ends last
                        (attempt_loop within retryable left operation (first + 1)
                          (operation (first + 1))).0
                        (attempt_loop within retryable left operation (first + 1)
                          (operation (first + 1))).1)
                    (same_last left first) rest.ends;
            })
      ]

  -- `retry_with_backoff` with at least one attempt allowed makes between one and `max_attempts`
  -- of them: each but the last that it makes raised an exception that is retried, and the answer
  -- is the value or the exception of the last, whose exception is not retried unless no attempt
  -- is left.
  pub retry-Stops :
      (left : ℕ)
      → Stops 1 (1 + left) (
          retry_with_backoff within
            (record { max_attempts = suc left; retryable_exceptions = retryable })
            operation)
  unfolding retry_with_backoff
  retry-Stops left = attempt_loop-Stops left 1 (operation 1) refl
