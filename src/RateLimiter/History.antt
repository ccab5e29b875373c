-- ===== src/RateLimiter/History.antt =====
-- A limiter over a history of attempts, against the log of all that it ever granted.
pub mod Step
use omnimemory.Prelude.{
  Result, ok, err, ℕ, ◌+◌, ◌-◌, ◌≤◌, ◌<◌, ◌≡◌, refl, Bool, true, List, [], ◌∷◌, if◌then◌else◌, inl,
  inr, Bool-cases, arith,
}
use omnimemory.RateLimiter.{Error, RateLimiterConfig, Entries, minute, init}
use omnimemory.RateLimiter.Window.{
  usage_from, usage_between, usage_between-le, usage_from_mono, one, itself,
}
use Step.{Logged, step, admits, Tracks, init-Tracks, step_grants, step-Tracks}

-- A new limiter, before any attempt.
abbrev pub start : RateLimiterConfig → Logged
start c = record { limiter = init c; grants = [] }

-- Attempts (tokens, instant) in turn.
unfoldable pub run : Logged → List (ℕ × ℕ) → Logged
run s [] = s
run s ((tokens, now) ∷ calls) = run (step s tokens now) calls

-- The clock does not run backwards.
abbrev pub InOrder : ℕ → List (ℕ × ℕ) → Type 0
InOrder last [] = Unit {0}
InOrder last ((tokens, now) ∷ calls) = (last ≤ now) × InOrder now calls

-- The log that a limiter should keep: it looks at the grants of the last minute and at no window.
unfoldable pub grants_by_log : ℕ → ℕ → Entries → List (ℕ × ℕ) → Entries
unfolding admits
grants_by_log r k log [] = log
grants_by_log r k log ((tokens, now) ∷ calls) =
    grants_by_log r k (if admits r k log tokens now then (now, tokens) ∷ log else log) calls

run_refines_from :
    (r k last : ℕ) (s : Logged) (calls : List (ℕ × ℕ))
    → Tracks r k last s
    → InOrder last calls
    → (run s calls).grants ≡ grants_by_log r k s.grants calls
unfolding run grants_by_log
run_refines_from r k last s [] tracks order = refl
run_refines_from r k last s ((tokens, now) ∷ calls) tracks order =
    rw (← step_grants s now tracks order.0 tokens) (
      run_refines_from r k now (step s tokens now) calls (step-Tracks s now tracks order.0 tokens)
        order.1)

-- The limiter grants exactly the attempts that its limits allow by the log of the last minute, in
-- any history of attempts at instants in order.
pub run_refines :
    (c : RateLimiterConfig) (calls : List (ℕ × ℕ))
    → InOrder 0 calls
    → (run (start c) calls).grants
      ≡ grants_by_log (init c).max_requests (init c).max_tokens [] calls
run_refines c calls order =
    run_refines_from (init c).max_requests (init c).max_tokens 0 (start c) calls (init-Tracks c)
      order

-- No minute of the log weighs more than the limit.
abbrev Spread : (ℕ → ℕ) → ℕ → Entries → Type 0
Spread weigh limit log = (a : ℕ) → usage_between weigh a (a + minute) log ≤ limit

Spread-grant :
    (weigh : ℕ → ℕ) (limit : ℕ) (log : Entries) (tokens now : ℕ)
    → usage_from weigh (now - minute) log + weigh tokens ≤ limit
    → Spread weigh limit log
    → Spread weigh limit ((now, tokens) ∷ log)
unfolding usage_between
Spread-grant weigh limit log tokens now room spread a = ground (
  arith,
  spread a,
  usage_between-le weigh a (a + minute) log,
  usage_from_mono weigh (now - minute) a log,
)

-- The two limits, where the one on tokens is in force.
abbrev WithinLimits : ℕ → ℕ → Entries → Type 0
WithinLimits r k log = Spread one r log × (0 < k → Spread itself k log)

WithinLimits-admits :
    (r k : ℕ) (log : Entries) (tokens now : ℕ)
    → WithinLimits r k log
    → WithinLimits r k (if admits r k log tokens now then (now, tokens) ∷ log else log)
unfolding admits
WithinLimits-admits r k log tokens now (requests, by_tokens) =
    elim (Bool-cases (admits r k log tokens now)) [
      | inl e ↦ rw e (
        Spread-grant one r log tokens now (ground arith) requests,
        λ h. Spread-grant itself k log tokens now (ground arith) (by_tokens h),
      )
      | inr e ↦ rw e (requests, by_tokens)
    ]

grants_by_log-WithinLimits :
    (r k : ℕ) (log : Entries) (calls : List (ℕ × ℕ))
    → WithinLimits r k log
    → WithinLimits r k (grants_by_log r k log calls)
unfolding grants_by_log
grants_by_log-WithinLimits r k log [] within = within
grants_by_log-WithinLimits r k log ((tokens, now) ∷ calls) within =
    grants_by_log-WithinLimits r k (if admits r k log tokens now then (now, tokens) ∷ log else log)
      calls (WithinLimits-admits r k log tokens now within)

run-WithinLimits :
    (c : RateLimiterConfig) (calls : List (ℕ × ℕ))
    → InOrder 0 calls
    → WithinLimits (init c).max_requests (init c).max_tokens (run (start c) calls).grants
unfolding usage_between
run-WithinLimits c calls order = rw (run_refines c calls order) (
    grants_by_log-WithinLimits (init c).max_requests (init c).max_tokens [] calls
      ((λ a. omega arith), (λ h a. omega arith)))

-- In any span of sixty seconds, both ends included, a new limiter grants at most `max_requests`
-- attempts, whatever attempts are made at instants in order.
pub run_within_requests :
    (c : RateLimiterConfig) (calls : List (ℕ × ℕ)) (a : ℕ)
    → InOrder 0 calls
    → usage_between one a (a + minute) (run (start c) calls).grants ≤ (init c).max_requests
run_within_requests c calls a order = (run-WithinLimits c calls order).0 a

-- In any span of sixty seconds, both ends included, a new limiter that limits tokens grants at
-- most `max_tokens` tokens, whatever attempts are made at instants in order.
pub run_within_tokens :
    (c : RateLimiterConfig) (calls : List (ℕ × ℕ)) (a : ℕ)
    → InOrder 0 calls
    → 0 < (init c).max_tokens
    → usage_between itself a (a + minute) (run (start c) calls).grants ≤ (init c).max_tokens
run_within_tokens c calls a order limited = (run-WithinLimits c calls order).1 limited a
