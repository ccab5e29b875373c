-- ===== src/RateLimiter/Tests.antt =====
-- Runs of a rate limiter and of the registry, and the theorems on them at concrete inputs.
use omnimemory.Prelude.{ℕ, ◌+◌, ◌*◌, ◌≡◌, ◌≤◌, ◌↔◌, inr, refl, true, List, [], ◌∷◌, arith}
use omnimemory.RateLimiter.{
  Factor, RateLimiterConfig, Env, minute, init, try_acquire, try_locked, acquire,
  ProviderRateLimiter, drop_expired,
}
use omnimemory.RateLimiter.Window.{one, itself, usage_between}
use omnimemory.RateLimiter.History.{
  InOrder, start, run, grants_by_log, run_refines, run_within_requests, run_within_tokens,
}
use omnimemory.RateLimiter.History.Step.{step}
use omnimemory.RateLimiter.Acquire.{GrantedBy, IsSolo, Fits, acquire_returns}
use omnimemory.RateLimiter.Registry.{
  TextOps, Limits, get_or_create, remove, normalize_key, validate_identifier, get_or_create_at,
  make_config, remove_at,
}
use omnimemory.RateLimiter.Registry.Calls.{
  create, drop, serve, serve_all, spelled, Undisturbed, limiters_shared,
}

abbrev unit_factor : Factor
unit_factor = record { in_range = true; ceil_times = λ n. n; times = λ t. 2 * t }

-- Two requests and ten tokens in a minute.
abbrev two_a_minute : RateLimiterConfig
two_a_minute = record {
  provider = "openai";
  model = "small";
  requests_per_minute = 2;
  tokens_per_minute = 10;
  burst_multiplier = unit_factor;
  initial_backoff = 100_000;
  max_backoff = 5_000_000;
  backoff_multiplier = unit_factor;
}

-- Attempts (tokens, instant): the second asks for too much, the fourth is one request too many,
-- and the last comes after the first has left the window.
abbrev attempts : List (ℕ × ℕ)
attempts = (4, 0) ∷ (7, 1) ∷ (6, 2) ∷ (1, 3) ∷ (4, 60_000_001) ∷ []

attempts-InOrder : InOrder 0 attempts
attempts-InOrder = (omega arith, (omega arith, (omega arith, (omega arith, (omega arith, tt)))))

attempts_granted :
    (run (start two_a_minute) attempts).grants ≡ (60_000_001, 4) ∷ (2, 6) ∷ (0, 4) ∷ []
unfolding run init step try_acquire try_locked drop_expired
attempts_granted = refl

run_refines_example :
    (run (start two_a_minute) attempts).grants
    ≡ grants_by_log (init two_a_minute).max_requests (init two_a_minute).max_tokens [] attempts
run_refines_example = run_refines two_a_minute attempts attempts-InOrder

run_within_requests_example :
    usage_between one 1 (1 + minute) (run (start two_a_minute) attempts).grants
    ≤ (init two_a_minute).max_requests
run_within_requests_example = run_within_requests two_a_minute attempts 1 attempts-InOrder

run_within_tokens_example :
    usage_between itself 1 (1 + minute) (run (start two_a_minute) attempts).grants
    ≤ (init two_a_minute).max_tokens
unfolding init
run_within_tokens_example = run_within_tokens two_a_minute attempts 1 attempts-InOrder (omega arith)

-- A limiter alone in the world; a sleep takes the time that it is given, and a microsecond.
abbrev alone : Env
alone = record { read_after = λ now. now; wake = λ now wait. now + wait + 1; others = λ now l. l }

alone-IsSolo : IsSolo alone
alone-IsSolo = record {
  reads_later = λ now. omega arith;
  sleeps = λ now wait. omega arith;
  undisturbed = λ now l. refl;
}

-- A limiter whose two grants still stand.
abbrev full : ProviderRateLimiter
full = record {
  config = two_a_minute;
  max_requests = 2;
  max_tokens = 10;
  request_window = (0, 4) ∷ (2, 6) ∷ [];
}

full-Fits : Fits full 4
full-Fits = record {
  some_request = omega arith;
  some_token = omega arith;
  tokens_fit = inr (omega arith);
}

acquire_returns_example : GrantedBy 4 59_999_998 (acquire alone 6 full 4 59_999_998)
acquire_returns_example =
    acquire_returns alone alone-IsSolo 4 5 full 59_999_998 2 full-Fits
      (omega arith, (omega arith, omega arith)) (omega arith)

-- Texts that need no change, all of the right form.
abbrev plain_text : TextOps
plain_text = record { lower = λ s. s; strip = λ s. s; matches = λ s. true }

abbrev small_limits : Limits
small_limits = record {
  requests_per_minute = 2;
  tokens_per_minute = 10;
  burst_multiplier = unit_factor;
}

abbrev large_limits : Limits
large_limits = record {
  requests_per_minute = 90;
  tokens_per_minute = 0;
  burst_multiplier = unit_factor;
}

-- A limiter is asked for again with other limits, after another key has been removed.
limiters_shared_example :
    ◌≡◌ {A = ℕ} 0 0
    ↔ (spelled plain_text "openai" "small" ≡ spelled plain_text "openai" "small")
      × Undisturbed plain_text
          (spelled plain_text "openai" "small")
          (create "openai" "large" large_limits ∷ drop "openai" "large" ∷ [])
unfolding get_or_create serve_all serve remove normalize_key validate_identifier get_or_create_at
    make_config remove_at
limiters_shared_example =
    limiters_shared plain_text []
      (create "openai" "large" large_limits ∷ drop "openai" "large" ∷ []) "openai" "small" "openai"
      "small" small_limits large_limits refl refl
