-- ===== src/RateLimiter/History/Step.antt =====
-- One attempt, and the invariant that ties the window to the log of all grants.
use omnimemory.Prelude.{
  Result, ok, err, ℕ, ◌+◌, ◌-◌, ◌≤◌, ◌≡◌, refl, Bool, true, false, ◌&&◌, ◌||◌, [], ◌∷◌, ◌++◌, ltb,
  leb, ◌==◌, if◌then◌else◌, arith, length, ◌⊎◌, inl, inr,
}
use omnimemory.RateLimiter.{
  Error, RateLimiterConfig, ProviderRateLimiter, Entries, minute, init, try_locked, try_acquire,
  cleanup_window, sum_tokens, drop_expired, get_current_usage,
}
use omnimemory.RateLimiter.Window.{
  usage_from, usage_from-append, usage_from-drop_expired, Ordered, Ordered-later, Ordered-append,
  Ordered-drop_expired, total-drop_expired, one, itself, length_usage, sum_tokens_usage,
  append_bounded_lem,
}

-- A limiter with the grants that it has made, newest first.
pub record Logged : Type 0 where
  pub limiter : ProviderRateLimiter
  pub grants : Entries

abbrev pub after : Logged → ℕ → ℕ → Result Error (ProviderRateLimiter × Bool) → Logged
after s tokens now (err e) = s
after s tokens now (ok (l, true)) = record { limiter = l; grants = (now, tokens) ∷ s.grants }
after s tokens now (ok (l, false)) = record s { limiter = l }

-- `try_acquire` at an instant, with the grant put on record.
unfoldable pub step : Logged → ℕ → ℕ → Logged
step s tokens now = after s tokens now (try_acquire s.limiter tokens now)

-- A sliding window without a window: whether the grants of the last minute leave room.
unfoldable pub admits : ℕ → ℕ → Entries → ℕ → ℕ → Bool
admits max_requests max_tokens grants tokens now =
    leb 1 tokens
    && ltb (usage_from one (now - minute) grants) max_requests
    && (max_tokens == 0 || leb (usage_from itself (now - minute) grants + tokens) max_tokens)

-- The window is in order up to the last attempt, and shows every grant of the minute before it.
pub record Tracks (max_requests max_tokens last : ℕ) (s : Logged) : Type 0 where
  pub requests_fixed : s.limiter.max_requests ≡ max_requests
  pub tokens_fixed : s.limiter.max_tokens ≡ max_tokens
  pub ordered : Ordered 0 s.limiter.request_window last
  pub recent :
      (weigh : ℕ → ℕ) (a : ℕ)
      → last - minute ≤ a
      → usage_from weigh a s.grants ≡ usage_from weigh a s.limiter.request_window

pub init-Tracks :
    (c : RateLimiterConfig)
    → Tracks (init c).max_requests (init c).max_tokens 0 (record { limiter = init c; grants = [] })
unfolding init usage_from
init-Tracks c = record {
  requests_fixed = refl;
  tokens_fixed = refl;
  ordered = omega arith;
  recent = λ weigh a h. refl;
}

-- The window after the cleanup at `now`.
abbrev cleaned : Logged → ℕ → Entries
cleaned s now = drop_expired (now - minute) s.limiter.request_window

module _ {r k last : ℕ} (s : Logged) (now : ℕ) (tracks : Tracks r k last s)
    (later : last ≤ now) where
  cleaned-Ordered : Ordered 0 (cleaned s now) now
  cleaned-Ordered =
      Ordered-drop_expired (now - minute) 0 s.limiter.request_window now
        (Ordered-later 0 s.limiter.request_window last now later tracks.ordered)

  cleaned_recent :
      (weigh : ℕ → ℕ) (a : ℕ)
      → now - minute ≤ a
      → usage_from weigh a s.grants ≡ usage_from weigh a (cleaned s now)
  cleaned_recent weigh a h = omega (
    arith,
    tracks.recent weigh a (omega arith),
    usage_from-drop_expired weigh (now - minute) a s.limiter.request_window h,
  )

  cleaned_total :
      (weigh : ℕ → ℕ)
      → usage_from weigh 0 (cleaned s now) ≡ usage_from weigh (now - minute) s.grants
  cleaned_total weigh = omega (
    arith,
    tracks.recent weigh (now - minute) (omega arith),
    total-drop_expired weigh (now - minute) 0 s.limiter.request_window last tracks.ordered,
  )

  length-cleaned : length (cleaned s now) ≡ usage_from one (now - minute) s.grants
  length-cleaned = omega (arith, length_usage (cleaned s now), cleaned_total one)

  sum_tokens-cleaned : sum_tokens (cleaned s now) ≡ usage_from itself (now - minute) s.grants
  sum_tokens-cleaned = omega (arith, sum_tokens_usage (cleaned s now), cleaned_total itself)

  -- The window with a grant at `now` appended.
  granted_recent :
      (weigh : ℕ → ℕ) (tokens a : ℕ)
      → now - minute ≤ a
      → usage_from weigh a ((now, tokens) ∷ s.grants)
        ≡ usage_from weigh a (cleaned s now ++ (now, tokens) ∷ [])
  unfolding usage_from
  granted_recent weigh tokens a h = omega (
    arith,
    cleaned_recent weigh a h,
    usage_from-append weigh a (cleaned s now) ((now, tokens) ∷ []),
  )

  -- An attempt is granted exactly when the grants of the last minute leave room for it.
  pub step_grants :
      (tokens : ℕ)
      → (step s tokens now).grants
        ≡ (if admits r k s.grants tokens now then (now, tokens) ∷ s.grants else s.grants)
  unfolding step try_acquire try_locked admits get_current_usage cleanup_window
  step_grants tokens = ground (arith, length-cleaned, sum_tokens-cleaned, tracks)

  abbrev with_window : Entries → ProviderRateLimiter
  with_window w = record (s.limiter) { request_window = w }

  -- An attempt leaves the limiter alone, cleans its window, or cleans it and appends a grant.
  step_cases :
      (tokens : ℕ)
      → (step s tokens now ≡ s)
        ⊎ (step s tokens now ≡ record s { limiter = with_window (cleaned s now) })
        ⊎ (step s tokens now ≡ record {
          limiter = with_window (cleaned s now ++ (now, tokens) ∷ []);
          grants = (now, tokens) ∷ s.grants;
        })
  unfolding step try_acquire try_locked get_current_usage cleanup_window
  step_cases tokens =
      ground (arith, append_bounded_lem s.limiter.max_requests (cleaned s now) (now, tokens))

  -- Every attempt keeps the window in step with the log.
  pub step-Tracks : (tokens : ℕ) → Tracks r k now (step s tokens now)
  step-Tracks tokens = elim (step_cases tokens) [
    | inl same ↦ rw same (record {
      requests_fixed = tracks.requests_fixed;
      tokens_fixed = tracks.tokens_fixed;
      ordered = Ordered-later 0 s.limiter.request_window last now later tracks.ordered;
      recent = λ weigh a h. tracks.recent weigh a (omega arith);
    })
    | inr (inl refused) ↦ rw refused (record {
      requests_fixed = tracks.requests_fixed;
      tokens_fixed = tracks.tokens_fixed;
      ordered = cleaned-Ordered;
      recent = cleaned_recent;
    })
    | inr (inr granted) ↦ rw granted (record {
      requests_fixed = tracks.requests_fixed;
      tokens_fixed = tracks.tokens_fixed;
      ordered = Ordered-append 0 (cleaned s now) now tokens cleaned-Ordered;
      recent = λ weigh. granted_recent weigh tokens;
    })
  ]
