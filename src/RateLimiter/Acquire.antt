-- ===== src/RateLimiter/Acquire.antt =====
-- The blocking `acquire`: when it raises, and that it ends with a grant.
use omnimemory.Prelude.{
  Result, ok, err, ℕ, zero, suc, ◌+◌, ◌-◌, ◌≤◌, ◌<◌, ◌≡◌, ◌≢◌, refl, sym, ◌∙◌, ◌↔◌, ◌⊎◌, inl, inr,
  Bool, true, false, Option, some, [], ◌∷◌, min, arith,
}
use omnimemory.RateLimiter.{
  ProviderRateLimiter, Entries, Env, Error, tokens_below_one, tokens_above_maximum, minute,
  drop_expired, cleanup_window, get_current_usage, try_locked, try_acquire, get_reset_time,
  acquire_loop, acquire,
}
use omnimemory.RateLimiter.Window.{Ordered, Ordered-le, Ordered-drop_expired}

-- What a request for tokens runs into before any wait.
abbrev pub Rejected : ProviderRateLimiter → ℕ → Error → Type 0
Rejected l tokens e =
    ((tokens ≡ 0) × (e ≡ tokens_below_one tokens))
    ⊎ ((0 < l.max_tokens)
        × (l.max_tokens < tokens)
        × (e ≡ tokens_above_maximum tokens l.max_tokens))

try_acquire-ne-err :
    (l : ProviderRateLimiter) (tokens now : ℕ) (e : Error)
    → 0 < tokens
    → try_acquire l tokens now ≢ err e
unfolding try_acquire
try_acquire-ne-err l tokens now e h r = ground arith

-- With a token to ask for, an attempt answers yes or no.
try_acquire_answers :
    (l : ProviderRateLimiter) (tokens now : ℕ)
    → 0 < tokens
    → ((l' : ProviderRateLimiter) × (try_acquire l tokens now ≡ ok (l', true)))
      ⊎ ((l' : ProviderRateLimiter) × (try_acquire l tokens now ≡ ok (l', false)))
try_acquire_answers l tokens now h = go (try_acquire l tokens now) refl
  where
    go :
        (r : Result Error (ProviderRateLimiter × Bool))
        → try_acquire l tokens now ≡ r
        → ((l' : ProviderRateLimiter) × (try_acquire l tokens now ≡ ok (l', true)))
          ⊎ ((l' : ProviderRateLimiter) × (try_acquire l tokens now ≡ ok (l', false)))
    go (ok (l', true)) e = inl (l', e)
    go (ok (l', false)) e = inr (l', e)
    go (err x) e = absurd (try_acquire-ne-err l tokens now x h e)

-- The state of the loop after a refused round: what `try_acquire` left, and when to try again.
abbrev wait_time : Env → ProviderRateLimiter → ℕ → ℕ → ℕ
wait_time env l' backoff now = min (get_reset_time l' (env.read_after now)) backoff

abbrev next_try : Env → ProviderRateLimiter → ℕ → ℕ → ℕ
next_try env l' backoff now = env.wake (env.read_after now) (wait_time env l' backoff now)

module _ (env : Env) (fuel : ℕ) (l l' : ProviderRateLimiter) (tokens backoff now : ℕ) where
  loop_granted :
      try_acquire l tokens now ≡ ok (l', true)
      → acquire_loop env (suc fuel) l tokens backoff now ≡ some (ok (l', now))
  unfolding acquire_loop
  loop_granted e = rw (e, acquire_loop)

  loop_refused :
      try_acquire l tokens now ≡ ok (l', false)
      → acquire_loop env (suc fuel) l tokens backoff now
        ≡ acquire_loop env fuel
            (env.others (next_try env l' backoff now) l')
            tokens
            (min (l.config.backoff_multiplier.times backoff) l.config.max_backoff)
            (next_try env l' backoff now)
  unfolding acquire_loop
  loop_refused e = rw (e, acquire_loop)

acquire_loop-ne-err :
    (env : Env) (fuel : ℕ) (l : ProviderRateLimiter) (tokens backoff now : ℕ) (e : Error)
    → 0 < tokens
    → acquire_loop env fuel l tokens backoff now ≢ some (err e)
unfolding acquire_loop
acquire_loop-ne-err env zero l tokens backoff now e h r = cc
acquire_loop-ne-err env (suc fuel) l tokens backoff now e h r =
    elim (try_acquire_answers l tokens now h) [
      | inl (l', granted) ↦ cc (loop_granted env fuel l l' tokens backoff now granted)
      | inr (l', refused) ↦
          acquire_loop-ne-err env fuel (env.others (next_try env l' backoff now) l') tokens
            (min (l.config.backoff_multiplier.times backoff) l.config.max_backoff)
            (next_try env l' backoff now) e h
            (sym (loop_refused env fuel l l' tokens backoff now refused) ∙ r)
    ]

-- `acquire` raises exactly on a request for no tokens, or for more than the limit on tokens can
-- ever give; no wait, and nothing that other tasks do, makes it raise.
pub acquire_raises :
    (env : Env) (fuel : ℕ) (l : ProviderRateLimiter) (tokens now : ℕ) (e : Error)
    → (acquire env fuel l tokens now ≡ some (err e)) ↔ Rejected l tokens e
unfolding acquire
acquire_raises env fuel l tokens now e = (
  ground (arith, acquire_loop-ne-err env fuel l tokens l.config.initial_backoff now e),
  ground arith,
)

-- An environment where no other task touches the limiter and each sleep takes some time.
pub record IsSolo (env : Env) : Type 0 where
  pub reads_later : (now : ℕ) → now ≤ env.read_after now
  pub sleeps : (now wait : ℕ) → now < env.wake now wait
  pub undisturbed : (now : ℕ) (l : ProviderRateLimiter) → env.others now l ≡ l

-- Room for a request in an empty window.
pub record Fits (l : ProviderRateLimiter) (tokens : ℕ) : Type 0 where
  pub some_request : 0 < l.max_requests
  pub some_token : 0 < tokens
  pub tokens_fit : (l.max_tokens ≡ 0) ⊎ (tokens ≤ l.max_tokens)

drop_expired_all :
    (cutoff lo : ℕ) (w : Entries) (hi : ℕ)
    → Ordered lo w hi
    → hi < cutoff
    → drop_expired cutoff w ≡ []
unfolding drop_expired
drop_expired_all cutoff lo [] hi o h = refl
drop_expired_all cutoff lo ((t, n) ∷ w) hi o h =
    ground (arith, drop_expired_all cutoff t w hi o.1, Ordered-le t w hi o.1)

-- A refused attempt leaves the limits alone and the window ordered, and comes too early for the
-- whole window to have expired.
refused_round :
    (l l' : ProviderRateLimiter) (tokens now hi : ℕ)
    → Fits l tokens
    → Ordered 0 l.request_window hi
    → try_acquire l tokens now ≡ ok (l', false)
    → Fits l' tokens × Ordered 0 l'.request_window hi × (now ≤ hi + minute)
unfolding try_acquire try_locked get_current_usage cleanup_window
refused_round l l' tokens now hi fits o e = ground (
  arith,
  Ordered-drop_expired (now - minute) 0 l.request_window hi o,
  drop_expired_all (now - minute) 0 l.request_window hi o,
)

-- The request is granted at `t`, not before `now`, by an attempt on some limiter.
abbrev pub GrantedBy : ℕ → ℕ → Option (Result Error (ProviderRateLimiter × ℕ)) → Type 0
GrantedBy tokens now r =
    (l l' : ProviderRateLimiter) × (t : ℕ) × (r ≡ some (ok (l', t)))
    × (try_acquire l tokens t ≡ ok (l', true))
    × (now ≤ t)

module _ (env : Env) (solo : IsSolo env) (tokens : ℕ) where
  acquire_loop_grants :
      (fuel : ℕ) (l : ProviderRateLimiter) (backoff now hi : ℕ)
      → Fits l tokens
      → Ordered 0 l.request_window hi
      → hi + minute < now + fuel
      → GrantedBy tokens now (acquire_loop env (suc fuel) l tokens backoff now)
  acquire_loop_grants zero l backoff now hi fits o enough =
      elim (try_acquire_answers l tokens now fits.some_token) [
        | inl (l', granted) ↦ (
          l,
          l',
          now,
          loop_granted env zero l l' tokens backoff now granted,
          granted,
          omega arith,
        )
        | inr (l', refused) ↦
            absurd (omega (arith, (refused_round l l' tokens now hi fits o refused).2))
      ]
  acquire_loop_grants (suc fuel) l backoff now hi fits o enough =
      elim (try_acquire_answers l tokens now fits.some_token) [
        | inl (l', granted) ↦ (
          l,
          l',
          now,
          loop_granted env (suc fuel) l l' tokens backoff now granted,
          granted,
          omega arith,
        )
        | inr (l', refused) ↦
            let (fits', o', early) = refused_round l l' tokens now hi fits o refused in
            let later : now < next_try env l' backoff now = omega (
              arith,
              solo.reads_later now,
              solo.sleeps (env.read_after now) (wait_time env l' backoff now),
            ) in
            let (m, m', t, e, granted, after) =
              acquire_loop_grants fuel l'
                (min (l.config.backoff_multiplier.times backoff) l.config.max_backoff)
                (next_try env l' backoff now) hi fits' o' (omega arith) in
            (
              m,
              m',
              t,
              rw (loop_refused env (suc fuel) l l' tokens backoff now refused, solo.undisturbed) e,
              granted,
              omega arith,
            )
      ]

  acquire_enters_loop :
      (fuel : ℕ) (l : ProviderRateLimiter) (now : ℕ)
      → Fits l tokens
      → acquire env fuel l tokens now ≡ acquire_loop env fuel l tokens l.config.initial_backoff now
  unfolding acquire
  acquire_enters_loop fuel l now fits = ground arith

  -- With no other task at the limiter, and sleeps that take some time each, a request for a
  -- positive number of tokens within the limit is granted after one round for each microsecond,
  -- at most, until a minute has passed since the newest entry of a window in order: `acquire`
  -- returns, and it does so by a successful attempt.
  pub acquire_returns :
      (fuel : ℕ) (l : ProviderRateLimiter) (now hi : ℕ)
      → Fits l tokens
      → Ordered 0 l.request_window hi
      → hi + minute < now + fuel
      → GrantedBy tokens now (acquire env (suc fuel) l tokens now)
  acquire_returns fuel l now hi fits o enough =
      rw (acquire_enters_loop (suc fuel) l now fits)
        (acquire_loop_grants fuel l l.config.initial_backoff now hi fits o enough)
