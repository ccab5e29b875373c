-- ===== src/Health/Window.antt =====
-- The limiter of `rate_limited_health_check` over a history of requests, against the log of all
-- that it allowed.
use omnimemory.Prelude.{
  ℕ, ◌+◌, ◌≤◌, ◌<◌, ◌≡◌, refl, sym, ap, ◌∙◌, Bool, true, false, ◌&&◌, List, [], ◌∷◌, ◌++◌, length,
  ltb, leb, if◌then◌else◌, ◌==◌, filter, arith,
}
use mathlib.Core.Path.{subst}
use omnimemory.Prelude.Equality.{eq_ℕ}
use omnimemory.Prelude.Dict.{Dict, insert, lookup-insert}
use omnimemory.Health.{RateLimiter, new_limiter, requests_of, recent, is_allowed}

-- The allowed requests (identifier, instant), the latest first.
abbrev pub Log : Type 0
Log = List (ℕ × ℕ)

abbrev pub times_of : ℕ → Log → List ℕ
times_of identifier [] = []
times_of identifier ((other, t) ∷ log) =
    if other == identifier then t ∷ times_of identifier log else times_of identifier log

abbrev pub logged : Log → ℕ → ℕ → Bool → Log
logged log identifier now allowed = if allowed then (identifier, now) ∷ log else log

unfoldable pub run : RateLimiter → Log → List (ℕ × ℕ) → RateLimiter × Log
run l log [] = (l, log)
run l log ((identifier, now) ∷ requests) =
    run (is_allowed l identifier now).0 (logged log identifier now (is_allowed l identifier now).1)
      requests

-- The log that the limit asks for: it looks at the log alone, and at no other identifier.
unfoldable pub run_by_log : ℕ → ℕ → Log → List (ℕ × ℕ) → Log
run_by_log max_requests window log [] = log
run_by_log max_requests window log ((identifier, now) ∷ requests) =
    run_by_log max_requests window
      (logged log identifier now
        (ltb (length (recent window now (times_of identifier log))) max_requests))
      requests

-- The clock does not run backwards.
abbrev pub InOrder : ℕ → List (ℕ × ℕ) → Type 0
InOrder last [] = Unit
InOrder last ((identifier, now) ∷ requests) = (last ≤ now) × InOrder now requests

length-recent_recent :
    (window now k : ℕ) (times : List ℕ)
    → now ≤ k
    → length (recent window k (recent window now times)) ≡ length (recent window k times)
length-recent_recent window now k [] order = refl
length-recent_recent window now k (t ∷ times) order =
    ground (arith, length-recent_recent window now k times)

length-recent-snoc :
    (window k t : ℕ) (times : List ℕ)
    → length (recent window k (times ++ (t ∷ [])))
      ≡ length (recent window k times) + (if ltb k (t + window) then 1 else 0)
length-recent-snoc window k t [] = ground arith
length-recent-snoc window k t (s ∷ times) = ground (arith, length-recent-snoc window k t times)

requests_of-insert :
    (key other : ℕ) (times : List ℕ) (requests : Dict ℕ (List ℕ))
    → requests_of other (insert key times requests)
      ≡ (if key == other then times else requests_of other requests)
requests_of-insert key other times requests = ground (arith, lookup-insert key other times requests)

-- From an instant on, the limiter's lists have as many recent requests as the log.
Tracks : ℕ → RateLimiter → Log → Type 0
Tracks last l log =
    (identifier k : ℕ)
    → last ≤ k
    → length (recent l.window_seconds k (requests_of identifier l.requests))
      ≡ length (recent l.window_seconds k (times_of identifier log))

refused_lists :
    (window now k key other : ℕ) (requests : Dict ℕ (List ℕ))
    → now ≤ k
    → length (
        recent window k
          (requests_of other (insert key (recent window now (requests_of key requests)) requests)))
      ≡ length (recent window k (requests_of other requests))
refused_lists window now k key other requests order = ground (
  arith,
  requests_of-insert key other (recent window now (requests_of key requests)) requests,
  length-recent_recent window now k (requests_of other requests),
)

allowed_lists :
    (window now k key other : ℕ) (requests : Dict ℕ (List ℕ))
    → now ≤ k
    → length (
        recent window k (
          requests_of other
            (insert key (recent window now (requests_of key requests) ++ (now ∷ [])) requests)))
      ≡ length (recent window k (requests_of other requests))
        + (if key == other && ltb k (now + window) then 1 else 0)
allowed_lists window now k key other requests order = ground (
  arith,
  requests_of-insert key other (recent window now (requests_of key requests) ++ (now ∷ []))
      requests,
  length-recent_recent window now k (requests_of other requests),
  length-recent-snoc window k now (recent window now (requests_of other requests)),
)

allowed_log :
    (window now k key other : ℕ) (log : Log)
    → length (recent window k (times_of other ((key, now) ∷ log)))
      ≡ length (recent window k (times_of other log))
        + (if key == other && ltb k (now + window) then 1 else 0)
allowed_log window now k key other log = ground arith

-- A decision of the limiter, and what it leaves.
Exact : ℕ → RateLimiter → Log → ℕ → ℕ → RateLimiter × Bool → Type 0
Exact last l log identifier now p =
    (p.1 ≡ ltb (length (recent l.window_seconds now (times_of identifier log))) l.max_requests)
    × (p.0.window_seconds ≡ l.window_seconds)
    × (p.0.max_requests ≡ l.max_requests)
    × Tracks now p.0 (logged log identifier now p.1)

pick-Exact :
    (last : ℕ) (l : RateLimiter) (log : Log) (identifier now : ℕ) (test : Bool)
    (p q : RateLimiter × Bool)
    → (test ≡ true → Exact last l log identifier now p)
    → (test ≡ false → Exact last l log identifier now q)
    → Exact last l log identifier now (if test then p else q)
pick-Exact last l log identifier now true p q hp hq = hp refl
pick-Exact last l log identifier now false p q hp hq = hq refl

is_allowed-Exact :
    (last : ℕ) (l : RateLimiter) (log : Log) (identifier now : ℕ)
    → last ≤ now
    → Tracks last l log
    → Exact last l log identifier now (is_allowed l identifier now)
unfolding is_allowed Exact Tracks
is_allowed-Exact last l log identifier now order tracks =
    let w = l.window_seconds in
    pick-Exact last l log identifier now
      (leb l.max_requests (length (recent w now (requests_of identifier l.requests)))) _ _
      (λ full. (
        ground (arith, tracks identifier now order),
        refl,
        refl,
        λ other k later.
            refused_lists w now k identifier other l.requests later ∙ tracks other k (omega arith),
      ))
      (λ room. (
        ground (arith, tracks identifier now order),
        refl,
        refl,
        λ other k later. omega (
          arith,
          allowed_lists w now k identifier other l.requests later,
          allowed_log w now k identifier other log,
          tracks other k,
        ),
      ))

run_by_log_from :
    (last : ℕ) (l : RateLimiter) (log : Log) (requests : List (ℕ × ℕ))
    → InOrder last requests
    → Tracks last l log
    → (run l log requests).1 ≡ run_by_log l.max_requests l.window_seconds log requests
unfolding run run_by_log Exact
run_by_log_from last l log [] order tracks = refl
run_by_log_from last l log ((identifier, now) ∷ requests) order tracks =
    let p = is_allowed l identifier now in
    let exact = is_allowed-Exact last l log identifier now order.0 tracks in
    run_by_log_from now p.0 (logged log identifier now p.1) requests order.1 exact.3
    ∙ ap (λ m. run_by_log m p.0.window_seconds (logged log identifier now p.1) requests) exact.2
    ∙ ap (λ w. run_by_log l.max_requests w (logged log identifier now p.1) requests) exact.1
    ∙ ap (λ b. run_by_log l.max_requests l.window_seconds (logged log identifier now b) requests)
        exact.0

-- The limiter allows exactly the requests that the log of what it allowed lets through, whatever
-- other identifiers do, in any history of requests at instants in order.
pub run_refines_log :
    (max_requests window : ℕ) (requests : List (ℕ × ℕ))
    → InOrder 0 requests
    → (run (new_limiter max_requests window) [] requests).1
      ≡ run_by_log max_requests window [] requests
unfolding new_limiter Tracks
run_refines_log max_requests window requests order =
    run_by_log_from 0 (new_limiter max_requests window) [] requests order
      (λ identifier k later. refl)

-- How many times stand in the window that begins at an instant.
abbrev pub granted_from : ℕ → ℕ → List ℕ → ℕ
granted_from a window times = length (filter (λ t. leb a t && ltb t (a + window)) times)

granted_from-recent :
    (a window now : ℕ) (times : List ℕ)
    → now < a + window
    → granted_from a window times ≤ length (recent window now times)
granted_from-recent a window now [] early = omega arith
granted_from-recent a window now (t ∷ times) early =
    ground (arith, granted_from-recent a window now times)

-- No window has more times of an identifier than the limit.
Spread : ℕ → ℕ → Log → Type 0
Spread max_requests window log =
    (identifier a : ℕ) → granted_from a window (times_of identifier log) ≤ max_requests

logged-Spread :
    (max_requests window : ℕ) (log : Log) (identifier now : ℕ) (allowed : Bool)
    → allowed ≡ ltb (length (recent window now (times_of identifier log))) max_requests
    → Spread max_requests window log
    → Spread max_requests window (logged log identifier now allowed)
unfolding Spread
logged-Spread max_requests window log identifier now false by_log spread = spread
logged-Spread max_requests window log identifier now true by_log spread =
    λ other a. ground (arith, spread other a, granted_from-recent a window now (times_of other log))

run_by_log-Spread :
    (max_requests window : ℕ) (log : Log) (requests : List (ℕ × ℕ))
    → Spread max_requests window log
    → Spread max_requests window (run_by_log max_requests window log requests)
unfolding run_by_log
run_by_log-Spread max_requests window log [] spread = spread
run_by_log-Spread max_requests window log ((identifier, now) ∷ requests) spread =
    let allowed = ltb (length (recent window now (times_of identifier log))) max_requests in
    run_by_log-Spread max_requests window (logged log identifier now allowed) requests
      (logged-Spread max_requests window log identifier now allowed refl spread)

-- In any history of requests at instants in order, no identifier is allowed more than
-- `max_requests` of them in any `window_seconds`, wherever that window begins.
pub run_within_window :
    (max_requests window identifier a : ℕ) (requests : List (ℕ × ℕ))
    → InOrder 0 requests
    → granted_from a window
        (times_of identifier (run (new_limiter max_requests window) [] requests).1)
      ≤ max_requests
unfolding Spread
run_within_window max_requests window identifier a requests order =
    subst (λ log. granted_from a window (times_of identifier log) ≤ max_requests)
      (sym (run_refines_log max_requests window requests order))
      (run_by_log-Spread max_requests window [] requests (λ other b. omega arith) identifier a)
