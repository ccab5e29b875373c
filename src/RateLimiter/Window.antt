-- ===== src/RateLimiter/Window.antt =====
-- The sliding window: what the cleanup keeps, and how much of it lies in a span of time.
use omnimemory.Prelude.{
  ℕ, ◌+◌, ◌*◌, ◌≤◌, ◌<◌, ◌≡◌, refl, ◌&&◌, [], ◌∷◌, ◌++◌, leb, length, length-append, if◌then◌else◌,
  arith,
}
use omnimemory.RateLimiter.{Entries, drop_expired, sum_tokens, append_bounded}

-- The weight of the entries from instant `a` on, and of those between `a` and `b`.
module _ (weigh : ℕ → ℕ) where
  unfoldable pub usage_from : ℕ → Entries → ℕ
  usage_from a [] = 0
  usage_from a ((t, n) ∷ w) = (if leb a t then weigh n else 0) + usage_from a w

  unfoldable pub usage_between : ℕ → ℕ → Entries → ℕ
  usage_between a b [] = 0
  usage_between a b ((t, n) ∷ w) = (if leb a t && leb t b then weigh n else 0) + usage_between a b w

  pub usage_between-le : (a b : ℕ) (w : Entries) → usage_between a b w ≤ usage_from a w
  unfolding usage_from usage_between
  usage_between-le a b [] = omega arith
  usage_between-le a b ((t, n) ∷ w) = ground (arith, usage_between-le a b w)

  pub usage_from-append :
      (a : ℕ) (v w : Entries) → usage_from a (v ++ w) ≡ usage_from a v + usage_from a w
  unfolding usage_from
  usage_from-append a [] w = omega arith
  usage_from-append a ((t, n) ∷ v) w = omega (arith, usage_from-append a v w)

  pub usage_from_mono : (a b : ℕ) (w : Entries) → a ≤ b → usage_from b w ≤ usage_from a w
  unfolding usage_from
  usage_from_mono a b [] h = omega arith
  usage_from_mono a b ((t, n) ∷ w) h = ground (arith, usage_from_mono a b w h)

  -- What the cleanup drops lies before its cutoff.
  pub usage_from-drop_expired :
      (cutoff a : ℕ) (w : Entries)
      → cutoff ≤ a
      → usage_from a (drop_expired cutoff w) ≡ usage_from a w
  unfolding usage_from drop_expired
  usage_from-drop_expired cutoff a [] h = refl
  usage_from-drop_expired cutoff a ((t, n) ∷ w) h =
      ground (arith, usage_from-drop_expired cutoff a w h)

-- Timestamps from `lo` to `hi`, in order.
abbrev pub Ordered : ℕ → Entries → ℕ → Type 0
Ordered lo [] hi = lo ≤ hi
Ordered lo ((t, n) ∷ w) hi = (lo ≤ t) × Ordered t w hi

pub Ordered-le : (lo : ℕ) (w : Entries) (hi : ℕ) → Ordered lo w hi → lo ≤ hi
Ordered-le lo [] hi h = h
Ordered-le lo ((t, n) ∷ w) hi h = omega (arith, Ordered-le t w hi h.1)

pub Ordered-later :
    (lo : ℕ) (w : Entries) (hi now : ℕ) → hi ≤ now → Ordered lo w hi → Ordered lo w now
Ordered-later lo [] hi now h o = omega arith
Ordered-later lo ((t, n) ∷ w) hi now h o = (o.0, Ordered-later t w hi now h o.1)

pub Ordered-earlier :
    (lo low : ℕ) (w : Entries) (hi : ℕ) → low ≤ lo → Ordered lo w hi → Ordered low w hi
Ordered-earlier lo low [] hi h o = omega arith
Ordered-earlier lo low ((t, n) ∷ w) hi h o = (omega arith, o.1)

pub Ordered-append :
    (lo : ℕ) (w : Entries) (hi n : ℕ) → Ordered lo w hi → Ordered lo (w ++ (hi, n) ∷ []) hi
Ordered-append lo [] hi n o = (o, omega arith)
Ordered-append lo ((t, m) ∷ w) hi n o = (o.0, Ordered-append t w hi n o.1)

pub Ordered-drop_expired :
    (cutoff lo : ℕ) (w : Entries) (hi : ℕ) → Ordered lo w hi → Ordered lo (drop_expired cutoff w) hi
unfolding drop_expired
Ordered-drop_expired cutoff lo [] hi o = o
Ordered-drop_expired cutoff lo ((t, n) ∷ w) hi o =
    ground (arith, Ordered-drop_expired cutoff lo w hi, Ordered-earlier t lo w hi o.0 o.1)

module _ (weigh : ℕ → ℕ) where
  -- An ordered window that begins at `a` or later lies in the span from `a` on.
  pub usage_from_start :
      (a lo : ℕ) (w : Entries) (hi : ℕ)
      → a ≤ lo
      → Ordered lo w hi
      → usage_from weigh a w ≡ usage_from weigh 0 w
  unfolding usage_from
  usage_from_start a lo [] hi h o = refl
  usage_from_start a lo ((t, n) ∷ w) hi h o =
      ground (arith, usage_from_start a t w hi (omega arith) o.1)

  -- After the cleanup the whole window counts, and it is what an ordered window held from the
  -- cutoff on.
  pub total-drop_expired :
      (cutoff lo : ℕ) (w : Entries) (hi : ℕ)
      → Ordered lo w hi
      → usage_from weigh 0 (drop_expired cutoff w) ≡ usage_from weigh cutoff w
  unfolding usage_from drop_expired
  total-drop_expired cutoff lo [] hi o = refl
  total-drop_expired cutoff lo ((t, n) ∷ w) hi o =
      ground (arith, total-drop_expired cutoff t w hi o.1, usage_from_start cutoff t w hi)

abbrev pub one : ℕ → ℕ
one n = 1

abbrev pub itself : ℕ → ℕ
itself n = n

pub length_usage : (w : Entries) → usage_from one 0 w ≡ length w
unfolding usage_from
length_usage [] = refl
length_usage ((t, n) ∷ w) = ground (arith, length_usage w)

pub sum_tokens_usage : (w : Entries) → usage_from itself 0 w ≡ sum_tokens w
unfolding usage_from sum_tokens
sum_tokens_usage [] = refl
sum_tokens_usage ((t, n) ∷ w) = ground (arith, sum_tokens_usage w)

-- The deque's own ceiling is never reached: a window below the limit takes the entry whole.
pub append_bounded_lem :
    (limit : ℕ) (w : Entries) (e : ℕ × ℕ)
    → length w < limit
    → append_bounded (limit * 2) w e ≡ w ++ e ∷ []
unfolding append_bounded
append_bounded_lem limit w e h = ground (arith, length-append w (e ∷ []))
