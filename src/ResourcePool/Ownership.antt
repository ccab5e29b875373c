-- ===== src/ResourcePool/Ownership.antt =====
-- No resource has two holders: what the pool promises its callers.
use omnimemory.Prelude.{
  ℕ, zero, suc, ◌+◌, ◌≤◌, ◌≡◌, Bool, Option, none, some, List, [], ◌∷◌, if◌then◌else◌, ◌==◌, arith,
}
use omnimemory.ResourcePool.{ResourceType, ResourcePool, new, add_created, fill, initialize}
use omnimemory.ResourcePool.Calls.{
  Call, acquires, releases, expires, step, run, held, held-acquire_round, held-release,
  held-check_expiration,
}

abbrev pub holders : ℕ → ResourcePool → ℕ
holders r = held (λ x. x == r)

-- Each resource is lent by one handle in use, or idle in the pool once, or neither.
abbrev pub Exclusive : ResourcePool → Type 0
Exclusive p = (r : ℕ) → holders r p ≤ 1

-- The factory makes an object that the pool does not hold yet.
abbrev pub IsFresh : ResourcePool → Option ℕ → Type 0
IsFresh p none = Unit {0}
IsFresh p (some r) = holders r p ≡ 0

abbrev pub FreshCall : ResourcePool → Call → Type 0
FreshCall p (acquires made now) = IsFresh p made
FreshCall p _ = Unit {0}

abbrev pub FreshRun : ResourcePool → List Call → Type 0
FreshRun p [] = Unit {0}
FreshRun p (c ∷ cs) = FreshCall p c × FreshRun (step p c) cs

acquires-Exclusive :
    (p : ResourcePool) (made : Option ℕ) (now r : ℕ)
    → IsFresh p made
    → Exclusive p
    → holders r (step p (acquires made now)) ≤ 1
unfolding step
acquires-Exclusive p none now r fresh ex =
    omega (arith, held-acquire_round (λ x. x == r) p none now, ex r)
acquires-Exclusive p (some a) now r fresh ex =
    ground (arith, held-acquire_round (λ x. x == r) p (some a) now, ex r)

pub step-Exclusive :
    (p : ResourcePool) (c : Call) → FreshCall p c → Exclusive p → Exclusive (step p c)
unfolding step
step-Exclusive p (acquires made now) fresh ex r = acquires-Exclusive p made now r fresh ex
step-Exclusive p (releases ref now answer) fresh ex r =
    omega (arith, held-release (λ x. x == r) p ref now answer, ex r)
step-Exclusive p (expires now) fresh ex r =
    omega (arith, held-check_expiration (λ x. x == r) p now, ex r)

run-Exclusive_from :
    (p : ResourcePool) (cs : List Call) → FreshRun p cs → Exclusive p → Exclusive (run p cs)
unfolding run
run-Exclusive_from p [] fresh ex = ex
run-Exclusive_from p (c ∷ cs) fresh ex =
    run-Exclusive_from (step p c) cs fresh.1 (step-Exclusive p c fresh.0 ex)

-- How often the factory's first answers are a resource that the test picks.
module _ (on : ℕ → Bool) where
  abbrev pub picked : Option ℕ → ℕ
  picked none = 0
  picked (some a) = if on a then 1 else 0

  abbrev pub answers : ℕ → (ℕ → Option ℕ) → ℕ
  answers zero factory = 0
  answers (suc n) factory = picked (factory n) + answers n factory

  held-add_created :
      (p : ResourcePool) (made : Option ℕ) (now : ℕ)
      → held on (add_created p made now) ≡ held on p + picked made
  held-add_created p none now = omega arith
  held-add_created p (some a) now = omega arith

  pub held-fill :
      (p : ResourcePool) (n : ℕ) (factory : ℕ → Option ℕ) (clock : ℕ → ℕ)
      → held on (fill p n factory clock) ≡ held on p + answers n factory
  unfolding fill
  held-fill p zero factory clock = omega arith
  held-fill p (suc n) factory clock = omega (
    arith,
    held-add_created p (factory n) (clock n),
    held-fill (add_created p (factory n) (clock n)) n factory clock,
  )

-- The factory's first `n` answers are different objects.
abbrev pub IsDistinct : ℕ → (ℕ → Option ℕ) → Type 0
IsDistinct n factory = (r : ℕ) → answers (λ x. x == r) n factory ≤ 1

initialize-Exclusive :
    (t : ResourceType) (min_size max_size : ℕ) (ttl : Option ℕ) (factory : ℕ → Option ℕ)
    (clock : ℕ → ℕ)
    → IsDistinct min_size factory
    → Exclusive (initialize (new t min_size max_size ttl) factory clock)
unfolding initialize new
initialize-Exclusive t min_size max_size ttl factory clock distinct r = omega (
  arith,
  held-fill (λ x. x == r) (new t min_size max_size ttl) min_size factory clock,
  distinct r,
)

-- If the factory makes new objects, then after any calls of an initialized pool no resource is
-- lent by two handles in use, or idle while it is lent, or idle twice. Releases of the same
-- handle again, and of handles whose resource has gone to somebody else, are among the calls.
pub run-Exclusive :
    (t : ResourceType) (min_size max_size : ℕ) (ttl : Option ℕ) (factory : ℕ → Option ℕ)
    (clock : ℕ → ℕ) (cs : List Call)
    → IsDistinct min_size factory
    → FreshRun (initialize (new t min_size max_size ttl) factory clock) cs
    → Exclusive (run (initialize (new t min_size max_size ttl) factory clock) cs)
run-Exclusive t min_size max_size ttl factory clock cs distinct fresh =
    run-Exclusive_from _ cs fresh
      (initialize-Exclusive t min_size max_size ttl factory clock distinct)
