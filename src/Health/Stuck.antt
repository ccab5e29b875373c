-- ===== src/Health/Stuck.antt =====
-- A breaker of `HealthManager` that is open.
use omnimemory.Prelude.{
  ℕ, ◌≡◌, ◌≢◌, refl, sym, ap, ◌∙◌, Bool, true, false, Option, none, some, List, [], ◌∷◌, ◌++◌,
  length, leb, if◌then◌else◌, Option-cases, inl, inr,
}
use omnimemory.Prelude.Equality.{eq_ℕ}
use omnimemory.Prelude.Dict.{lookup, lookup-insert_ne}
use omnimemory.Breaker.{is_open}
use omnimemory.Breaker.Simple.{CircuitBreaker, record_success, record_failure}
use omnimemory.Health.{HealthStatus, rate_limited, circuit_open, recent}
use omnimemory.Health.Resources.{
  HealthManager, Ended, returns, times_out, raises, Check, holds, tell_breaker, attempt, registered,
  gate, limited, count_check, check_resource_health, check_multiple_resources,
}

-- The function is not run.
abbrev pub is_refused : HealthStatus → Bool
is_refused rate_limited = true
is_refused circuit_open = true
is_refused s = false

-- Every check of a name is refused.
abbrev pub Refuses : ℕ → List Check → List HealthStatus → Type 0
Refuses name (c ∷ checks) (s ∷ statuses) =
    (c.name ≡ name → is_refused s ≡ true) × Refuses name checks statuses
Refuses name checks statuses = Unit

module _ (name : ℕ) (b : CircuitBreaker) (stuck : is_open b.state ≡ true) where
  tell_breaker-lookup :
      (m : HealthManager) (other : ℕ) (change : CircuitBreaker → CircuitBreaker)
      → other ≢ name
      → lookup name m.circuit_breakers ≡ some b
      → lookup name (tell_breaker m other change).circuit_breakers ≡ some b
  tell_breaker-lookup m other change differs found =
      elim (Option-cases (lookup other m.circuit_breakers)) [
        | inl gone ↦ rw (gone, tell_breaker) found
        | inr (x, there) ↦
            rw (there, tell_breaker)
              (lookup-insert_ne other name (change x) m.circuit_breakers differs ∙ found)
      ]

  attempt-lookup :
      (m : HealthManager) (other later : ℕ) (e : Ended)
      → other ≢ name
      → lookup name m.circuit_breakers ≡ some b
      → lookup name (attempt m other later e).0.circuit_breakers ≡ some b
  unfolding attempt
  attempt-lookup m other later returns differs found =
      tell_breaker-lookup m other (λ x. record_success x later) differs found
  attempt-lookup m other later times_out differs found = found
  attempt-lookup m other later raises differs found =
      tell_breaker-lookup m other (λ x. record_failure x later) differs found

  -- The breaker is as it was, and a check of the name is refused.
  abbrev Kept : Check → HealthManager × HealthStatus → Type 0
  Kept c p = (lookup name p.0.circuit_breakers ≡ some b) × (c.name ≡ name → is_refused p.1 ≡ true)

  pick-Kept :
      (c : Check) (test : Bool) (p q : HealthManager × HealthStatus)
      → (test ≡ true → Kept c p)
      → (test ≡ false → Kept c q)
      → Kept c (if test then p else q)
  pick-Kept c true p q hp hq = hp refl
  pick-Kept c false p q hp hq = hq refl

  registered-Kept :
      (m : HealthManager) (c : Check)
      → c.name ≢ name
      → lookup name m.circuit_breakers ≡ some b
      → Kept c (registered m c)
  unfolding registered
  registered-Kept m c differs found =
      pick-Kept c (holds c.name m.health_checks) _ _
        (λ e.
          (attempt-lookup m c.name c.later c.ended_by differs found, λ same. absurd (differs same)))
        (λ e. (found, λ same. absurd (differs same)))

  gate-Kept :
      (m : HealthManager) (c : Check) (looked : Option CircuitBreaker)
      → lookup c.name m.circuit_breakers ≡ looked
      → lookup name m.circuit_breakers ≡ some b
      → Kept c (gate m c looked)
  unfolding gate
  gate-Kept m c none gone found = registered-Kept m c (λ same. cc) found
  gate-Kept m c (some x) there found =
      pick-Kept c (is_open x.state) _ _ (λ e. (found, λ same. refl))
        (λ e.
          registered-Kept m c
            (λ same.
              (let both : some x ≡ some b =
                  sym there ∙ ap (λ k. lookup k m.circuit_breakers) same ∙ found in
                let b_open : is_open x.state ≡ true =
                  ap (λ o. elim o [ none ↦ false | some y ↦ is_open y.state ]) both ∙ stuck in
                cc))
            found)

  limited-Kept :
      (m : HealthManager) (c : Check) (looked : Option (List ℕ))
      → lookup name m.circuit_breakers ≡ some b
      → Kept c (limited m c looked)
  unfolding limited
  limited-Kept m c none found = gate-Kept m c (lookup c.name m.circuit_breakers) refl found
  limited-Kept m c (some times) found =
      let kept = recent m.rate_limit_window c.now times in
      pick-Kept c (leb m.max_checks_per_window (length kept)) _ _ (λ e. (found, λ same. refl))
        (λ e.
          gate-Kept (count_check m c.name (kept ++ (c.now ∷ []))) c
            (lookup c.name m.circuit_breakers) refl found)

  -- Where checks run one after another: once the breaker of a name is open, it stays as it is,
  -- and every later check of the name is refused without a run of the check function, however
  -- much later it comes.
  pub open_stays :
      (m : HealthManager) (checks : List Check)
      → lookup name m.circuit_breakers ≡ some b
      → (lookup name (check_multiple_resources m checks).0.circuit_breakers ≡ some b)
        × Refuses name checks (check_multiple_resources m checks).1
  unfolding check_multiple_resources check_resource_health
  open_stays m [] found = (found, tt)
  open_stays m (c ∷ checks) found =
      let now = limited-Kept m c (lookup c.name m.check_counts) found in
      let later = open_stays (check_resource_health m c).0 checks now.0 in
      (later.0, (now.1, later.1))
