-- ===== src/Health/Silent.antt =====
-- The breakers of `HealthCheckManager` while no check function raises.
use omnimemory.Prelude.{
  ℕ, ◌≡◌, refl, sym, ap, ◌∙◌, true, Option, none, some, List, [], ◌∷◌, inl, inr,
}
use mathlib.Core.Path.{subst}
use omnimemory.Prelude.Equality.{eq_ℕ}
use omnimemory.Prelude.Dict.{Dict, lookup, lookup-insert-some}
use omnimemory.Breaker.{
  AsyncCircuitBreaker, CallResult, ended, rejected, CircuitState, open_circuit, half_open,
  is_closed, closed, returned, call, admit, on_success, record_outcome,
}
use omnimemory.Health.{HealthCheckConfig, HealthCheckResult}
use omnimemory.Health.Checks.{
  HealthCheckManager, Check, returns, check_single_dependency, configured, guarded, called,
  not_registered,
}

-- A check of a name whose function returns.
pub record Answered : Type 0 where
  pub name : ℕ
  pub draw : ℕ
  pub now : ℕ
  pub later : ℕ
  pub result : HealthCheckResult

abbrev pub check_of : Answered → Check
check_of a = record { draw = a.draw; now = a.now; later = a.later; ended_by = returns a.result }

unfoldable pub check_each :
    HealthCheckManager → List Answered → HealthCheckManager × List HealthCheckResult
unfolding check_single_dependency
check_each m [] = (m, [])
check_each m (a ∷ answered) =
    let s = check_single_dependency m a.name (check_of a) in
    let rest = check_each s.0 answered in (rest.0, s.1 ∷ rest.1)

-- The answers alone.
abbrev pub answer : Dict ℕ HealthCheckConfig → Answered → HealthCheckResult
answer configs a = elim (lookup a.name configs) [
  | none ↦ not_registered a.name
  | some config ↦ a.result
]

abbrev pub answers : Dict ℕ HealthCheckConfig → List Answered → List HealthCheckResult
answers configs [] = []
answers configs (a ∷ answered) = answer configs a ∷ answers configs answered

abbrev pub AllClosed : HealthCheckManager → Type 0
AllClosed m =
    (name : ℕ) (b : AsyncCircuitBreaker)
    → lookup name m.circuit_breakers ≡ some b
    → is_closed b.state ≡ true

Quiet : AsyncCircuitBreaker × CallResult → Type 0
Quiet p = (is_closed p.0.state ≡ true) × (p.1 ≡ ended returned)

state_closed : (s : CircuitState) → is_closed s ≡ true → s ≡ closed
state_closed closed shut = refl
state_closed open_circuit shut = cc
state_closed half_open shut = cc

call-Quiet :
    (b : AsyncCircuitBreaker) (draw now later : ℕ)
    → is_closed b.state ≡ true
    → Quiet (call b draw now returned later)
unfolding call admit record_outcome on_success Quiet
call-Quiet b draw now later shut =
    subst (λ s. Quiet (call (record b { state = s }) draw now returned later))
      (sym (state_closed b.state shut)) (refl, refl)

-- What a check leaves: the breakers closed, the configurations as they were, and the answer.
abbrev Silent :
    HealthCheckManager → HealthCheckResult → HealthCheckManager × HealthCheckResult → Type 0
Silent m r p = AllClosed p.0 × ((p.0).configs ≡ m.configs) × (p.1 ≡ r)

called-Silent :
    (m : HealthCheckManager) (name : ℕ) (config : HealthCheckConfig) (a : Answered)
    (p : AsyncCircuitBreaker × CallResult)
    → Quiet p
    → AllClosed m
    → Silent m a.result (called m name config (check_of a) p)
unfolding called Quiet
called-Silent m name config a (b, ended o) (shut, e) closed_all = (
  λ other x found. elim (lookup-insert-some name other b x m.circuit_breakers found) [
    | inl (same, is_b) ↦ ap (λ y. is_closed y.state) is_b ∙ shut
    | inr before ↦ closed_all other x before
  ],
  refl,
  refl,
)
called-Silent m name config a (b, rejected) (shut, e) closed_all = cc

guarded-Silent :
    (m : HealthCheckManager) (name : ℕ) (config : HealthCheckConfig) (a : Answered)
    (looked : Option AsyncCircuitBreaker)
    → lookup name m.circuit_breakers ≡ looked
    → AllClosed m
    → Silent m a.result (guarded m name config (check_of a) looked)
unfolding guarded
guarded-Silent m name config a none found closed_all = (closed_all, refl, refl)
guarded-Silent m name config a (some b) found closed_all =
    called-Silent m name config a (call b a.draw a.now returned a.later)
      (call-Quiet b a.draw a.now a.later (closed_all name b found)) closed_all

configured-Silent :
    (m : HealthCheckManager) (a : Answered) (looked : Option HealthCheckConfig)
    → lookup a.name m.configs ≡ looked
    → AllClosed m
    → Silent m (answer m.configs a) (configured m a.name (check_of a) looked)
unfolding configured
configured-Silent m a none found closed_all = (closed_all, refl, rw (found, answer) refl)
configured-Silent m a (some config) found closed_all =
    let s = guarded-Silent m a.name config a (lookup a.name m.circuit_breakers) refl closed_all in
    (s.0, s.1, s.2 ∙ rw (found, answer) refl)

-- While the check functions return, whatever status they return, the breakers that are closed stay
-- closed, however often a dependency is found unhealthy, and each answer is the function's
-- own, or UNKNOWN for a name that is not registered.
pub answers_never_open :
    (m : HealthCheckManager) (answered : List Answered)
    → AllClosed m
    → AllClosed (check_each m answered).0 × ((check_each m answered).1 ≡ answers m.configs answered)
unfolding check_each check_single_dependency
answers_never_open m [] closed_all = (closed_all, refl)
answers_never_open m (a ∷ answered) closed_all =
    let now = configured-Silent m a (lookup a.name m.configs) refl closed_all in
    let later =
      answers_never_open (check_single_dependency m a.name (check_of a)).0 answered now.0 in
    (
      later.0,
      ap (λ x. x ∷ (check_each (check_single_dependency m a.name (check_of a)).0 answered).1) now.2
          ∙ ap (λ xs. answer m.configs a ∷ xs) (later.1 ∙ ap (λ c. answers c answered) now.1),
    )
