-- ===== src/Health/Overall.antt =====
-- The overall status, of both managers, against the levels of the statuses.
use omnimemory.Prelude.{
  ℕ, ◌+◌, ◌*◌, ◌≤◌, ◌<◌, ◌≡◌, refl, sym, ◌∙◌, ◌↔◌, Bool, true, false, not, ◌&&◌, ◌||◌, List, [],
  ◌∷◌, length, ltb, if◌then◌else◌, filter, is_nonempty, max, arith, Bool-cases, inl, inr,
}
use mathlib.Core.Path.{subst}
use omnimemory.Health.{
  HealthStatus, healthy, degraded, unhealthy, unknown, timeout, rate_limited, circuit_open,
  is_healthy, is_unhealthy, is_degraded, HealthCheckResult, calculate_overall_status,
}
use omnimemory.Health.Resources.{
  HealthManager, Check, all_healthy, any_status, overall_status, get_system_health,
  check_multiple_resources, checks_of,
}

-- How bad a status is, by `unhealthy_statuses` and `degraded_statuses`.
abbrev pub level : HealthStatus → ℕ
level s = if is_unhealthy s then 2 else if is_degraded s then 1 else 0

-- A failed check: its status is neither HEALTHY nor one of the two of reduced service.
abbrev pub is_down : HealthStatus → Bool
is_down healthy = false
is_down degraded = false
is_down rate_limited = false
is_down s = true

-- A check that found reduced service.
abbrev pub is_reduced : HealthStatus → Bool
is_reduced degraded = true
is_reduced rate_limited = true
is_reduced s = false

-- How many results pass a test.
abbrev pub tally : (HealthCheckResult → Bool) → List HealthCheckResult → ℕ
tally test [] = 0
tally test (r ∷ rs) = (if test r then 1 else 0) + tally test rs

abbrev pub critical_failed : List HealthCheckResult → ℕ
critical_failed = tally (λ r. r.config.critical && is_down r.status)

abbrev pub critical_reduced : List HealthCheckResult → ℕ
critical_reduced = tally (λ r. r.config.critical && is_reduced r.status)

abbrev pub others : List HealthCheckResult → ℕ
others = tally (λ r. not r.config.critical)

abbrev pub others_failed : List HealthCheckResult → ℕ
others_failed = tally (λ r. not r.config.critical && is_down r.status)

-- The overall status that the docstring gives to some results, a case for each rule.
pub data Rules (rs : List HealthCheckResult) : HealthStatus → Type 0 where
  no_results : rs ≡ [] → Rules rs unknown
  critical_down : 0 < critical_failed rs → Rules rs unhealthy
  critical_weak : critical_failed rs ≡ 0 → 0 < critical_reduced rs → Rules rs degraded
  majority_down :
      critical_failed rs ≡ 0
      → critical_reduced rs ≡ 0
      → others rs < 2 * others_failed rs
      → Rules rs degraded
  well :
      ¬ rs ≡ []
      → critical_failed rs ≡ 0
      → critical_reduced rs ≡ 0
      → 2 * others_failed rs ≤ others rs
      → Rules rs healthy

is_unhealthy-is_down : (s : HealthStatus) → is_unhealthy s ≡ is_down s
is_unhealthy-is_down healthy = refl
is_unhealthy-is_down degraded = refl
is_unhealthy-is_down unhealthy = refl
is_unhealthy-is_down unknown = refl
is_unhealthy-is_down timeout = refl
is_unhealthy-is_down rate_limited = refl
is_unhealthy-is_down circuit_open = refl

is_degraded-is_reduced : (s : HealthStatus) → is_degraded s ≡ is_reduced s
is_degraded-is_reduced healthy = refl
is_degraded-is_reduced degraded = refl
is_degraded-is_reduced unhealthy = refl
is_degraded-is_reduced unknown = refl
is_degraded-is_reduced timeout = refl
is_degraded-is_reduced rate_limited = refl
is_degraded-is_reduced circuit_open = refl

is_nonempty-length {ℓ} : {A : Type ℓ} (xs : List A) → is_nonempty xs ≡ ltb 0 (length xs)
is_nonempty-length [] = refl
is_nonempty-length (x ∷ xs) = ground arith

length-filter :
    (test : HealthCheckResult → Bool) (rs : List HealthCheckResult)
    → length (filter test rs) ≡ tally test rs
length-filter test [] = refl
length-filter test (r ∷ rs) = ground (arith, length-filter test rs)

-- A test of the results that another one picks.
length-filter_picked :
    (picks test same : HealthCheckResult → Bool) (rs : List HealthCheckResult)
    → ((r : HealthCheckResult) → test r ≡ same r)
    → length (filter test (filter picks rs)) ≡ tally (λ r. picks r && same r) rs
length-filter_picked picks test same [] agree = refl
length-filter_picked picks test same (r ∷ rs) agree =
    ground (arith, agree r, length-filter_picked picks test same rs agree)

-- The overall status by the numbers alone.
graded : (critical_failed critical_reduced others others_failed : ℕ) → HealthStatus
graded c_failed c_reduced n n_failed =
    if ltb 0 c_failed
    then unhealthy
    else if ltb 0 c_reduced
    then degraded
    else if ltb 0 n && ltb n (2 * n_failed)
    then degraded
    else healthy

others_failed_le : (rs : List HealthCheckResult) → others_failed rs ≤ others rs
others_failed_le [] = omega arith
others_failed_le (r ∷ rs) = ground (arith, others_failed_le rs)

calculate_overall_status-graded :
    (r : HealthCheckResult) (results : List HealthCheckResult)
    → let rs = r ∷ results in
      calculate_overall_status rs
      ≡ graded (critical_failed rs) (critical_reduced rs) (others rs) (others_failed rs)
unfolding calculate_overall_status graded
calculate_overall_status-graded r results =
    let rs = r ∷ results in
    let critical = filter (λ x. x.config.critical) rs in
    let rest = filter (λ x. not x.config.critical) rs in
    rw
      (
        is_nonempty-length (filter (λ x. is_unhealthy x.status) critical),
        is_nonempty-length (filter (λ x. is_degraded x.status) critical),
        is_nonempty-length rest,
        length-filter_picked (λ x. x.config.critical) (λ x. is_unhealthy x.status)
            (λ x. is_down x.status) rs (λ x. is_unhealthy-is_down x.status),
        length-filter_picked (λ x. x.config.critical) (λ x. is_degraded x.status)
            (λ x. is_reduced x.status) rs (λ x. is_degraded-is_reduced x.status),
        length-filter_picked (λ x. not x.config.critical) (λ x. is_unhealthy x.status)
            (λ x. is_down x.status) rs (λ x. is_unhealthy-is_down x.status),
        length-filter (λ x. not x.config.critical) rs,
      )
      refl

graded-Rules :
    (rs : List HealthCheckResult)
    → ¬ rs ≡ []
    → Rules rs (graded (critical_failed rs) (critical_reduced rs) (others rs) (others_failed rs))
unfolding graded
graded-Rules rs some_results = elim (Bool-cases (ltb 0 (critical_failed rs))) [
  | inl down ↦ rw down (critical_down (ground arith))
  | inr up ↦ elim (Bool-cases (ltb 0 (critical_reduced rs))) [
    | inl weak ↦ rw (up, weak) (critical_weak (ground arith) (ground arith))
    | inr strong ↦ elim (Bool-cases (ltb 0 (others rs) && ltb (others rs) (2 * others_failed rs))) [
      | inl most ↦
          rw (up, strong, most) (majority_down (ground arith) (ground arith) (ground arith))
      | inr few ↦
          rw (up, strong, few)
            (well some_results (ground arith) (ground arith) (ground (arith, others_failed_le rs)))
    ]
  ]
]

no_results-status : (s : HealthStatus) → Rules [] s → s ≡ unknown
no_results-status s (no_results e) = refl
no_results-status s (critical_down h) = ground arith
no_results-status s (critical_weak h h') = ground arith
no_results-status s (majority_down h h' h'') = ground arith
no_results-status s (well h a b c) = absurd (h refl)

Rules-graded :
    (rs : List HealthCheckResult) (s : HealthStatus)
    → ¬ rs ≡ []
    → Rules rs s
    → s ≡ graded (critical_failed rs) (critical_reduced rs) (others rs) (others_failed rs)
unfolding graded
Rules-graded rs s some_results (no_results e) = absurd (some_results e)
Rules-graded rs s some_results (critical_down h) = ground arith
Rules-graded rs s some_results (critical_weak h h') = ground arith
Rules-graded rs s some_results (majority_down h h' h'') = ground (arith, others_failed_le rs)
Rules-graded rs s some_results (well h a b c) = ground arith

-- The overall status is exactly what these rules give: UNKNOWN without results; UNHEALTHY if a
-- critical check failed; else DEGRADED if a critical check found reduced service; else DEGRADED
-- if strictly more than half of the other checks failed; else HEALTHY. A check failed if its
-- status is neither HEALTHY nor DEGRADED nor RATE_LIMITED, and the last two are reduced service.
pub calculate_overall_status-Rules :
    (rs : List HealthCheckResult) (s : HealthStatus) → Rules rs s ↔ calculate_overall_status rs ≡ s
unfolding calculate_overall_status
calculate_overall_status-Rules [] s =
    (λ h. sym (no_results-status s h), λ e. subst (Rules []) e (no_results refl))
calculate_overall_status-Rules (r ∷ rs) s = (
  λ h. calculate_overall_status-graded r rs ∙ sym (Rules-graded (r ∷ rs) s (λ e. cc e) h),
  λ e.
      subst (Rules (r ∷ rs)) (sym (calculate_overall_status-graded r rs) ∙ e)
        (graded-Rules (r ∷ rs) (λ e. cc e)),
)

-- The level of the worst status.
abbrev pub worst : List HealthStatus → ℕ
worst [] = 0
worst (s ∷ statuses) = max (level s) (worst statuses)

healthy_level : (s : HealthStatus) → is_healthy s ≡ not (is_unhealthy s || is_degraded s)
healthy_level healthy = refl
healthy_level degraded = refl
healthy_level unhealthy = refl
healthy_level unknown = refl
healthy_level timeout = refl
healthy_level rate_limited = refl
healthy_level circuit_open = refl

all_healthy-worst :
    (statuses : List HealthStatus) → all_healthy statuses ≡ not (ltb 0 (worst statuses))
all_healthy-worst [] = refl
all_healthy-worst (s ∷ statuses) = ground (arith, healthy_level s, all_healthy-worst statuses)

any_unhealthy_worst :
    (statuses : List HealthStatus) → any_status is_unhealthy statuses ≡ ltb 1 (worst statuses)
any_unhealthy_worst [] = refl
any_unhealthy_worst (s ∷ statuses) = ground (arith, any_unhealthy_worst statuses)

worst_le : (statuses : List HealthStatus) → worst statuses ≤ 2
worst_le [] = omega arith
worst_le (s ∷ statuses) = ground (arith, worst_le statuses)

overall_status-worst :
    (statuses : List HealthStatus) → level (overall_status statuses) ≡ worst statuses
unfolding overall_status
overall_status-worst statuses =
    ground (arith, all_healthy-worst statuses, any_unhealthy_worst statuses, worst_le statuses)

-- `get_system_health` reports the worst of the statuses that it found: UNHEALTHY if one of them
-- counts as such, else DEGRADED if one is not HEALTHY, else HEALTHY.
pub get_system_health-worst :
    (m : HealthManager) (make : ℕ → Check)
    → level (get_system_health m make).1.0 ≡ worst (get_system_health m make).1.1
unfolding get_system_health
get_system_health-worst m make = elim (Bool-cases (is_nonempty m.health_checks)) [
  | inl some_names ↦
      rw some_names
        (overall_status-worst (check_multiple_resources m (checks_of m.health_checks make)).1)
  | inr no_names ↦ rw no_names refl
]
