-- ===== src/Lifecycle/Graph.antt =====
-- What the lifecycle validator admits, one transition at a time and over a whole history.
use omnimemory.Prelude.{
  ◌≡◌, refl, ◌≢◌, ◌↔◌, ◌⊎◌, true, false, Option, none, some, List, [], ◌∷◌, arith, Bool-cases, inl,
  inr, if◌then◌else◌,
}
use omnimemory.Lifecycle.{
  LifecycleState, active, stale, expired, archived, deleted, Reason, terminal_state,
  self_transition, not_permitted, validate, state_eq, is_valid, get_valid_transitions,
}

-- The transitions that the module's documentation lists as valid.
pub data Edge : LifecycleState → LifecycleState → Type 0 where
  active_stale : Edge active stale
  active_expired : Edge active expired
  active_deleted : Edge active deleted
  stale_expired : Edge stale expired
  stale_active : Edge stale active
  stale_deleted : Edge stale deleted
  expired_archived : Edge expired archived
  expired_deleted : Edge expired deleted
  archived_active : Edge archived active
  archived_deleted : Edge archived deleted

is_valid_of_Edge : {f t : LifecycleState} → Edge f t → is_valid f t ≡ true
unfolding is_valid
is_valid_of_Edge active_stale = refl
is_valid_of_Edge active_expired = refl
is_valid_of_Edge active_deleted = refl
is_valid_of_Edge stale_expired = refl
is_valid_of_Edge stale_active = refl
is_valid_of_Edge stale_deleted = refl
is_valid_of_Edge expired_archived = refl
is_valid_of_Edge expired_deleted = refl
is_valid_of_Edge archived_active = refl
is_valid_of_Edge archived_deleted = refl

Edge-of_is_valid : (f t : LifecycleState) → is_valid f t ≡ true → Edge f t
unfolding is_valid
Edge-of_is_valid active active h = cc
Edge-of_is_valid active stale h = active_stale
Edge-of_is_valid active expired h = active_expired
Edge-of_is_valid active archived h = cc
Edge-of_is_valid active deleted h = active_deleted
Edge-of_is_valid stale active h = stale_active
Edge-of_is_valid stale stale h = cc
Edge-of_is_valid stale expired h = stale_expired
Edge-of_is_valid stale archived h = cc
Edge-of_is_valid stale deleted h = stale_deleted
Edge-of_is_valid expired active h = cc
Edge-of_is_valid expired stale h = cc
Edge-of_is_valid expired expired h = cc
Edge-of_is_valid expired archived h = expired_archived
Edge-of_is_valid expired deleted h = expired_deleted
Edge-of_is_valid archived active h = archived_active
Edge-of_is_valid archived stale h = cc
Edge-of_is_valid archived expired h = cc
Edge-of_is_valid archived archived h = cc
Edge-of_is_valid archived deleted h = archived_deleted
Edge-of_is_valid deleted active h = cc
Edge-of_is_valid deleted stale h = cc
Edge-of_is_valid deleted expired h = cc
Edge-of_is_valid deleted archived h = cc
Edge-of_is_valid deleted deleted h = cc

-- `is_valid` accepts a transition exactly when it is one of the ten documented edges.
pub is_valid_iff : (f t : LifecycleState) → (is_valid f t ≡ true) ↔ Edge f t
is_valid_iff f t = (Edge-of_is_valid f t, is_valid_of_Edge)

-- Where a history of requested transitions ends, if the validator accepts each of them.
unfoldable pub follow : LifecycleState → List LifecycleState → Option LifecycleState
follow s [] = some s
follow s (t ∷ ts) = let rest = follow t ts in if is_valid s t then rest else none

-- A history accepted from `deleted` is empty: the state is terminal.
pub follow_deleted :
    (ts : List LifecycleState) {t : LifecycleState}
    → follow deleted ts ≡ some t
    → (ts ≡ []) × (t ≡ deleted)
unfolding follow is_valid
follow_deleted [] h = (refl, ground arith)
follow_deleted (active ∷ ts) h = cc
follow_deleted (stale ∷ ts) h = cc
follow_deleted (expired ∷ ts) h = cc
follow_deleted (archived ∷ ts) h = cc
follow_deleted (deleted ∷ ts) h = cc

-- An accepted history that leads from `expired` to a state other than `expired` and `deleted`
-- begins with the archive: there is no direct way back from `expired`.
pub follow_expired :
    (ts : List LifecycleState) {t : LifecycleState}
    → follow expired ts ≡ some t
    → t ≢ expired
    → t ≢ deleted
    → (us : List LifecycleState) × (ts ≡ archived ∷ us) × (follow archived us ≡ some t)
unfolding follow is_valid
follow_expired [] h n m = absurd (n (ground arith))
follow_expired (active ∷ ts) h n m = cc
follow_expired (stale ∷ ts) h n m = cc
follow_expired (expired ∷ ts) h n m = cc
follow_expired (archived ∷ ts) h n m = (ts, refl, h)
follow_expired (deleted ∷ ts) h n m = absurd (m (follow_deleted ts h).1)

-- What `validate` reports on a refusal: the same state twice, else the terminal state, else the
-- list of what was allowed.
abbrev pub Refusal : LifecycleState → LifecycleState → Reason → Type 0
Refusal f t r =
    ((f ≡ t) × (r ≡ self_transition f))
    ⊎ ((f ≢ t) × (f ≡ deleted) × (r ≡ terminal_state f))
    ⊎ ((f ≢ t) × (f ≢ deleted) × (r ≡ not_permitted f t (get_valid_transitions f)))

-- On every pair of states `validate` returns the pair that it was given. A documented edge is
-- valid and has no reason; anything else is invalid, with the reason of its case.
pub validate_lem :
    (f t : LifecycleState)
    → let v = validate f t in
      (v.from_state ≡ f)
      × (v.to_state ≡ t)
      × ((Edge f t × (v.valid ≡ true) × (v.reason ≡ none))
          ⊎ (¬ Edge f t × (v.valid ≡ false) × (r : Reason) × (v.reason ≡ some r) × Refusal f t r))
unfolding is_valid get_valid_transitions
validate_lem f t = elim (Bool-cases (is_valid f t)) [
  | inl e ↦ (ground arith, ground arith, inl (Edge-of_is_valid f t e, ground arith, ground arith))
  | inr e ↦ (
    ground arith,
    ground arith,
    inr (
      λ x. cc (is_valid_of_Edge x),
      ground arith,
      if state_eq f t
          then self_transition f
          else if state_eq f deleted
          then terminal_state f
          else not_permitted f t (get_valid_transitions f),
      ground arith,
      ground arith,
    ),
  )
]
