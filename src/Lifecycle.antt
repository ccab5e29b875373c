-- ===== src/Lifecycle.antt =====
-- The lifecycle state machine of a memory: src/omnimemory/enums/enum_lifecycle_state.py and
-- src/omnimemory/nodes/node_memory_lifecycle_orchestrator/validators/validator_lifecycle_transition.py.
-- A frozenset of states is a list that is read only by membership, and the text of `reason` is a
-- value that names its form and its arguments.
pub mod Graph
mod Tests
use omnimemory.Prelude.{
  ◌≡◌, Bool, true, false, Option, none, some, List, [], ◌∷◌, ◌||◌, if◌then◌else◌,
}

pub data LifecycleState : Type 0 where
  active stale expired archived deleted : LifecycleState

-- `==` of two members of the enumeration.
abbrev pub state_eq : LifecycleState → LifecycleState → Bool
state_eq active active = true
state_eq stale stale = true
state_eq expired expired = true
state_eq archived archived = true
state_eq deleted deleted = true
state_eq _ _ = false

-- `VALID_TRANSITIONS`
unfoldable pub valid_transitions : LifecycleState → List LifecycleState
valid_transitions active = stale ∷ expired ∷ deleted ∷ []
valid_transitions stale = active ∷ expired ∷ deleted ∷ []
valid_transitions expired = archived ∷ deleted ∷ []
valid_transitions archived = active ∷ deleted ∷ []
valid_transitions deleted = []

-- `to_state in allowed`
abbrev pub contains : LifecycleState → List LifecycleState → Bool
contains t [] = false
contains t (s ∷ ss) = state_eq t s || contains t ss

-- The three messages of `validate`, each with the values that it prints.
pub data Reason : Type 0 where
  self_transition : LifecycleState → Reason
  terminal_state : LifecycleState → Reason
  not_permitted : LifecycleState → LifecycleState → List LifecycleState → Reason

pub record TransitionValidationResult : Type 0 where
  pub valid : Bool
  pub from_state : LifecycleState
  pub to_state : LifecycleState
  pub reason : Option Reason

-- The result of a refused transition.
abbrev refuse : LifecycleState → LifecycleState → Reason → TransitionValidationResult
refuse f t r = record { valid = false; from_state = f; to_state = t; reason = some r }

unfoldable pub validate : LifecycleState → LifecycleState → TransitionValidationResult
unfolding valid_transitions
validate f t =
    if state_eq f t
    then refuse f t (self_transition f)
    else if contains t (valid_transitions f)
    then record { valid = true; from_state = f; to_state = t; reason = none }
    else if state_eq f deleted
    then refuse f t (terminal_state f)
    else refuse f t (not_permitted f t (valid_transitions f))

unfoldable pub is_valid : LifecycleState → LifecycleState → Bool
unfolding validate
is_valid f t = (validate f t).valid

unfoldable pub get_valid_transitions : LifecycleState → List LifecycleState
unfolding valid_transitions
get_valid_transitions f = valid_transitions f
