-- ===== src/Lifecycle/Tests.antt =====
-- Histories of a memory's states, and the theorems on the validator at concrete inputs.
use omnimemory.Prelude.{◌≡◌, ◌⊎◌, refl, true, false, none, some, [], ◌∷◌}
use omnimemory.Lifecycle.{active, stale, expired, archived, validate, is_valid, Reason}
use omnimemory.Lifecycle.Graph.{Edge, Refusal, follow, validate_lem}

-- Restored from the archive.
restore : follow expired (archived ∷ active ∷ stale ∷ []) ≡ some stale
unfolding follow is_valid
restore = refl

validate_lem_example :
    let v = validate expired active in
    (v.from_state ≡ expired)
    × (v.to_state ≡ active)
    × ((Edge expired active × (v.valid ≡ true) × (v.reason ≡ none))
        ⊎ (¬ Edge expired active
            × (v.valid ≡ false)
            × (r : Reason) × (v.reason ≡ some r)
            × Refusal expired active r))
validate_lem_example = validate_lem expired active
