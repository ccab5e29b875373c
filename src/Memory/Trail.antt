-- ===== src/Memory/Trail.antt =====
-- The lifecycle of a memory in the table, against the validator of the transitions.
use omnimemory.Prelude.{
  ℕ, ◌+◌, ◌≡◌, refl, sym, ap, ◌∙◌, inl, inr, true, Option, none, some, List, [], ◌∷◌, length,
  if◌then◌else◌, ◌==◌, arith, Option-cases, Bool-cases,
}
use omnimemory.Prelude.Equality.{eq_ℕ}
use omnimemory.Prelude.Dict.{lookup, insert, lookup-insert}
use omnimemory.Lifecycle.{LifecycleState, active, expired, archived, is_valid}
use omnimemory.Lifecycle.Graph.{follow}
use omnimemory.Memory.{
  Row, Table, update_selected, expired_row, archived_row, expire_sql, mark_archived_sql,
}
use omnimemory.Memory.Revisions.{
  Statement, expires, archives, creates, writes, execute, create_row, write_row,
  update_selected_cases,
}

unfoldable pub execute_all : Table → List Statement → Table
execute_all t [] = t
execute_all t (s ∷ ss) = execute_all (execute t s) ss

abbrev pub if_hit : ℕ → ℕ → LifecycleState → Option ℕ → Option LifecycleState
if_hit id i to none = none
if_hit id i to (some n) = if i == id then some to else none

-- The state that a statement moves the memory to, if it does.
unfoldable pub moves : ℕ → Table → Statement → Option LifecycleState
moves id t (expires i r at) = if_hit id i expired (expire_sql t i r at).1
moves id t (archives i r at path) = if_hit id i archived (mark_archived_sql t i r at path).1
moves id t (creates i row) = none
moves id t (writes i change) = none

abbrev pub and_then : Option LifecycleState → List LifecycleState → List LifecycleState
and_then none xs = xs
and_then (some x) xs = x ∷ xs

unfoldable pub trail : ℕ → Table → List Statement → List LifecycleState
trail id t [] = []
trail id t (s ∷ ss) = and_then (moves id t s) (trail id (execute t s) ss)

-- Other writers leave the state and the revision of a row alone.
abbrev pub Calm : List Statement → Type 0
Calm [] = Unit {0}
Calm (writes i change ∷ ss) =
    ((row : Row)
      → ((change row).lifecycle_state ≡ row.lifecycle_state)
        × ((change row).lifecycle_revision ≡ row.lifecycle_revision))
    × Calm ss
Calm (expires i r at ∷ ss) = Calm ss
Calm (archives i r at path ∷ ss) = Calm ss
Calm (creates i row ∷ ss) = Calm ss

-- A row after a move, or after none.
Moved : Row → Option LifecycleState → Row → Type 0
Moved row none after =
    (after.lifecycle_state ≡ row.lifecycle_state)
    × (after.lifecycle_revision ≡ row.lifecycle_revision)
Moved row (some x) after =
    (is_valid row.lifecycle_state x ≡ true)
    × (after.lifecycle_state ≡ x)
    × (after.lifecycle_revision ≡ row.lifecycle_revision + 1)

After : ℕ → Row → Option LifecycleState → Table → Type 0
After id row move t = (after : Row) × (lookup id t ≡ some after) × Moved row move after

-- The statement leaves the memory, or puts a row in its place.
insert-After :
    (id i : ℕ) (t : Table) (row old new : Row) (x : LifecycleState)
    → lookup id t ≡ some row
    → lookup i t ≡ some old
    → is_valid old.lifecycle_state x ≡ true
    → new.lifecycle_state ≡ x
    → new.lifecycle_revision ≡ old.lifecycle_revision + 1
    → After id row (if i == id then some x else none) (insert i new t)
unfolding After Moved
insert-After id i t row old new x found there valid state next = elim (Bool-cases (i == id)) [
  | inl e ↦ rw e (new, ground (arith, lookup-insert i id new t), ground arith)
  | inr e ↦ rw e (row, ground (arith, lookup-insert i id new t), (refl, refl))
]

module _ (id i r : ℕ) (t : Table) (row : Row) (from to : LifecycleState) (change : Row → Row)
    (found : lookup id t ≡ some row) (edge : is_valid from to ≡ true)
    (lands : (old : Row) → (change old).lifecycle_state ≡ to)
    (next : (old : Row) → (change old).lifecycle_revision ≡ old.lifecycle_revision + 1) where
  update-After :
      After id row
        (if_hit id i to (update_selected t i r from change).1)
        (update_selected t i r from change).0
  unfolding After Moved
  update-After = elim (update_selected_cases t i r from change) [
    | inr run ↦ rw run (row, found, (refl, refl))
    | inl (old, there, state, at, run) ↦ rw run (
        insert-After id i t row old (change old) to found there (rw state edge) (lands old)
          (next old))
  ]

expired_valid : is_valid active expired ≡ true
unfolding is_valid
expired_valid = refl

archived_valid : is_valid expired archived ≡ true
unfolding is_valid
archived_valid = refl

write-After :
    (id i : ℕ) (t : Table) (row : Row) (change : Row → Row)
    → lookup id t ≡ some row
    → Calm (writes i change ∷ [])
    → After id row none (write_row t i change)
unfolding After Moved
write-After id i t row change found calm = elim (Option-cases (lookup i t)) [
  | inl e ↦ rw (e, write_row) (row, found, (refl, refl))
  | inr (old, e) ↦
      rw (e, write_row)
        (elim (Bool-cases (i == id)) [
          | inl same ↦ (
            change old,
            ground (arith, lookup-insert i id (change old) t),
            ground (arith, calm.0 old),
          )
          | inr other ↦ (row, ground (arith, lookup-insert i id (change old) t), (refl, refl))
        ])
]

create-After :
    (id i : ℕ) (t : Table) (row new : Row)
    → lookup id t ≡ some row
    → After id row none (create_row t i new)
unfolding After Moved
create-After id i t row new found = elim (Option-cases (lookup i t)) [
  | inr (old, e) ↦ rw (e, create_row) (row, found, (refl, refl))
  | inl e ↦ rw (e, create_row) (row, ground (arith, lookup-insert i id new t), (refl, refl))
]

execute-After :
    (id : ℕ) (t : Table) (row : Row) (s : Statement)
    → lookup id t ≡ some row
    → Calm (s ∷ [])
    → After id row (moves id t s) (execute t s)
unfolding moves execute expire_sql mark_archived_sql
execute-After id t row (expires i r at) found calm =
    update-After id i r t row active expired (expired_row at) found expired_valid (λ old. refl)
      (λ old. refl)
execute-After id t row (archives i r at path) found calm =
    update-After id i r t row expired archived (archived_row at path) found archived_valid
      (λ old. refl) (λ old. refl)
execute-After id t row (creates i new) found calm = create-After id i t row new found
execute-After id t row (writes i change) found calm = write-After id i t row change found calm

Calm-head : (s : Statement) (ss : List Statement) → Calm (s ∷ ss) → Calm (s ∷ []) × Calm ss
Calm-head (expires i r at) ss up = (tt, up)
Calm-head (archives i r at path) ss up = (tt, up)
Calm-head (creates i row) ss up = (tt, up)
Calm-head (writes i change) ss up = ((up.0, tt), up.1)

joins :
    (row mid after : Row) (move : Option LifecycleState) (xs : List LifecycleState)
    → Moved row move mid
    → follow mid.lifecycle_state xs ≡ some after.lifecycle_state
    → after.lifecycle_revision ≡ mid.lifecycle_revision + length xs
    → (follow row.lifecycle_state (and_then move xs) ≡ some after.lifecycle_state)
      × (after.lifecycle_revision ≡ row.lifecycle_revision + length (and_then move xs))
unfolding Moved follow
joins row mid after none xs moved followed counted =
    (ap (λ s. follow s xs) (sym moved.0) ∙ followed, omega arith)
joins row mid after (some x) xs moved followed counted =
    (rw moved.0 (ap (λ s. follow s xs) (sym moved.1) ∙ followed), omega arith)

-- In any history of the handlers' updates and of writes that leave state and revision alone, a
-- memory of the table stays there, its states follow a history that the lifecycle validator
-- accepts, and its revision goes up by one for each of its moves.
pub trail-follow :
    (id : ℕ) (t : Table) (row : Row) (ss : List Statement)
    → lookup id t ≡ some row
    → Calm ss
    → (after : Row) × (lookup id (execute_all t ss) ≡ some after)
      × (follow row.lifecycle_state (trail id t ss) ≡ some after.lifecycle_state)
      × (after.lifecycle_revision ≡ row.lifecycle_revision + length (trail id t ss))
unfolding execute_all trail follow After
trail-follow id t row [] found calm = (row, found, refl, omega arith)
trail-follow id t row (s ∷ ss) found calm =
    let (one, rest) = Calm-head s ss calm in
    let (mid, there, moved) = execute-After id t row s found one in
    let (after, at, followed, counted) = trail-follow id (execute t s) mid ss there rest in
    let joined =
      joins row mid after (moves id t s) (trail id (execute t s) ss) moved followed counted in
    (after, at, joined.0, joined.1)
