-- ===== src/Memory/Revisions.antt =====
-- Histories of the table: what the optimistic lock gives the handlers that share it, and the
-- lifecycle of a memory that they drive.
use omnimemory.Prelude.{
  ℕ, ◌+◌, ◌≤◌, ◌<◌, ◌≡◌, refl, ◌⊎◌, inl, inr, true, ◌&&◌, Option, none, some, List, [], ◌∷◌, String,
  if◌then◌else◌, ◌==◌, arith, Option-cases, Bool-cases,
}
use omnimemory.Prelude.Equality.{eq_ℕ}
use omnimemory.Prelude.Dict.{lookup, insert, lookup-insert}
use omnimemory.Lifecycle.{LifecycleState, active, expired}
use omnimemory.Memory.{
  Row, Table, selects, update_selected, expired_row, archived_row, expire_sql, mark_archived_sql,
}

-- The statements of the two handlers, and those of others: a new row, and any write to a row.
pub data Statement : Type 0 where
  expires : ℕ → ℕ → ℕ → Statement
  archives : ℕ → ℕ → ℕ → String → Statement
  creates : ℕ → Row → Statement
  writes : ℕ → (Row → Row) → Statement

abbrev pub create_row : Table → ℕ → Row → Table
create_row t id row = elim (lookup id t) [ none ↦ insert id row t | some _ ↦ t ]

abbrev pub write_row : Table → ℕ → (Row → Row) → Table
write_row t id change = elim (lookup id t) [ none ↦ t | some row ↦ insert id (change row) t ]

unfoldable pub execute : Table → Statement → Table
execute t (expires id revision at) = (expire_sql t id revision at).0
execute t (archives id revision at path) = (mark_archived_sql t id revision at path).0
execute t (creates id row) = create_row t id row
execute t (writes id change) = write_row t id change

abbrev pub hits : ℕ → ℕ → ℕ → ℕ → Option ℕ → ℕ
hits id revision i r none = 0
hits id revision i r (some n) = if i == id && r == revision then 1 else 0

-- One for a statement of a handler that expects the revision of the memory, and updates it.
unfoldable pub wins : ℕ → ℕ → Table → Statement → ℕ
wins id revision t (expires i r at) = hits id revision i r (expire_sql t i r at).1
wins id revision t (archives i r at path) = hits id revision i r (mark_archived_sql t i r at path).1
wins id revision t (creates i row) = 0
wins id revision t (writes i change) = 0

unfoldable pub winners : ℕ → ℕ → Table → List Statement → ℕ
winners id revision t [] = 0
winners id revision t (s ∷ ss) = wins id revision t s + winners id revision (execute t s) ss

-- Other writers do not lower a revision.
abbrev pub Forward : List Statement → Type 0
Forward [] = Unit {0}
Forward (writes i change ∷ ss) =
    ((row : Row) → row.lifecycle_revision ≤ (change row).lifecycle_revision) × Forward ss
Forward (expires i r at ∷ ss) = Forward ss
Forward (archives i r at path ∷ ss) = Forward ss
Forward (creates i row ∷ ss) = Forward ss

-- The memory is past the revision.
Past : ℕ → ℕ → Table → Type 0
Past id revision t = (row : Row) × (lookup id t ≡ some row) × (revision < row.lifecycle_revision)

-- A row that comes in the place of another, if there is one, of no higher revision.
insert-Past :
    (id revision i : ℕ) (new : Row) (t : Table)
    → Past id revision t
    → ((row : Row) → lookup i t ≡ some row → row.lifecycle_revision ≤ new.lifecycle_revision)
    → Past id revision (insert i new t)
unfolding Past
insert-Past id revision i new t (row, found, past) up = elim (Bool-cases (i == id)) [
  | inl e ↦ (new, ground (arith, lookup-insert i id new t), ground (arith, up row))
  | inr e ↦ (row, ground (arith, lookup-insert i id new t), past)
]

-- An update of a selected row: nothing, or the changed row at the next revision.
pub update_selected_cases :
    (t : Table) (id revision : ℕ) (state : LifecycleState) (change : Row → Row)
    → ((row : Row) × (lookup id t ≡ some row)
        × (row.lifecycle_state ≡ state)
        × (row.lifecycle_revision ≡ revision)
        × (update_selected t id revision state change
            ≡ (insert id (change row) t, some (change row).lifecycle_revision)))
      ⊎ (update_selected t id revision state change ≡ (t, none))
unfolding update_selected
update_selected_cases t id revision state change = elim (Option-cases (lookup id t)) [
  | inl e ↦ inr (rw (e, update_selected) refl)
  | inr (row, e) ↦ elim (Bool-cases (selects revision state row)) [
    | inl hit ↦ inl (row, e, ground arith, ground arith, rw (e, update_selected, hit) refl)
    | inr miss ↦ inr (rw (e, update_selected, miss) refl)
  ]
]

-- What an update under the lock does to a memory that is past a revision, and that it wins only
-- where it brings it past.
module _ (id revision i r : ℕ) (t : Table) (state : LifecycleState) (change : Row → Row)
    (next : (row : Row) → (change row).lifecycle_revision ≡ row.lifecycle_revision + 1) where
  update-Past : Past id revision t → Past id revision (update_selected t i r state change).0
  update-Past past = elim (update_selected_cases t i r state change) [
    | inl (row, found, _, _, run) ↦
        rw run (insert-Past id revision i (change row) t past (λ other e. ground (arith, next row)))
    | inr run ↦ rw run past
  ]

  update_wins :
      (hits id revision i r (update_selected t i r state change).1 ≡ 0)
      ⊎ ((hits id revision i r (update_selected t i r state change).1 ≡ 1)
          × ¬ Past id revision t
          × Past id revision (update_selected t i r state change).0)
  unfolding Past
  update_wins = elim (update_selected_cases t i r state change) [
    | inr run ↦ inl (rw run refl)
    | inl (row, found, _, at, run) ↦ elim (Bool-cases (i == id && r == revision)) [
      | inr e ↦ inl (rw (run, e) refl)
      | inl e ↦ inr (
        rw (run, e) refl,
        (λ past.
            let (other, there, later) = past in absurd (beyond row other found at e there later)),
        rw run (
          change row,
          ground (arith, lookup-insert i id (change row) t),
          ground (arith, next row),
        ),
      )
    ]
  ]
    where
      beyond :
          (row other : Row)
          → lookup i t ≡ some row
          → row.lifecycle_revision ≡ r
          → (i == id && r == revision) ≡ true
          → lookup id t ≡ some other
          → revision < other.lifecycle_revision
          → ⊥
      beyond row other found at e there later = ground arith

expired_row_next :
    (at : ℕ) (row : Row) → (expired_row at row).lifecycle_revision ≡ row.lifecycle_revision + 1
expired_row_next at row = refl

archived_row_next :
    (at : ℕ) (path : String) (row : Row)
    → (archived_row at path row).lifecycle_revision ≡ row.lifecycle_revision + 1
archived_row_next at path row = refl

module _ (id revision : ℕ) where
  execute-Past :
      (t : Table) (s : Statement)
      → Forward (s ∷ [])
      → Past id revision t
      → Past id revision (execute t s)
  unfolding execute expire_sql mark_archived_sql
  execute-Past t (expires i r at) up past =
      update-Past id revision i r t active (expired_row at) (expired_row_next at) past
  execute-Past t (archives i r at path) up past =
      update-Past id revision i r t expired (archived_row at path) (archived_row_next at path) past
  execute-Past t (creates i row) up past = elim (Option-cases (lookup i t)) [
    | inl e ↦
        rw (e, create_row) (insert-Past id revision i row t past (λ other f. absurd (cc (e, f))))
    | inr (old, e) ↦ rw (e, create_row) past
  ]
  execute-Past t (writes i change) up past = elim (Option-cases (lookup i t)) [
    | inl e ↦ rw (e, write_row) past
    | inr (old, e) ↦
        rw (e, write_row)
          (insert-Past id revision i (change old) t past (λ other f. ground (arith, up.0 other)))
  ]

  wins_cases :
      (t : Table) (s : Statement)
      → (wins id revision t s ≡ 0)
        ⊎ ((wins id revision t s ≡ 1) × ¬ Past id revision t × Past id revision (execute t s))
  unfolding wins execute expire_sql mark_archived_sql
  wins_cases t (expires i r at) =
      update_wins id revision i r t active (expired_row at) (expired_row_next at)
  wins_cases t (archives i r at path) =
      update_wins id revision i r t expired (archived_row at path) (archived_row_next at path)
  wins_cases t (creates i row) = inl refl
  wins_cases t (writes i change) = inl refl

  Forward-head :
      (s : Statement) (ss : List Statement) → Forward (s ∷ ss) → Forward (s ∷ []) × Forward ss
  Forward-head (expires i r at) ss up = (tt, up)
  Forward-head (archives i r at path) ss up = (tt, up)
  Forward-head (creates i row) ss up = (tt, up)
  Forward-head (writes i change) ss up = ((up.0, tt), up.1)

  -- Past the revision nobody wins any more.
  winners-Past :
      (t : Table) (ss : List Statement)
      → Forward ss
      → Past id revision t
      → winners id revision t ss ≡ 0
  unfolding winners
  winners-Past t [] up past = refl
  winners-Past t (s ∷ ss) up past =
      let (one, rest) = Forward-head s ss up in
      elim (wins_cases t s) [
        | inl none_here ↦
            omega (arith, winners-Past (execute t s) ss rest (execute-Past t s one past))
        | inr (_, not_past, _) ↦ absurd (not_past past)
      ]

  -- However the statements of handlers and of other writers follow one another, where no other
  -- writer lowers a revision: of all the updates of a memory that expect one revision, at most one
  -- takes effect.
  pub winners_at_most_one :
      (t : Table) (ss : List Statement) → Forward ss → winners id revision t ss ≤ 1
  unfolding winners
  winners_at_most_one t [] up = omega arith
  winners_at_most_one t (s ∷ ss) up =
      let (one, rest) = Forward-head s ss up in
      elim (wins_cases t s) [
        | inl none_here ↦ omega (arith, winners_at_most_one (execute t s) ss rest)
        | inr (won, _, past) ↦ omega (arith, winners-Past (execute t s) ss rest past)
      ]
