-- ===== src/Subscriptions/Rows.antt =====
-- The table of subscriptions: what a row that is added or changed does to a count of its rows.
use omnimemory.Prelude.{
  ℕ, ◌+◌, ◌≡◌, refl, ◌∙◌, Bool, true, none, some, [], ◌∷◌, ltb, if◌then◌else◌, ◌==◌, arith,
  Bool-cases, inl, inr,
}
use omnimemory.Prelude.Equality.{eq_ℕ}
use omnimemory.Prelude.Dict.{lookup, insert, lookup-insert_ne}
use omnimemory.Subscriptions.{Subscription, Table, find_row, is_some}

-- No id stands twice in the table.
abbrev pub Distinct : Table → Type 0
Distinct [] = Unit
Distinct ((id, s) ∷ rows) = (lookup id rows ≡ none) × Distinct rows

-- How many rows fit.
abbrev pub count : (Subscription → Bool) → Table → ℕ
count test [] = 0
count test ((id, s) ∷ rows) = (if test s then 1 else 0) + count test rows

pub insert-Distinct :
    (id : ℕ) (s : Subscription) (rows : Table) → Distinct rows → Distinct (insert id s rows)
insert-Distinct id s [] distinct = (refl, distinct)
insert-Distinct id s ((j, r) ∷ rows) distinct = elim (Bool-cases (j == id)) [
  | inl same ↦ rw same distinct
  | inr other ↦ rw other (
    lookup-insert_ne id j s rows (λ e. ground arith) ∙ distinct.0,
    insert-Distinct id s rows (distinct.1),
  )
]

pub count-insert_fresh :
    (test : Subscription → Bool) (id : ℕ) (s : Subscription) (rows : Table)
    → lookup id rows ≡ none
    → count test (insert id s rows) ≡ count test rows + (if test s then 1 else 0)
count-insert_fresh test id s [] fresh = omega arith
count-insert_fresh test id s ((j, r) ∷ rows) fresh =
    ground (arith, count-insert_fresh test id s rows)

pub count-insert_old :
    (test : Subscription → Bool) (id : ℕ) (s old : Subscription) (rows : Table)
    → lookup id rows ≡ some old
    → count test (insert id s rows) + (if test old then 1 else 0)
      ≡ count test rows + (if test s then 1 else 0)
count-insert_old test id s old [] found = cc
count-insert_old test id s old ((j, r) ∷ rows) found =
    ground (arith, count-insert_old test id s old rows)

pub find_row-count :
    (test : Subscription → Bool) (rows : Table)
    → is_some (find_row test rows) ≡ ltb 0 (count test rows)
find_row-count test [] = refl
find_row-count test ((id, s) ∷ rows) = ground (arith, find_row-count test rows)

pub find_row-test :
    (test : Subscription → Bool) (rows : Table) (id : ℕ) (s : Subscription)
    → find_row test rows ≡ some (id, s)
    → test s ≡ true
find_row-test test [] id s found = cc
find_row-test test ((j, r) ∷ rows) id s found = ground (arith, find_row-test test rows id s)

pub lookup-find_row :
    (test : Subscription → Bool) (rows : Table) (id : ℕ) (s : Subscription)
    → Distinct rows
    → find_row test rows ≡ some (id, s)
    → lookup id rows ≡ some s
lookup-find_row test [] id s distinct found = cc
lookup-find_row test ((j, r) ∷ rows) id s distinct found =
    let new = distinct.0 in ground (arith, lookup-find_row test rows id s (distinct.1))
