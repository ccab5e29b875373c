-- ===== src/Subscriptions/Ideal.antt =====
-- The ideal record of who is subscribed to what, and what a row that is added or changed does to
-- it.
use omnimemory.Prelude.{
  ℕ, ◌≤◌, ◌<◌, ◌≡◌, sym, ap, ◌∙◌, Bool, true, false, ◌&&◌, none, some, [], ◌∷◌, Result, ok, err,
  ltb, if◌then◌else◌, ◌==◌, arith, Bool-cases, if_false, inl, inr,
}
use omnimemory.Prelude.Equality.{eq_ℕ}
use omnimemory.Prelude.Dict.{lookup, insert, lookup-insert_self}
use omnimemory.Subscriptions.{
  Subscription, Table, find_row, is_some, is_pair, is_live, is_deleted, Reply, answered, raised,
  Exception, database_error,
}
use omnimemory.Subscriptions.Rows.{
  Distinct, count, insert-Distinct, count-insert_fresh, count-insert_old, find_row-count,
}

-- The ideal: whether an agent is subscribed to a topic.
abbrev pub Record : Type 0
Record = ℕ → ℕ → Bool

abbrev pub put : ℕ → ℕ → Bool → Record → Record
put agent topic value before a t = if agent == a && topic == t then value else before a t

-- No id and no pair stands twice in the table, and the live rows are those of the record.
abbrev pub Keeps : Table → Record → Type 0
Keeps rows ideal =
    Distinct rows
    × ((a t : ℕ) → count (is_pair a t) rows ≤ 1)
    × ((a t : ℕ) → ltb 0 (count (is_live a t) rows) ≡ ideal a t)

count_live : (a t : ℕ) (rows : Table) → count (is_live a t) rows ≤ count (is_pair a t) rows
count_live a t [] = omega arith
count_live a t ((id, s) ∷ rows) = ground (arith, count_live a t rows)

lookup-count :
    (test : Subscription → Bool) (id : ℕ) (s : Subscription) (rows : Table)
    → lookup id rows ≡ some s
    → test s ≡ true
    → 0 < count test rows
lookup-count test id s [] found holds = cc
lookup-count test id s ((j, r) ∷ rows) found holds = ground (arith, lookup-count test id s rows)

module _ (id : ℕ) (old new : Subscription) (agent topic : ℕ) (old_agent : old.agent_id ≡ agent)
    (old_topic : old.topic ≡ topic) (new_agent : new.agent_id ≡ agent)
    (new_topic : new.topic ≡ topic) where
  same_pairs :
      (rows : Table) (found : lookup id rows ≡ some old) (a t : ℕ)
      → count (is_pair a t) (insert id new rows) ≡ count (is_pair a t) rows
  same_pairs rows found a t = ground (arith, count-insert_old (is_pair a t) id new old rows found)

  other_lives :
      (rows : Table) (found : lookup id rows ≡ some old) (a t : ℕ)
      → (agent == a && topic == t) ≡ false
      → count (is_live a t) (insert id new rows) ≡ count (is_live a t) rows
  other_lives rows found a t other =
      ground (arith, count-insert_old (is_live a t) id new old rows found)

  pub revive_row :
      (rows : Table) (ideal : Record)
      → lookup id rows ≡ some old
      → is_deleted new.status ≡ false
      → Keeps rows ideal
      → Keeps (insert id new rows) (put agent topic true ideal)
  revive_row rows ideal found live (distinct, pairs, lives) = (
    insert-Distinct id new rows distinct,
    λ a t. omega (arith, same_pairs rows found a t, pairs a t),
    λ a t. elim (Bool-cases (agent == a && topic == t)) [
      | inl here ↦ ground (
        arith,
        lookup-count (is_live a t) id new (insert id new rows) (lookup-insert_self id new rows),
      )
      | inr other ↦
          ap (ltb 0) (other_lives rows found a t other)
          ∙ lives a t
          ∙ sym (if_false (agent == a && topic == t) true (ideal a t) other)
    ],
  )

  pub bury_row :
      (rows : Table) (ideal : Record)
      → lookup id rows ≡ some old
      → is_deleted old.status ≡ false
      → is_deleted new.status ≡ true
      → Keeps rows ideal
      → Keeps (insert id new rows) (put agent topic false ideal)
  bury_row rows ideal found live dead (distinct, pairs, lives) = (
    insert-Distinct id new rows distinct,
    λ a t. omega (arith, same_pairs rows found a t, pairs a t),
    λ a t. elim (Bool-cases (agent == a && topic == t)) [
      | inl here ↦ ground (
        arith,
        count-insert_old (is_live a t) id new old rows found,
        pairs a t,
        count_live a t rows,
      )
      | inr other ↦
          ap (ltb 0) (other_lives rows found a t other)
          ∙ lives a t
          ∙ sym (if_false (agent == a && topic == t) false (ideal a t) other)
    ],
  )

none_of_pair :
    (agent topic a t : ℕ) (rows : Table)
    → find_row (is_pair agent topic) rows ≡ none
    → agent ≡ a
    → topic ≡ t
    → count (is_pair a t) rows ≡ 0
none_of_pair agent topic a t rows alone ea et =
    ap (λ x. count (is_pair x t) rows) (sym ea)
    ∙ ap (λ y. count (is_pair agent y) rows) (sym et)
    ∙ ground (arith, find_row-count (is_pair agent topic) rows, ap is_some alone)

pub add_row :
    (id : ℕ) (new : Subscription) (rows : Table) (ideal : Record)
    → lookup id rows ≡ none
    → find_row (is_pair new.agent_id new.topic) rows ≡ none
    → is_deleted new.status ≡ false
    → Keeps rows ideal
    → Keeps (insert id new rows) (put new.agent_id new.topic true ideal)
add_row id new rows ideal fresh alone live (distinct, pairs, lives) = (
  insert-Distinct id new rows distinct,
  λ a t. ground (
    arith,
    count-insert_fresh (is_pair a t) id new rows fresh,
    pairs a t,
    none_of_pair new.agent_id new.topic a t rows alone,
  ),
  λ a t. elim (Bool-cases (new.agent_id == a && new.topic == t)) [
    | inl here ↦ ground (
      arith,
      lookup-count (is_live a t) id new (insert id new rows) (lookup-insert_self id new rows),
    )
    | inr other ↦
        ap (ltb 0) (ground (arith, count-insert_fresh (is_live a t) id new rows fresh))
        ∙ lives a t
        ∙ sym (if_false (new.agent_id == a && new.topic == t) true (ideal a t) other)
  ],
)

-- A write of the ideal, as far as the table's answer lets it be known.
abbrev pub write : ℕ → ℕ → Bool → Reply → Record → Record × Result Exception Bool
write agent topic value answered ideal = (put agent topic value ideal, ok true)
write agent topic value (raised done) ideal =
    (if done then put agent topic value ideal else ideal, err database_error)
