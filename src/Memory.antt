-- ===== src/Memory.antt =====
-- The table `memories` and the database calls of the memory lifecycle handlers, in
-- src/omnimemory/nodes/node_memory_lifecycle_orchestrator/handlers/. The statements are those of
-- the handlers' SQL; the database runs each of them as one step. An id is a number, an instant is
-- in microseconds. What else can happen to a call of the database is its `Reply`.
pub mod Expire
pub mod Retry
pub mod Quiet
pub mod Revisions
pub mod Trail
pub mod Archive
pub mod Tick
mod Tests
use omnimemory.Prelude.{
  ℕ, ◌+◌, Bool, true, false, ◌&&◌, Option, none, some, List, [], ◌∷◌, String, if◌then◌else◌, ◌==◌,
}
use omnimemory.Prelude.Equality.{Eq, eq_ℕ}
use omnimemory.Prelude.Dict.{Dict, lookup, insert}
use omnimemory.Lifecycle.{LifecycleState, active, expired, archived, state_eq}
use omnimemory.Breaker.Simple.{CircuitBreaker, record_failure, record_timeout}

-- `content` stands for the content with its type and metadata.
pub record Row : Type 0 where
  pub lifecycle_state : LifecycleState
  pub lifecycle_revision : ℕ
  pub content : String
  pub created_at : ℕ
  pub expired_at : Option ℕ
  pub archived_at : Option ℕ
  pub archive_path : Option String
  pub updated_at : ℕ

abbrev pub Table : Type 0
Table = Dict ℕ Row

-- `WHERE id = … AND lifecycle_revision = … AND lifecycle_state = …`, of the row with the id.
abbrev pub selects : ℕ → LifecycleState → Row → Bool
selects revision state row =
    row.lifecycle_revision == revision && state_eq row.lifecycle_state state

-- An update of the row with an id, if it is selected, and the revision that it then has.
unfoldable pub update_selected : Table → ℕ → ℕ → LifecycleState → (Row → Row) → Table × Option ℕ
update_selected t id revision state change = elim (lookup id t) [
  | none ↦ (t, none)
  | some row ↦
      if selects revision state row
      then (insert id (change row) t, some (change row).lifecycle_revision)
      else (t, none)
]

abbrev pub expired_row : ℕ → Row → Row
expired_row at row = record row {
  lifecycle_state = expired;
  expired_at = some at;
  lifecycle_revision = row.lifecycle_revision + 1;
  updated_at = at;
}

-- `_EXPIRE_SQL`
unfoldable pub expire_sql : Table → ℕ → ℕ → ℕ → Table × Option ℕ
unfolding update_selected
expire_sql t id revision at = update_selected t id revision active (expired_row at)

abbrev pub archived_row : ℕ → String → Row → Row
archived_row at path row = record row {
  lifecycle_state = archived;
  lifecycle_revision = row.lifecycle_revision + 1;
  archived_at = some at;
  archive_path = some path;
  updated_at = at;
}

-- The update of `_mark_archived`; it reports whether it hit a row.
unfoldable pub mark_archived_sql : Table → ℕ → ℕ → ℕ → String → Table × Option ℕ
unfolding update_selected
mark_archived_sql t id revision at path =
    update_selected t id revision expired (archived_row at path)

-- How a call of the database can fail; `unexpected` is an exception that no handler catches.
pub data Failure : Type 0 where
  timed_out postgres_error client_error unexpected : Failure

-- The reply to a call. A call that fails may have taken effect all the same.
pub data Reply : Type 0 where
  answered : Reply
  failed : Failure → Bool → Reply

-- `except TimeoutError`, `except PostgresError` and `except (InterfaceError,
-- InternalClientError)`.
unfoldable pub record_error : CircuitBreaker → Failure → ℕ → CircuitBreaker
unfolding record_failure record_timeout
record_error b timed_out now = record_timeout b now
record_error b postgres_error now = record_failure b now
record_error b client_error now = record_failure b now
record_error b unexpected now = b
