-- ===== src/Memory/Quiet.antt =====
-- The handler alone with its database: calls that are answered while no other task does anything.
use omnimemory.Prelude.{
  ℕ, suc, ◌+◌, ◌-◌, ◌≤◌, ◌≡◌, ◌≢◌, refl, sym, ap, ◌∙◌, inl, inr, true, false, Option, none, some,
  Result, ok, ◌==◌, arith, Bool-cases,
}
use mathlib.Core.Path.{subst}
use omnimemory.Prelude.Equality.{eq_ℕ}
use omnimemory.Prelude.Dict.{lookup, insert}
use omnimemory.Lifecycle.{active}
use omnimemory.Breaker.{closed, half_open, open_circuit}
use omnimemory.Breaker.Simple.{CircuitBreaker, should_allow_request, record_success}
use omnimemory.Memory.{Row, Table, update_selected, expired_row, expire_sql, answered}
use omnimemory.Memory.Expire.{
  World, with_breaker, Query, ExpireMemoryCommand, MemoryExpireResult, Exception, given_or,
  succeeded, no_match, read_current_state, conclude, diagnose, settle, attempt, handle,
}
use omnimemory.Memory.Retry.{
  Attempt, ends, again, round_after, round, loop_after, retry_loop, handle_with_retry,
}

-- A call that is answered, with nobody else about.
abbrev pub quiet : ℕ → ℕ → Query
quiet asked ended = record {
  asked = asked;
  before = λ w. w;
  reply = answered;
  later = λ w. w;
  ended = ended;
}

pub allows :
    (b : CircuitBreaker) (now : ℕ) → b.state ≢ open_circuit → should_allow_request b now ≡ (b, true)
unfolding should_allow_request
allows b now e = ground arith

success-ne-open :
    (b : CircuitBreaker) (now : ℕ)
    → b.state ≢ open_circuit
    → (record_success b now).state ≢ open_circuit
unfolding record_success
success-ne-open b now e h = ground arith

-- The breaker after a call that succeeded.
abbrev noted : World → ℕ → World
noted w now = with_breaker w (record_success w.handler.circuit_breaker now)

-- A handler that is initialized, with a breaker that is not open.
pub record IsReady (w : World) : Type 0 where
  pub initialized : w.handler.initialized ≡ true
  pub not_open : w.handler.circuit_breaker.state ≢ open_circuit

noted-IsReady : (w : World) (now : ℕ) → IsReady w → IsReady (noted w now)
noted-IsReady w now ready = record {
  initialized = ready.initialized;
  not_open = success-ne-open w.handler.circuit_breaker now ready.not_open;
}

quiet_read :
    (w : World) (id a e : ℕ)
    → IsReady w
    → read_current_state w id (quiet a e) ≡ (noted w e, ok (lookup id w.table))
unfolding read_current_state
quiet_read w id a e ready =
    rw (ready.initialized, allows w.handler.circuit_breaker a ready.not_open) refl

-- The update runs on the table as it is.
handle-quiet :
    (w : World) (c : ExpireMemoryCommand) (r : Query) (a e : ℕ)
    → IsReady w
    → handle w c (quiet a e) r
      ≡ settle w c
          (quiet a e)
          r
          (expire_sql w.table c.memory_id c.expected_revision (given_or c.expired_at a))
          answered
unfolding handle attempt
handle-quiet w c r a e ready =
    rw (ready.initialized, allows w.handler.circuit_breaker a ready.not_open) refl

expire_sql_hit :
    (t : Table) (id at : ℕ) (row : Row)
    → lookup id t ≡ some row
    → row.lifecycle_state ≡ active
    → expire_sql t id row.lifecycle_revision at
      ≡ (insert id (expired_row at row) t, some (row.lifecycle_revision + 1))
unfolding expire_sql update_selected
expire_sql_hit t id at row found state = ground arith

expire_sql_miss :
    (t : Table) (id revision at : ℕ) (row : Row)
    → lookup id t ≡ some row
    → row.lifecycle_revision ≢ revision
    → expire_sql t id revision at ≡ (t, none)
unfolding expire_sql update_selected
expire_sql_miss t id revision at row found apart = ground arith

-- The command of an attempt.
abbrev pub command : ℕ → ℕ → Option ℕ → ExpireMemoryCommand
command id revision at = record { memory_id = id; expected_revision = revision; expired_at = at }

module _ (w : World) (id : ℕ) (at : Option ℕ) (row : Row) (ready : IsReady w)
    (found : lookup id w.table ≡ some row) where
  quiet_hit :
      (r : Query) (a e : ℕ)
      → row.lifecycle_state ≡ active
      → handle w (command id row.lifecycle_revision at) (quiet a e) r ≡ (
        noted (record w { table = insert id (expired_row (given_or at a) row) w.table }) e,
        ok (succeeded (command id row.lifecycle_revision at) (row.lifecycle_revision + 1)),
      )
  unfolding settle
  quiet_hit r a e state =
      handle-quiet w (command id row.lifecycle_revision at) r a e ready
      ∙ rw (expire_sql_hit w.table id (given_or at a) row found state) refl

  quiet_conflict :
      (revision a e b f : ℕ)
      → row.lifecycle_revision ≢ revision
      → handle w (command id revision at) (quiet a e) (quiet b f)
        ≡ (noted (noted w f) e, ok (no_match (command id revision at) (some row)))
  unfolding settle diagnose conclude
  quiet_conflict revision a e b f apart =
      handle-quiet w (command id revision at) (quiet b f) a e ready
      ∙ rw (expire_sql_miss w.table id revision (given_or at a) row found apart)
          (rw (quiet_read w id b f ready, found) refl)

no_match_conflicts :
    (c : ExpireMemoryCommand) (row : Row)
    → row.lifecycle_revision ≢ c.expected_revision
    → ((no_match c (some row)).success ≡ false) × ((no_match c (some row)).conflict ≡ true)
no_match_conflicts c row apart = ground arith

-- A result in conflict, and a row that is found active, lead to the next attempt.
conflict_again :
    (id : ℕ) (a : Attempt) (w : World) (result : MemoryExpireResult) (v : World) (row : Row)
    → (result.success ≡ false) × (result.conflict ≡ true)
    → read_current_state w id a.reread ≡ (v, ok (some row))
    → row.lifecycle_state ≡ active
    → round_after id a (w, ok result) ≡ (v, again row.lifecycle_revision)
unfolding round_after
conflict_again id a w result v row (bad, conflict) found state =
    rw (bad, conflict, found, state) refl

-- An attempt with its instants.
abbrev pub quiet_attempt : (ℕ → ℕ) → Attempt
quiet_attempt time = record {
  update = quiet (time 0) (time 1);
  diagnosis = quiet (time 2) (time 3);
  reread = quiet (time 4) (time 5);
}

module _ (w : World) (id : ℕ) (at : Option ℕ) (row : Row) (ready : IsReady w)
    (found : lookup id w.table ≡ some row) (state : row.lifecycle_state ≡ active)
    (time : ℕ → ℕ) where
  round_hit : round w id row.lifecycle_revision at (quiet_attempt time) ≡ (
    noted
        (record w { table = insert id (expired_row (given_or at (time 0)) row) w.table })
        (time 1),
    ends (ok (succeeded (command id row.lifecycle_revision at) (row.lifecycle_revision + 1))),
  )
  unfolding round round_after
  round_hit =
      ap (round_after id (quiet_attempt time))
        (quiet_hit w id at row ready found (quiet (time 2) (time 3)) (time 0) (time 1) state)

  round_conflict :
      (revision : ℕ)
      → row.lifecycle_revision ≢ revision
      → round w id revision at (quiet_attempt time)
        ≡ (noted (noted (noted w (time 3)) (time 1)) (time 5), again row.lifecycle_revision)
  unfolding round
  round_conflict revision apart =
      ap (round_after id (quiet_attempt time))
        (quiet_conflict w id at row ready found revision (time 0) (time 1) (time 2) (time 3) apart)
      ∙ conflict_again id (quiet_attempt time) (noted (noted w (time 3)) (time 1))
          (no_match (command id revision at) (some row))
          (noted (noted (noted w (time 3)) (time 1)) (time 5)) row
          (no_match_conflicts (command id revision at) row apart)
          (quiet_read (noted (noted w (time 3)) (time 1)) id (time 4) (time 5)
              (noted-IsReady (noted w (time 3)) (time 1) (noted-IsReady w (time 3) ready))
            ∙ ap (λ x. (noted (noted (noted w (time 3)) (time 1)) (time 5), ok x)) found)
          state

-- What a success of the retries is.
abbrev pub Recovered : World → ℕ → Row → World × Result Exception MemoryExpireResult → Type 0
Recovered w id row (v, answer) =
    (result : MemoryExpireResult) × (now : ℕ) × (answer ≡ ok result)
    × (result.success ≡ true)
    × (result.new_revision ≡ some (row.lifecycle_revision + 1))
    × (v.table ≡ insert id (expired_row now row) w.table)

module _ (w : World) (id : ℕ) (at : Option ℕ) (row : Row) (ready : IsReady w)
    (found : lookup id w.table ≡ some row) (state : row.lifecycle_state ≡ active)
    (clock : ℕ → ℕ → ℕ) where
  abbrev attempts : ℕ → Attempt
  attempts k = quiet_attempt (clock k)

  loop_hit :
      (n limit : ℕ)
      → Recovered w id row (retry_loop (suc n) w id row.lifecycle_revision at limit attempts)
  unfolding retry_loop
  loop_hit n limit =
      rw
        (ap (loop_after (λ v r. retry_loop n v id r at limit attempts))
          (round_hit w id at row ready found state (clock n)))
        (
          succeeded (command id row.lifecycle_revision at) (row.lifecycle_revision + 1),
          given_or at (clock n 0),
          refl,
          refl,
          refl,
          refl,
        )

module _ (w : World) (id : ℕ) (at : Option ℕ) (row : Row) (ready : IsReady w)
    (found : lookup id w.table ≡ some row) (state : row.lifecycle_state ≡ active)
    (clock : ℕ → ℕ → ℕ) where
  loop_recovers :
      (n limit revision : ℕ)
      → Recovered w id row
          (retry_loop (suc (suc n)) w id revision at limit (λ k. quiet_attempt (clock k)))
  unfolding retry_loop
  loop_recovers n limit revision = elim (Bool-cases (row.lifecycle_revision == revision)) [
    | inl e ↦
        let same : row.lifecycle_revision ≡ revision = ground arith in
        rw (← same) (loop_hit w id at row ready found state clock (suc n) limit)
    | inr e ↦
        let apart : row.lifecycle_revision ≢ revision = ground arith in
        subst (Recovered w id row)
          (sym (
            ap
              (loop_after
                (λ v r. retry_loop (suc n) v id r at limit (λ k. quiet_attempt (clock k))))
              (round_conflict w id at row ready found state (clock (suc n)) revision apart)))
          (loop_hit (noted (noted (noted w (clock (suc n) 3)) (clock (suc n) 1)) (clock (suc n) 5))
            id at row
            (noted-IsReady _ _ (noted-IsReady _ _ (noted-IsReady w (clock (suc n) 3) ready))) found
            state clock n limit)
  ]

  -- With at least two attempts allowed, an initialized handler whose breaker is not open expires
  -- an active memory whatever revision the caller thinks it has, where every call of the
  -- database is answered and nobody else does anything: the answer is a success at the memory's
  -- next revision.
  pub handle_with_retry_recovers :
      (revision : ℕ)
      → 2 ≤ w.handler.max_retries
      → Recovered w id row (handle_with_retry w id revision at (λ k. quiet_attempt (clock k)))
  unfolding handle_with_retry
  handle_with_retry_recovers revision enough =
      let e : w.handler.max_retries ≡ suc (suc (w.handler.max_retries - 2)) = omega arith in
      subst
        (λ n.
          Recovered w id row
            (retry_loop n w id revision at w.handler.max_retries (λ k. quiet_attempt (clock k))))
        (sym e) (loop_recovers (w.handler.max_retries - 2) w.handler.max_retries revision)

-- One conflict counts two successes of the breaker: that of the update that hit no row, and that
-- of the read that explains it. So a half-open breaker that wants two more successes is closed
-- by a single call of `handle` in conflict, where both calls of the database are answered and
-- nobody else does anything.
pub conflict_closes :
    (w : World) (id revision a e b f : ℕ) (at : Option ℕ) (row : Row)
    → w.handler.initialized ≡ true
    → w.handler.circuit_breaker.state ≡ half_open
    → w.handler.circuit_breaker.success_threshold ≡ w.handler.circuit_breaker.success_count + 2
    → lookup id w.table ≡ some row
    → row.lifecycle_revision ≢ revision
    → (handle w (command id revision at) (quiet a e) (quiet b f)).0.handler.circuit_breaker.state
      ≡ closed
unfolding record_success
conflict_closes w id revision a e b f at row on half wants found apart =
    rw
      (quiet_conflict w id at row (record { initialized = on; not_open = λ h. cc (half, h) }) found
        revision a e b f apart)
      (ground arith)
