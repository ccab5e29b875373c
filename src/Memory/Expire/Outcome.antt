-- ===== src/Memory/Expire/Outcome.antt =====
-- What the answers of `handle` say of the table.
use omnimemory.Prelude.{
  ℕ, ◌+◌, ◌≡◌, ◌≢◌, refl, ◌∙◌, sym, ap, ◌⊎◌, inl, inr, Bool, true, false, Option, none, some,
  Result, ok, err, ◌==◌, arith, Option-cases, Bool-cases,
}
use omnimemory.Prelude.Equality.{eq_ℕ}
use omnimemory.Prelude.Dict.{lookup, insert}
use omnimemory.Lifecycle.{active}
use omnimemory.Breaker.Simple.{should_allow_request, record_success}
use omnimemory.Memory.{
  Row, Table, selects, update_selected, expired_row, expire_sql, Failure, Reply, answered, failed,
}
use omnimemory.Memory.Expire.{
  World, with_breaker, Query, ExpireMemoryCommand, MemoryExpireResult, Message, given_or,
  not_initialized, breaker_open, database_failed, succeeded, no_match, failed_result, hard_failure,
  ReadError, not_ready, circuit_open, read_failed, read_current_state, conclude, unknown_cause,
  breaker_open_on_read, diagnose, settle, attempt, handle,
}

-- The world in which the update runs.
abbrev pub arrived : World → Query → World
arrived w q = q.before (with_breaker w (should_allow_request w.handler.circuit_breaker q.asked).0)

abbrev pub expires_at : ExpireMemoryCommand → Query → ℕ
expires_at c q = given_or c.expired_at q.asked

-- The update hits the row of the id, or leaves the table.
pub expire_sql_cases :
    (t : Table) (id revision at : ℕ)
    → ((row : Row) × (lookup id t ≡ some row)
        × (row.lifecycle_state ≡ active)
        × (row.lifecycle_revision ≡ revision)
        × (expire_sql t id revision at ≡ (insert id (expired_row at row) t, some (revision + 1))))
      ⊎ (expire_sql t id revision at ≡ (t, none))
unfolding expire_sql
expire_sql_cases t id revision at = elim (Option-cases (lookup id t)) [
  | inl e ↦ inr (rw (e, update_selected) refl)
  | inr (row, e) ↦ elim (Bool-cases (selects revision active row)) [
    | inl hit ↦
        inl (row, e, ground arith, ground arith, rw (e, update_selected, hit) (ground arith))
    | inr miss ↦ inr (rw (e, update_selected, miss) refl)
  ]
]

-- The world after the update of a row.
abbrev pub updated : World → ExpireMemoryCommand → Query → Row → World
updated w c q row = q.later (record (arrived w q) {
  table = insert c.memory_id (expired_row (expires_at c q) row) (arrived w q).table;
})

abbrev pub ended_well : World → Query → World
ended_well u q = with_breaker u (record_success u.handler.circuit_breaker q.ended)

-- The ways through `handle`.
pub data Way (w : World) (c : ExpireMemoryCommand) (q r : Query) : Type 0 where
  off : w.handler.initialized ≡ false → handle w c q r ≡ (w, err not_initialized) → Way w c q r
  refused :
      (should_allow_request w.handler.circuit_breaker q.asked).1 ≡ false
      → handle w c q r ≡ (
        with_breaker w (should_allow_request w.handler.circuit_breaker q.asked).0,
        ok (hard_failure c.memory_id breaker_open),
      )
      → Way w c q r
  hit :
      (row : Row)
      → q.reply ≡ answered
      → lookup c.memory_id (arrived w q).table ≡ some row
      → row.lifecycle_state ≡ active
      → row.lifecycle_revision ≡ c.expected_revision
      → handle w c q r
        ≡ (ended_well (updated w c q row) q, ok (succeeded c (c.expected_revision + 1)))
      → Way w c q r
  missed :
      q.reply ≡ answered
      → handle w c q r ≡ diagnose (q.later (arrived w q)) c r q.ended
      → Way w c q r
  broke :
      (f : Failure) (done : Bool)
      → q.reply ≡ failed f done
      → (handle w c q r).1 ≡ failed_result c.memory_id database_failed f
      → Way w c q r

-- The update and its reply, put in for the calls.
attempt-settle :
    (w : World) (c : ExpireMemoryCommand) (q r : Query) (run : Table × Option ℕ) (p : Reply)
    → expire_sql (q.before w).table c.memory_id c.expected_revision (expires_at c q) ≡ run
    → q.reply ≡ p
    → attempt w c q r ≡ settle (q.before w) c q r run p
unfolding attempt
attempt-settle w c q r run p e a =
    ap (λ x. settle (q.before w) c q r x q.reply) e ∙ ap (settle (q.before w) c q r run) a

settle_answered :
    (v : World) (c : ExpireMemoryCommand) (q r : Query) (t : Table) (revision : ℕ)
    → settle v c q r (t, some revision) answered
      ≡ (ended_well (q.later (record v { table = t })) q, ok (succeeded c revision))
unfolding settle
settle_answered v c q r t revision = refl

settle_missed :
    (v : World) (c : ExpireMemoryCommand) (q r : Query)
    → settle v c q r (v.table, none) answered ≡ diagnose (q.later v) c r q.ended
unfolding settle
settle_missed v c q r = refl

settle_failed :
    (v : World) (c : ExpireMemoryCommand) (q r : Query) (run : Table × Option ℕ) (f : Failure)
    (done : Bool)
    → (settle v c q r run (failed f done)).1 ≡ failed_result c.memory_id database_failed f
unfolding settle
settle_failed v c q r (t, none) f done = refl
settle_failed v c q r (t, some n) f done = refl

module _ (w : World) (c : ExpireMemoryCommand) (q r : Query) where
  abbrev let_in : World
  let_in = with_breaker w (should_allow_request w.handler.circuit_breaker q.asked).0

  attempt-Way : handle w c q r ≡ attempt let_in c q r → Way w c q r
  attempt-Way e = go q.reply refl
    where
      run : Table × Option ℕ
      run = expire_sql (arrived w q).table c.memory_id c.expected_revision (expires_at c q)

      go : (p : Reply) → q.reply ≡ p → Way w c q r
      go (failed f done) a = broke f done a (
          ap (λ p. p.1) e
          ∙ ap (λ p. p.1) (attempt-settle let_in c q r run (failed f done) refl a)
          ∙ settle_failed (arrived w q) c q r run f done)
      go answered a =
          elim (expire_sql_cases (arrived w q).table c.memory_id c.expected_revision
            (expires_at c q)) [
              | inl (row, found, state, revision, run) ↦ hit row a found state revision (
                  e
                  ∙ attempt-settle let_in c q r _ answered run a
                  ∙ settle_answered (arrived w q) c q r _ (c.expected_revision + 1))
              | inr run ↦ missed a (
                  e
                  ∙ attempt-settle let_in c q r _ answered run a
                  ∙ settle_missed (arrived w q) c q r)
            ]

pub handle-Way : (w : World) (c : ExpireMemoryCommand) (q r : Query) → Way w c q r
unfolding handle
handle-Way w c q r = elim (Bool-cases w.handler.initialized) [
  | inr e ↦ off e (rw e refl)
  | inl e ↦ elim (Bool-cases (should_allow_request w.handler.circuit_breaker q.asked).1) [
    | inl a ↦ attempt-Way w c q r (rw (e, a) refl)
    | inr a ↦ refused a (rw (e, a) refl)
  ]
]

-- The world in which a state is read.
abbrev pub reading : World → Query → World
reading w q = q.before (with_breaker w (should_allow_request w.handler.circuit_breaker q.asked).0)

-- A row that is found is what the table has for the id when the state is read.
pub read_current_state_found :
    (w : World) (id : ℕ) (q : Query) (found : Option Row)
    → (read_current_state w id q).1 ≡ ok found
    → (found ≡ lookup id (reading w q).table)
unfolding read_current_state
read_current_state_found w id q found e = ground arith

no_match_conflict :
    (c : ExpireMemoryCommand) (found : Option Row)
    → ((no_match c found).success ≡ false)
      × ((no_match c found).conflict ≡ true
          → (row : Row) × (found ≡ some row) × (row.lifecycle_revision ≢ c.expected_revision))
no_match_conflict c none = (refl, λ h. cc)
no_match_conflict c (some row) = elim (Bool-cases (row.lifecycle_revision == c.expected_revision)) [
  | inl e ↦ (rw e refl, λ h. cc (e, h))
  | inr e ↦ (rw e refl, λ h. (row, refl, ground arith))
]

failed_result_plain :
    (id : ℕ) (message : Failure → Message) (f : Failure) (result : MemoryExpireResult)
    → failed_result id message f ≡ ok result
    → (result.success ≡ false) × (result.conflict ≡ false)
failed_result_plain id message f result e = ground arith

-- What an answer of `diagnose` says.
abbrev pub Diagnosed : World → ExpireMemoryCommand → Query → MemoryExpireResult → Type 0
Diagnosed w c q result =
    (result.success ≡ false)
    × (result.conflict ≡ true
        → (row : Row) × (lookup c.memory_id (reading w q).table ≡ some row)
          × (row.lifecycle_revision ≢ c.expected_revision))

conclude-Diagnosed :
    (w v : World) (c : ExpireMemoryCommand) (q : Query) (now : ℕ) (result : MemoryExpireResult)
    (answer : Result ReadError (Option Row))
    → (read_current_state w c.memory_id q).1 ≡ answer
    → (conclude v c now answer).1 ≡ ok result
    → Diagnosed w c q result
unfolding conclude
conclude-Diagnosed w v c q now result (ok found) a e =
    let (bad, conflict) = no_match_conflict c found in
    let same : no_match c found ≡ result = cc in
    rw (← same) (
      bad,
      λ h.
          let (row, is_row, apart) = conflict h in
          (row, sym (read_current_state_found w c.memory_id q found a) ∙ is_row, apart),
    )
conclude-Diagnosed w v c q now result (err not_ready) a e = cc
conclude-Diagnosed w v c q now result (err circuit_open) a e =
    let same : hard_failure c.memory_id breaker_open_on_read ≡ result = cc in
    rw (← same) (refl, λ h. cc)
conclude-Diagnosed w v c q now result (err (read_failed f)) a e =
    let (bad, calm) = failed_result_plain c.memory_id unknown_cause f result e in
    (bad, λ h. cc (calm, h))

diagnose-Diagnosed :
    (w : World) (c : ExpireMemoryCommand) (q : Query) (now : ℕ) (result : MemoryExpireResult)
    → (diagnose w c q now).1 ≡ ok result
    → Diagnosed w c q result
unfolding diagnose
diagnose-Diagnosed w c q now result e =
    conclude-Diagnosed w (read_current_state w c.memory_id q).0 c q now result
      (read_current_state w c.memory_id q).1 refl e

-- What an answer of `handle` says of the table. A success: the memory was active at the expected
-- revision when the update ran, which made of its row the expired one at the next revision, and
-- that revision is returned. A conflict: the database answered, and the memory was found at
-- another revision. Never both.
pub Told : World → ExpireMemoryCommand → Query → Query → World → MemoryExpireResult → Type 0
Told w c q r v result =
    (result.success ≡ true
      → (row : Row) × (lookup c.memory_id (arrived w q).table ≡ some row)
        × (row.lifecycle_state ≡ active)
        × (row.lifecycle_revision ≡ c.expected_revision)
        × (result.new_revision ≡ some (c.expected_revision + 1))
        × (v.table ≡ (updated w c q row).table))
    × (result.conflict ≡ true
        → (result.success ≡ false)
          × (q.reply ≡ answered)
          × (row : Row) × (lookup c.memory_id (reading (q.later (arrived w q)) r).table ≡ some row)
          × (row.lifecycle_revision ≢ c.expected_revision))

-- Whatever other tasks do meanwhile, an answer of `handle` tells the truth: after a success, the
-- memory was active at the expected revision when the update ran, which made of its row the
-- expired one at the next revision, the one that is returned; after a conflict, which is no
-- success, the database had answered and the memory was found at another revision.
pub handle-Told :
    (w v : World) (c : ExpireMemoryCommand) (q r : Query) (result : MemoryExpireResult)
    → handle w c q r ≡ (v, ok result)
    → Told w c q r v result
unfolding Told
handle-Told w v c q r result e = elim (handle-Way w c q r) [
  | off _ h ↦ absurd (cc (e, h))
  | refused _ h ↦
      let same : hard_failure c.memory_id breaker_open ≡ result = cc (e, h) in
      rw (← same) (λ s. cc, λ s. cc)
  | hit row a found state revision h ↦
      let same : succeeded c (c.expected_revision + 1) ≡ result = cc (e, h) in
      let place : ended_well (updated w c q row) q ≡ v = cc (e, h) in
      rw (← same, ← place) (λ s. (row, found, state, revision, refl, refl), λ s. cc)
  | missed a h ↦
      let told : Diagnosed (q.later (arrived w q)) c r result =
        diagnose-Diagnosed (q.later (arrived w q)) c r q.ended result (ap (λ p. p.1) (sym h ∙ e)) in
      (
        λ s. cc (told.0, s),
        λ s. let (row, found, apart) = told.1 s in (told.0, a, row, found, apart),
      )
  | broke f done a h ↦
      let (bad, calm) =
        failed_result_plain c.memory_id database_failed f result (sym h ∙ ap (λ p. p.1) e) in
      (λ s. cc (bad, s), λ s. cc (calm, s))
]
