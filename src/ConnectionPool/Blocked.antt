-- ===== src/ConnectionPool/Blocked.antt =====
-- What can happen to a pool while an `acquire` waits for a connection under the lock.
use mathlib.Core.Path.{subst, ap₂}
use omnimemory.Prelude.{
  ℕ, ◌+◌, ◌≤◌, ◌≡◌, refl, sym, ap, ◌∙◌, Bool, true, false, Option, none, some, List, [], ◌∷◌,
  length, ltb, if◌then◌else◌, if_false, arith,
}
use omnimemory.ConnectionPool.{
  AsyncConnectionPool, Phase, outside, inside, seeking, storing, lent, returning, unlocked,
  awaiting, begin, inspect, enter, Event, begins, gets_lock, creation_ends, creation_times_out,
  creation_timed_out, receives, times_out, holder_cancelled, health_check, body_ends, cancelled,
  is_outside, is_free, creation_ended, received, body_ended, cancel, perform_health_check, step,
  run,
}

-- A task waits for a connection, holds the lock, and there is none to be had.
pub record Blocked (t n : ℕ) (connection : Option ℕ) (p : AsyncConnectionPool) : Type 0 where
  pub waits : p.lock ≡ awaiting t n connection
  pub nothing : p.available ≡ []

-- An event other than the timeout or the cancellation of the wait.
abbrev pub Elsewhere : List Event → Type 0
Elsewhere [] = Unit {0}
Elsewhere (times_out ∷ es) = ⊥
Elsewhere (holder_cancelled ∷ es) = ⊥
Elsewhere (begins t validate ∷ es) = Elsewhere es
Elsewhere (gets_lock t validate ∷ es) = Elsewhere es
Elsewhere (creation_ends validate made ∷ es) = Elsewhere es
Elsewhere (creation_times_out ∷ es) = Elsewhere es
Elsewhere (receives validate ∷ es) = Elsewhere es
Elsewhere (health_check ∷ es) = Elsewhere es
Elsewhere (body_ends t counted ∷ es) = Elsewhere es
Elsewhere (cancelled t ∷ es) = Elsewhere es

module _ (t n : ℕ) (connection : Option ℕ) where
  -- The pool in that state.
  abbrev blocked : AsyncConnectionPool → AsyncConnectionPool
  blocked p = record p { lock = awaiting t n connection; available = [] }

  blocked-eq : (p : AsyncConnectionPool) → Blocked t n connection p → blocked p ≡ p
  blocked-eq p b = ap₂ (λ l q. record p { lock = l; available = q }) (sym b.waits) (sym b.nothing)

  either-Blocked :
      (test : Bool) (p q : AsyncConnectionPool)
      → Blocked t n connection p
      → Blocked t n connection q
      → Blocked t n connection (if test then p else q)
  either-Blocked true p q bp bq = bp
  either-Blocked false p q bp bq = bq

  body_ended-Blocked :
      (p : AsyncConnectionPool) (u : ℕ) (counted : Bool) (x : Phase)
      → Blocked t n connection (body_ended (blocked p) u counted x)
  unfolding body_ended
  body_ended-Blocked p u true (lent c) = record { waits = refl; nothing = refl }
  body_ended-Blocked p u false (lent c) = record { waits = refl; nothing = refl }
  body_ended-Blocked p u counted outside = record { waits = refl; nothing = refl }
  body_ended-Blocked p u counted inside = record { waits = refl; nothing = refl }
  body_ended-Blocked p u counted (seeking m x) = record { waits = refl; nothing = refl }
  body_ended-Blocked p u counted (storing c) = record { waits = refl; nothing = refl }
  body_ended-Blocked p u counted (returning c) = record { waits = refl; nothing = refl }

  cancel-Blocked :
      (p : AsyncConnectionPool) (u : ℕ) (x : Phase)
      → Blocked t n connection (cancel (blocked p) u x)
  unfolding cancel
  cancel-Blocked p u outside = record { waits = refl; nothing = refl }
  cancel-Blocked p u inside = record { waits = refl; nothing = refl }
  cancel-Blocked p u (lent c) = record { waits = refl; nothing = refl }
  cancel-Blocked p u (seeking m none) = record { waits = refl; nothing = refl }
  cancel-Blocked p u (seeking m (some c)) = record { waits = refl; nothing = refl }
  cancel-Blocked p u (storing c) = record { waits = refl; nothing = refl }
  cancel-Blocked p u (returning c) = record { waits = refl; nothing = refl }

  blocked-step :
      (p : AsyncConnectionPool) (e : Event)
      → Elsewhere (e ∷ [])
      → Blocked t n connection (step (blocked p) e)
  unfolding step begin creation_ended creation_timed_out received perform_health_check
  blocked-step p (begins u validate) ok =
      either-Blocked (is_outside (p.phase u)) _ _ (record { waits = refl; nothing = refl })
        (record { waits = refl; nothing = refl })
  blocked-step p (gets_lock u validate) ok = record { waits = refl; nothing = refl }
  blocked-step p (creation_ends validate none) ok = record { waits = refl; nothing = refl }
  blocked-step p (creation_ends validate (some c)) ok = record { waits = refl; nothing = refl }
  blocked-step p creation_times_out ok = record { waits = refl; nothing = refl }
  blocked-step p (receives validate) ok = record { waits = refl; nothing = refl }
  blocked-step p times_out ok = elim ok [ ]
  blocked-step p holder_cancelled ok = elim ok [ ]
  blocked-step p health_check ok = record { waits = refl; nothing = refl }
  blocked-step p (body_ends u counted) ok = body_ended-Blocked p u counted (p.phase u)
  blocked-step p (cancelled u) ok = cancel-Blocked p u (p.phase u)

  step-Blocked :
      (p : AsyncConnectionPool) (e : Event)
      → Elsewhere (e ∷ [])
      → Blocked t n connection p
      → Blocked t n connection (step p e)
  step-Blocked p e ok b =
      subst (λ q. Blocked t n connection (step q e)) (blocked-eq p b) (blocked-step p e ok)

Elsewhere-head :
    (e : Event) (es : List Event) → Elsewhere (e ∷ es) → Elsewhere (e ∷ []) × Elsewhere es
Elsewhere-head times_out es h = elim h [ ]
Elsewhere-head holder_cancelled es h = elim h [ ]
Elsewhere-head (begins t validate) es h = (tt, h)
Elsewhere-head (gets_lock t validate) es h = (tt, h)
Elsewhere-head (creation_ends validate made) es h = (tt, h)
Elsewhere-head creation_times_out es h = (tt, h)
Elsewhere-head (receives validate) es h = (tt, h)
Elsewhere-head health_check es h = (tt, h)
Elsewhere-head (body_ends t counted) es h = (tt, h)
Elsewhere-head (cancelled t) es h = (tt, h)

run-Blocked :
    (t n : ℕ) (connection : Option ℕ) (p : AsyncConnectionPool) (es : List Event)
    → Elsewhere es
    → Blocked t n connection p
    → Blocked t n connection (run p es)
unfolding run
run-Blocked t n connection p [] elsewhere b = b
run-Blocked t n connection p (e ∷ es) elsewhere b =
    let (here, rest) = Elsewhere-head e es elsewhere in
    run-Blocked t n connection (step p e) es rest (step-Blocked t n connection p e here b)

-- Once an `acquire` has got the lock of a pool that has `max_connections` active connections and
-- none available, it waits for one in vain: whatever the tasks do, with as many bodies ended as
-- there are, it still waits with the lock and no connection has come back, until its wait times
-- out or is cancelled.
pub acquire_starves :
    (p : AsyncConnectionPool) (t n : ℕ) (connection : Option ℕ) (validate : ℕ → Bool)
    (es : List Event)
    → p.lock ≡ unlocked
    → p.phase t ≡ seeking n connection
    → p.available ≡ []
    → p.max_connections ≤ length p.active
    → Elsewhere es
    → Blocked t n connection (run p (gets_lock t validate ∷ es))
unfolding run step enter inspect
acquire_starves p t n connection validate es free seeks empty full elsewhere =
    run-Blocked t n connection (step p (gets_lock t validate)) es elsewhere (
      subst (λ l. Blocked t n connection (if is_free l then enter p t validate (p.phase t) else p))
        (sym free)
        (subst (λ x. Blocked t n connection (enter p t validate x)) (sym seeks)
          (subst (Blocked t n connection)
            (sym (
              if_false (ltb (length p.active + length p.available) p.max_connections) _ _ (
                ap (λ q. ltb (length p.active + length q) p.max_connections) empty
                ∙ ground (arith, full))))
            (record { waits = refl; nothing = empty }))))
