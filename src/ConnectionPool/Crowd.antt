-- ===== src/ConnectionPool/Crowd.antt =====
-- How many connections a pool comes to have when many tasks ask for one at once. The look at the
-- capacity counts the available and the active connections, and a connection that has been created
-- is active only once its task has got the lock a second time.
use mathlib.Core.Path.{subst}
use omnimemory.Prelude.{
  ℕ, zero, suc, ◌+◌, ◌≤◌, ◌<◌, ◌≡◌, refl, sym, ap, ◌∙◌, Bool, true, none, some, List, [], ◌∷◌, ◌++◌,
  length, ltb, if◌then◌else◌, if_true, ◌==◌, arith, Bool-cases, inl, inr,
}
use omnimemory.Prelude.Equality.{eq_ℕ}
use omnimemory.ConnectionPool.{
  AsyncConnectionPool, new, outside, inside, seeking, storing, unlocked, creating, at_phase,
  obtained, begin, inspect, enter, Event, begins, gets_lock, creation_ends, is_outside, is_free,
  creation_ended, step, run,
}

abbrev any : ℕ → Bool
any c = true

-- So many tasks begin, one after another; then each gets the lock, in the same order, and its
-- connection is created, while the others wait for the lock.
abbrev pub begin_all : ℕ → List Event
begin_all zero = []
begin_all (suc k) = begins k any ∷ begin_all k

abbrev pub create_all : ℕ → List Event
create_all zero = []
create_all (suc k) = gets_lock k any ∷ creation_ends any (some k) ∷ create_all k

-- A pool without connections that a task could count, with its lock free.
record IsBare (p : AsyncConnectionPool) : Type 0 where
  none_available : p.available ≡ []
  none_active : p.active ≡ []
  free : p.lock ≡ unlocked
  room : 1 ≤ p.max_connections

module _ (p : AsyncConnectionPool) (k : ℕ) (bare : IsBare p) where
  begin_one : p.phase k ≡ outside → step p (begins k any) ≡ at_phase p k (seeking 3 none)
  unfolding step begin
  begin_one out =
      ap (λ x. if is_outside x then begin p k any else p) out
      ∙ ap
          (λ q. elim q [
            | [] ↦ at_phase p k (seeking 3 none)
            | d ∷ others ↦ obtained 3 (record p { available = others }) k any d
          ])
          bare.none_available

  abbrev looking : AsyncConnectionPool
  looking = record (at_phase p k inside) { lock = creating k 3 none }

  has_room : ltb (length p.active + length p.available) p.max_connections ≡ true
  has_room =
      ap (λ q. ltb (length q + length p.available) p.max_connections) bare.none_active
      ∙ ap (λ q. ltb (0 + length q) p.max_connections) bare.none_available
      ∙ ground (arith, bare.room)

  look_one : p.phase k ≡ seeking 3 none → step p (gets_lock k any) ≡ looking
  unfolding step enter inspect
  look_one seeks =
      ap (λ l. if is_free l then enter p k any (p.phase k) else p) bare.free
      ∙ ap (enter p k any) seeks
      ∙ if_true (ltb (length p.active + length p.available) p.max_connections) _ _ has_room

  -- The connection is at hand, and its task waits for the lock.
  abbrev made : AsyncConnectionPool
  made =
      at_phase
        (record looking {
          lock = unlocked;
          metrics = record (p.metrics) { total_created = p.metrics.total_created + 1 };
        })
        k (storing k)

  create_one :
      p.phase k ≡ seeking 3 none → run p (gets_lock k any ∷ creation_ends any (some k) ∷ []) ≡ made
  unfolding run step creation_ended obtained
  create_one seeks = ap (λ q. step q (creation_ends any (some k))) (look_one seeks)

  made-IsBare : IsBare made
  made-IsBare = record {
    none_available = bare.none_available;
    none_active = bare.none_active;
    free = refl;
    room = bare.room;
  }

run-two :
    (p : AsyncConnectionPool) (d e : Event) (es : List Event)
    → run p (d ∷ e ∷ es) ≡ run (run p (d ∷ e ∷ [])) es
unfolding run
run-two p d e es = refl

-- What the tasks below `k` come to when each has its connection created.
record Crowded (k : ℕ) (p q : AsyncConnectionPool) : Type 0 where
  each_holds : (u : ℕ) → u < k → q.phase u ≡ storing u
  others_stay : (u : ℕ) → k ≤ u → q.phase u ≡ p.phase u
  created : q.metrics.total_created ≡ p.metrics.total_created + k
  destroyed : q.metrics.total_destroyed ≡ p.metrics.total_destroyed

run-create_all :
    (k : ℕ) (p : AsyncConnectionPool)
    → IsBare p
    → ((u : ℕ) → u < k → p.phase u ≡ seeking 3 none)
    → Crowded k p (run p (create_all k))
unfolding run
run-create_all zero p bare seek = record {
  each_holds = λ u h. absurd (omega (arith, h));
  others_stay = λ u h. refl;
  created = omega arith;
  destroyed = refl;
}
run-create_all (suc k) p bare seek =
    let below : (u : ℕ) → u < k → (made p k bare).phase u ≡ seeking 3 none =
      λ u h. ground (arith, seek u (omega (arith, h)), h) in
    let rest = run-create_all k (made p k bare) (made-IsBare p k bare) below in
    rw
      (
        run-two p (gets_lock k any) (creation_ends any (some k)) (create_all k),
        create_one p k bare (seek k (omega arith)),
      )
      (record {
        each_holds = λ u h. elim (Bool-cases (k == u)) [
          | inl e ↦ rest.others_stay u (ground arith) ∙ ground arith
          | inr e ↦ rest.each_holds u (ground arith)
        ];
        others_stay = λ u h. rest.others_stay u (omega arith) ∙ ground arith;
        created = omega (arith, rest.created);
        destroyed = rest.destroyed;
      })

-- What the tasks below `k` come to when each has begun.
record Begun (k : ℕ) (p q : AsyncConnectionPool) : Type 0 where
  each_seeks : (u : ℕ) → u < k → q.phase u ≡ seeking 3 none
  bare : IsBare q
  others_stay : (u : ℕ) → k ≤ u → q.phase u ≡ p.phase u
  same : q.metrics ≡ p.metrics

run-begin_all :
    (k : ℕ) (p : AsyncConnectionPool)
    → IsBare p
    → ((u : ℕ) → u < k → p.phase u ≡ outside)
    → Begun k p (run p (begin_all k))
unfolding run
run-begin_all zero p bare out = record {
  each_seeks = λ u h. absurd (omega (arith, h));
  bare = bare;
  others_stay = λ u h. refl;
  same = refl;
}
run-begin_all (suc k) p bare out =
    let q : AsyncConnectionPool = at_phase p k (seeking 3 none) in
    let below : (u : ℕ) → u < k → q.phase u ≡ outside =
      λ u h. ground (arith, out u (omega (arith, h)), h) in
    let rest =
      run-begin_all k q
        (record {
          none_available = bare.none_available;
          none_active = bare.none_active;
          free = bare.free;
          room = bare.room;
        })
        below in
    subst (λ x. Begun (suc k) p (run x (begin_all k)))
      (sym (begin_one p k bare (out k (omega arith))))
      (record {
        each_seeks = λ u h. elim (Bool-cases (k == u)) [
          | inl e ↦ rest.others_stay u (ground arith) ∙ ground arith
          | inr e ↦ rest.each_seeks u (ground arith)
        ];
        bare = rest.bare;
        others_stay = λ u h. rest.others_stay u (omega arith) ∙ ground arith;
        same = rest.same;
      })

run-append : (p : AsyncConnectionPool) (ds es : List Event) → run p (ds ++ es) ≡ run (run p ds) es
unfolding run
run-append p [] es = refl
run-append p (d ∷ ds) es = run-append (step p d) ds es

-- However small `max_connections` is: where `k` tasks begin at once on a new pool, and each in
-- turn gets the lock and its connection is created, `k` connections are created, none is
-- destroyed, and each task holds its own.
pub crowd_exceeds :
    (k max_connections min_connections : ℕ)
    → 1 ≤ max_connections
    → let q = run (new max_connections min_connections) (begin_all k ++ create_all k) in
      ((u : ℕ) → u < k → q.phase u ≡ storing u)
      × (q.metrics.total_created ≡ k)
      × (q.metrics.total_destroyed ≡ 0)
unfolding new
crowd_exceeds k max_connections min_connections room =
    let start = new max_connections min_connections in
    let begun =
      run-begin_all k start
        (record { none_available = refl; none_active = refl; free = refl; room = room })
        (λ u h. refl) in
    let crowd = run-create_all k (run start (begin_all k)) begun.bare begun.each_seeks in
    rw (run-append start (begin_all k) (create_all k)) (
      crowd.each_holds,
      crowd.created ∙ ap (λ m. m.total_created + k) begun.same ∙ omega arith,
      crowd.destroyed ∙ ap (λ m. m.total_destroyed) begun.same,
    )
