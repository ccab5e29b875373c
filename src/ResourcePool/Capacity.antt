-- ===== src/ResourcePool/Capacity.antt =====
-- The size of a pool against what it holds. A release that does not return its resource leaves
-- `current_size` as it was.
use omnimemory.Prelude.{
  ℕ, zero, suc, ◌+◌, ◌-◌, ◌≤◌, ◌<◌, ◌≡◌, ◌≢◌, refl, ◌⊎◌, Bool, true, Option, none, some, List, [],
  ◌∷◌, length, sum_by, ltb, if◌then◌else◌, arith,
}
use omnimemory.ResourcePool.{
  ResourceType, ResourcePool, blocked, new, add_created, fill, initialize, acquire_round, release,
  sift, check_expiration,
}
use omnimemory.ResourcePool.Calls.{
  Call, acquires, releases, expires, step, run, held, lent, made_by, held-acquire_round,
  held-release, gone_of, lost_by, waiting-sift,
}
use omnimemory.ResourcePool.Ownership.{answers, picked, held-fill}

abbrev pub any : ℕ → Bool
any r = true

-- The resources that the pool gave up, release by release.
unfoldable pub lost : ResourcePool → List Call → ℕ
lost p [] = 0
lost p (releases ref now answer ∷ cs) =
    lost_by any p ref now answer + lost (step p (releases ref now answer)) cs
lost p (acquires made now ∷ cs) = lost (step p (acquires made now)) cs
lost p (expires now ∷ cs) = lost (step p (expires now)) cs

size-acquire_round :
    (p : ResourcePool) (made : Option ℕ) (now : ℕ)
    → (acquire_round p made now).0.current_size ≡ p.current_size + made_by any p made
unfolding acquire_round
size-acquire_round p none now = ground arith
size-acquire_round p (some r) now = ground arith

size-release :
    (p : ResourcePool) (ref now : ℕ) (answer : Bool)
    → (release p ref now answer).current_size ≡ p.current_size
unfolding release
size-release p ref now answer = ground arith

size-sift :
    (ttl now : ℕ) (es : List (ℕ × ℕ)) (size : ℕ)
    → length es ≤ size
    → (sift ttl now es size).2 + gone_of any (sift ttl now es size).1 ≡ size
unfolding sift
size-sift ttl now [] size h = omega arith
size-sift ttl now (x ∷ es) size h =
    ground (arith, size-sift ttl now es (if ltb now (x.1 + ttl) then size else size - 1))

waiting-length : (es : List (ℕ × ℕ)) → sum_by (λ e. 1) es ≡ length es
waiting-length [] = refl
waiting-length (x ∷ es) = omega (arith, waiting-length es)

-- Size, what is held, and what was given up.
pub record IsCounted (p : ResourcePool) (given_up : ℕ) : Type 0 where
  pub counted : p.current_size ≡ held any p + given_up
  pub bounded : p.current_size ≤ p.max_size

max_size-step : (p : ResourcePool) (c : Call) → (step p c).max_size ≡ p.max_size
unfolding step acquire_round release check_expiration
max_size-step p (acquires made now) = ground arith
max_size-step p (releases ref now answer) = ground arith
max_size-step p (expires now) = ground arith

acquires-IsCounted :
    (p : ResourcePool) (made : Option ℕ) (now given_up : ℕ)
    → IsCounted p given_up
    → IsCounted (step p (acquires made now)) given_up
unfolding step
acquires-IsCounted p none now given_up c = record {
  counted = omega (arith, size-acquire_round p none now, held-acquire_round any p none now);
  bounded = omega (arith, size-acquire_round p none now, max_size-step p (acquires none now));
}
acquires-IsCounted p (some r) now given_up c = record {
  counted = omega (arith, size-acquire_round p (some r) now, held-acquire_round any p (some r) now);
  bounded =
      ground (arith, size-acquire_round p (some r) now, max_size-step p (acquires (some r) now));
}

releases-IsCounted :
    (p : ResourcePool) (ref now : ℕ) (answer : Bool) (given_up : ℕ)
    → IsCounted p given_up
    → IsCounted (step p (releases ref now answer)) (given_up + lost_by any p ref now answer)
unfolding step
releases-IsCounted p ref now answer given_up c = record {
  counted = omega (arith, size-release p ref now answer, held-release any p ref now answer);
  bounded = omega (arith, size-release p ref now answer, max_size-step p (releases ref now answer));
}

expires-IsCounted :
    (p : ResourcePool) (now given_up : ℕ)
    → IsCounted p given_up
    → IsCounted (step p (expires now)) given_up
unfolding step check_expiration
expires-IsCounted p now given_up c = go p.ttl refl
  where
    go : (t : Option ℕ) → p.ttl ≡ t → IsCounted (check_expiration p now).0 given_up
    go none e = rw (e, check_expiration) c
    go (some t) e =
        rw (e, check_expiration)
          (record {
            counted = omega (arith, swept t, waiting-sift any t now p.available p.current_size);
            bounded = omega (arith, swept t);
          })
      where
        swept :
            (t : ℕ)
            → (sift t now p.available p.current_size).2
                + gone_of any (sift t now p.available p.current_size).1
              ≡ p.current_size
        swept t =
            size-sift t now p.available p.current_size (omega (arith, waiting-length p.available))

run-IsCounted :
    (p : ResourcePool) (cs : List Call) (given_up : ℕ)
    → IsCounted p given_up
    → IsCounted (run p cs) (given_up + lost p cs)
unfolding run lost
run-IsCounted p [] given_up c = omega (arith, c)
run-IsCounted p (acquires made now ∷ cs) given_up c =
    run-IsCounted _ cs given_up (acquires-IsCounted p made now given_up c)
run-IsCounted p (releases ref now answer ∷ cs) given_up c = omega (
  arith,
  run-IsCounted (step p (releases ref now answer)) cs (given_up + lost_by any p ref now answer)
      (releases-IsCounted p ref now answer given_up c),
)
run-IsCounted p (expires now ∷ cs) given_up c =
    run-IsCounted _ cs given_up (expires-IsCounted p now given_up c)

size-add_created :
    (p : ResourcePool) (made : Option ℕ) (now : ℕ)
    → (add_created p made now).current_size ≡ p.current_size + picked any made
size-add_created p none now = omega arith
size-add_created p (some r) now = omega arith

size-fill :
    (p : ResourcePool) (n : ℕ) (factory : ℕ → Option ℕ) (clock : ℕ → ℕ)
    → (fill p n factory clock).current_size ≡ p.current_size + answers any n factory
unfolding fill
size-fill p zero factory clock = omega arith
size-fill p (suc n) factory clock = omega (
  arith,
  size-fill (add_created p (factory n) (clock n)) n factory clock,
  size-add_created p (factory n) (clock n),
)

max_size-fill :
    (p : ResourcePool) (n : ℕ) (factory : ℕ → Option ℕ) (clock : ℕ → ℕ)
    → (fill p n factory clock).max_size ≡ p.max_size
unfolding fill
max_size-fill p zero factory clock = refl
max_size-fill p (suc n) factory clock =
    ground (arith, max_size-fill (add_created p (factory n) (clock n)) n factory clock)

answers-le : (n : ℕ) (factory : ℕ → Option ℕ) → answers any n factory ≤ n
answers-le zero factory = omega arith
answers-le (suc n) factory = ground (arith, answers-le n factory)

max_size-run : (p : ResourcePool) (cs : List Call) → (run p cs).max_size ≡ p.max_size
unfolding run
max_size-run p [] = refl
max_size-run p (c ∷ cs) = omega (arith, max_size-run (step p c) cs, max_size-step p c)

with_room :
    (p : ResourcePool) (made : Option ℕ) (now : ℕ)
    → (1 ≤ length p.available) ⊎ (p.current_size < p.max_size)
    → (acquire_round p made now).1 ≢ blocked
unfolding acquire_round
with_room p none now room = ground arith
with_room p (some r) now room = ground arith

full :
    (p : ResourcePool) (made : Option ℕ) (now : ℕ)
    → length p.available ≡ 0
    → p.max_size ≤ p.current_size
    → (acquire_round p made now).1 ≡ blocked
unfolding acquire_round
full p made now empty size = ground arith

module _ (t : ResourceType) (min_size max_size : ℕ) (ttl : Option ℕ) (factory : ℕ → Option ℕ)
    (clock : ℕ → ℕ) where
  -- The pool as `initialize` leaves it.
  abbrev pub ready : ResourcePool
  ready = initialize (new t min_size max_size ttl) factory clock

  ready-IsCounted : min_size ≤ max_size → (IsCounted ready 0) × (ready.max_size ≡ max_size)
  unfolding initialize new
  ready-IsCounted h = omega (
    arith,
    size-fill (new t min_size max_size ttl) min_size factory clock,
    max_size-fill (new t min_size max_size ttl) min_size factory clock,
    held-fill any (new t min_size max_size ttl) min_size factory clock,
    answers-le min_size factory,
  )

  -- After any calls of a pool that was initialized with `min_size` at most `max_size`, its size
  -- is the number of resources that are lent or idle, and of those that releases gave up; and it
  -- is at most `max_size`.
  pub run_capacity :
      (cs : List Call)
      → min_size ≤ max_size
      → ((run ready cs).current_size ≡ held any (run ready cs) + lost ready cs)
        × ((run ready cs).current_size ≤ max_size)
  run_capacity cs h =
      let (c, m) = ready-IsCounted h in
      omega (arith, run-IsCounted ready cs 0 c, max_size-run ready cs, m)

  -- In a pool that was initialized with `min_size` at most `max_size`, while no release has given
  -- a resource up and fewer than `max_size` are lent, a round of `acquire` does not wait.
  pub acquire_with_room :
      (cs : List Call) (made : Option ℕ) (now : ℕ)
      → min_size ≤ max_size
      → lost ready cs ≡ 0
      → lent any (run ready cs) < max_size
      → (acquire_round (run ready cs) made now).1 ≢ blocked
  acquire_with_room cs made now h none_lost room = with_room (run ready cs) made now (
      ground (
        arith,
        run_capacity cs h,
        waiting-length (run ready cs).available,
        max_size-run ready cs,
        ready-IsCounted h,
      ))

  -- Once the releases of a pool with `min_size` at most `max_size` have given up `max_size`
  -- resources, a round of `acquire` waits, though nothing is lent, and whatever the factory would
  -- make.
  pub lost_capacity_blocks :
      (cs : List Call) (made : Option ℕ) (now : ℕ)
      → min_size ≤ max_size
      → max_size ≤ lost ready cs
      → ((acquire_round (run ready cs) made now).1 ≡ blocked) × (lent any (run ready cs) ≡ 0)
  lost_capacity_blocks cs made now h all_lost =
      let (size, small) = run_capacity cs h in
      let (c, m) = ready-IsCounted h in
      (
        full (run ready cs) made now (omega (arith, waiting-length (run ready cs).available))
            (omega (arith, max_size-run ready cs)),
        omega arith,
      )
