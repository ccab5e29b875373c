-- ===== src/ResourcePool/Calls.antt =====
-- Histories of a pool, and how each call moves resources between callers and the pool.
use omnimemory.Prelude.{
  is_nonempty, ℕ, ◌+◌, ◌-◌, ◌≡◌, refl, inl, inr, Bool, not, ◌&&◌, Option, none, some, List, [], ◌∷◌,
  get_elem?, sum_by, sum_by-append, sum_by-set, ltb, if◌then◌else◌, Option-cases, arith,
}
use omnimemory.ResourcePool.{
  ResourceHandle, ResourcePool, is_active, released, new_handle, is_healthy, is_expired,
  acquire_round, release, sift, check_expiration,
}

pub data Call : Type 0 where
  acquires : Option ℕ → ℕ → Call
  releases : ℕ → ℕ → Bool → Call
  expires : ℕ → Call

unfoldable pub step : ResourcePool → Call → ResourcePool
step p (acquires made now) = (acquire_round p made now).0
step p (releases ref now answer) = release p ref now answer
step p (expires now) = (check_expiration p now).0

unfoldable pub run : ResourcePool → List Call → ResourcePool
run p [] = p
run p (c ∷ cs) = run (step p c) cs

-- One for a handle in use, or an idle entry, that the test `on` picks by its resource.
module _ (on : ℕ → Bool) where
  abbrev pub in_use : ResourceHandle → ℕ
  in_use h = if is_active h.status && on h.resource then 1 else 0

  abbrev pub idle : ℕ × ℕ → ℕ
  idle e = if on e.0 then 1 else 0

  -- The resources that the pool accounts for: lent to a caller, or idle in the pool.
  abbrev pub lent : ResourcePool → ℕ
  lent p = sum_by in_use p.handles

  abbrev pub waiting : ResourcePool → ℕ
  waiting p = sum_by idle p.available

  abbrev pub held : ResourcePool → ℕ
  held p = lent p + waiting p

  -- The resource that a round of `acquire` makes, if it makes one.
  abbrev pub made_by : ResourcePool → Option ℕ → ℕ
  made_by p none = 0
  made_by p (some r) =
      if not (is_nonempty p.available) && ltb p.current_size p.max_size && on r then 1 else 0

  -- Acquiring moves an idle resource to its holder, or adds the one that is made.
  pub held-acquire_round :
      (p : ResourcePool) (made : Option ℕ) (now : ℕ)
      → held (acquire_round p made now).0 ≡ held p + made_by p made
  unfolding acquire_round
  held-acquire_round p made now = go p.available refl made
    where
      go :
          (a : List (ℕ × ℕ))
          → p.available ≡ a
          → (m : Option ℕ) → held (acquire_round p m now).0 ≡ held p + made_by p m
      go [] e none = ground arith
      go [] e (some r) = ground (arith, sum_by-append in_use p.handles (new_handle p r now ∷ []))
      go (x ∷ rest) e none =
          ground (arith, sum_by-append in_use p.handles (new_handle p x.0 now ∷ []))
      go (x ∷ rest) e (some r) =
          ground (arith, sum_by-append in_use p.handles (new_handle p x.0 now ∷ []))

  -- Whether a release returns its resource to the pool.
  abbrev returns : ResourceHandle → ℕ → Bool → Bool
  returns h now answer = is_healthy h answer && not (is_expired h now)

  -- The resource that a release gives up, if it gives one up: that of a handle in use that is
  -- unhealthy or expired.
  abbrev pub lost_handle : ResourceHandle → ℕ → Bool → ℕ
  lost_handle h now answer =
      if is_active h.status && not (returns h now answer) && on h.resource then 1 else 0

  abbrev pub lost_by : ResourcePool → ℕ → ℕ → Bool → ℕ
  lost_by p ref now answer = elim (get_elem? p.handles ref) [
    | none ↦ 0
    | some h ↦ lost_handle h now answer
  ]

  pub held-release :
      (p : ResourcePool) (ref now : ℕ) (answer : Bool)
      → held (release p ref now answer) + lost_by p ref now answer ≡ held p
  unfolding release is_healthy
  held-release p ref now answer = elim (Option-cases (get_elem? p.handles ref)) [
    | inl e ↦ rw (e, release, lost_by) (omega arith)
    | inr (h, e) ↦
        rw (e, release, lost_by)
          (ground (arith, sum_by-set in_use p.handles ref h (record h { status = released }) e))
  ]

  -- The expired resources.
  abbrev pub gone_of : List ℕ → ℕ
  gone_of = sum_by (λ r. if on r then 1 else 0)

  pub waiting-sift :
      (ttl now : ℕ) (es : List (ℕ × ℕ)) (size : ℕ)
      → sum_by idle (sift ttl now es size).0 + gone_of (sift ttl now es size).1 ≡ sum_by idle es
  unfolding sift
  waiting-sift ttl now [] size = refl
  waiting-sift ttl now (x ∷ es) size =
      ground (arith, waiting-sift ttl now es (if ltb now (x.1 + ttl) then size else size - 1))

  -- What expires leaves the pool, and what is lent stays lent.
  pub held-check_expiration :
      (p : ResourcePool) (now : ℕ)
      → held (check_expiration p now).0 + gone_of (check_expiration p now).1 ≡ held p
  unfolding check_expiration
  held-check_expiration p now = go p.ttl refl
    where
      go :
          (t : Option ℕ)
          → p.ttl ≡ t
          → held (check_expiration p now).0 + gone_of (check_expiration p now).1 ≡ held p
      go none e = rw (e, check_expiration) (omega arith)
      go (some t) e =
          rw (e, check_expiration) (omega (arith, waiting-sift t now p.available p.current_size))
