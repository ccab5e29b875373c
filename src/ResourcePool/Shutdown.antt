-- ===== src/ResourcePool/Shutdown.antt =====
-- The shutdown of the manager: the pools are emptied, and the handles in use are marked as
-- released.
use omnimemory.Prelude.{
  ℕ, suc, zero, ◌≡◌, refl, ◌⊎◌, inl, inr, some, List, [], ◌∷◌, get_elem?, set, arith, Option-cases,
}
use omnimemory.Prelude.Equality.{eq_ℕ}
use omnimemory.Prelude.Dict.{Dict, lookup}
use omnimemory.ResourcePool.{
  ResourceType, ResourceHandle, ResourcePool, released, mark_released, mark_all, shutdown_pool,
}
use omnimemory.ResourcePool.Manager.{ResourceManager, eq_ResourceType, shutdown_pools, shutdown}

-- The handle at a position, if there is one, is released.
abbrev pub ReleasedAt : List ResourceHandle → ℕ → Type 0
ReleasedAt hs ref = (h : ResourceHandle) → get_elem? hs ref ≡ some h → h.status ≡ released

set-ReleasedAt :
    (hs : List ResourceHandle) (ref j : ℕ) (h : ResourceHandle)
    → h.status ≡ released
    → (ReleasedAt hs j ⊎ (ref ≡ j))
    → ReleasedAt (set hs ref h) j
set-ReleasedAt [] ref j h done or x e = cc
set-ReleasedAt (k ∷ hs) zero zero h done or x e = ground arith
set-ReleasedAt (k ∷ hs) zero (suc j) h done (inl old) x e = old x e
set-ReleasedAt (k ∷ hs) zero (suc j) h done (inr same) x e = absurd (omega (arith, same))
set-ReleasedAt (k ∷ hs) (suc ref) zero h done (inl old) x e = old x e
set-ReleasedAt (k ∷ hs) (suc ref) zero h done (inr same) x e = absurd (omega (arith, same))
set-ReleasedAt (k ∷ hs) (suc ref) (suc j) h done (inl old) x e =
    set-ReleasedAt hs ref j h done (inl old) x e
set-ReleasedAt (k ∷ hs) (suc ref) (suc j) h done (inr same) x e =
    set-ReleasedAt hs ref j h done (inr (omega (arith, same))) x e

mark_released-ReleasedAt :
    (hs : List ResourceHandle) (ref j : ℕ)
    → (ReleasedAt hs j ⊎ (ref ≡ j))
    → ReleasedAt (mark_released hs ref) j
mark_released-ReleasedAt hs ref j or = elim (Option-cases (get_elem? hs ref)) [
  | inl e ↦ elim or [
    | inl old ↦ rw (e, mark_released) old
    | inr same ↦ rw (← same, e, mark_released) (λ h f. cc (e, f))
  ]
  | inr (h, e) ↦
      rw (e, mark_released) (set-ReleasedAt hs ref j (record h { status = released }) refl or)
]

mark_all_keeps :
    (hs : List ResourceHandle) (d : Dict ℕ ℕ) (j : ℕ)
    → ReleasedAt hs j
    → ReleasedAt (mark_all hs d) j
unfolding mark_all
mark_all_keeps hs [] j old = old
mark_all_keeps hs ((r, ref) ∷ d) j old =
    mark_all_keeps (mark_released hs ref) d j (mark_released-ReleasedAt hs ref j (inl old))

mark_all-ReleasedAt :
    (hs : List ResourceHandle) (d : Dict ℕ ℕ) (r j : ℕ)
    → lookup r d ≡ some j
    → ReleasedAt (mark_all hs d) j
unfolding mark_all
mark_all-ReleasedAt hs [] r j e = cc
mark_all-ReleasedAt hs ((k, ref) ∷ d) r j e = elim (first k ref d r j e) [
  | inl same ↦
      mark_all_keeps (mark_released hs ref) d j (mark_released-ReleasedAt hs ref j (inr same))
  | inr later ↦ mark_all-ReleasedAt (mark_released hs ref) d r j later
]
  where
    first :
        (k ref : ℕ) (d : Dict ℕ ℕ) (r j : ℕ)
        → lookup r ((k, ref) ∷ d) ≡ some j
        → (ref ≡ j) ⊎ (lookup r d ≡ some j)
    first k ref d r j e = ground arith

lookup-shutdown_pools :
    (d : Dict ResourceType ResourcePool) (t : ResourceType) (pool : ResourcePool)
    → lookup t d ≡ some pool
    → lookup t (shutdown_pools d).0 ≡ some (shutdown_pool pool).0
unfolding shutdown_pools
lookup-shutdown_pools [] t pool e = cc
lookup-shutdown_pools ((u, p) ∷ d) t pool e = ground (arith, lookup-shutdown_pools d t pool)

-- After a `shutdown` with no other call between its pools, every registered pool is still there,
-- with nothing idle, no entry in use and a size of 0, and every handle that had an entry is
-- released.
pub shutdown_empties :
    (m : ResourceManager) (t : ResourceType) (pool : ResourcePool)
    → lookup t m.resource_pools ≡ some pool
    → (after : ResourcePool) × (lookup t (shutdown m).0.resource_pools ≡ some after)
      × (after.available ≡ [])
      × (after.active_resources ≡ [])
      × (after.current_size ≡ 0)
      × ((r ref : ℕ) → lookup r pool.active_resources ≡ some ref → ReleasedAt after.handles ref)
unfolding shutdown shutdown_pool
shutdown_empties m t pool e = (
  (shutdown_pool pool).0,
  lookup-shutdown_pools m.resource_pools t pool e,
  refl,
  refl,
  refl,
  λ r ref f. mark_all-ReleasedAt pool.handles pool.active_resources r ref f,
)
