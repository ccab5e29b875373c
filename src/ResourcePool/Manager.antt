-- ===== src/ResourcePool/Manager.antt =====
-- `ResourceManager` of src/omnimemory/adapters/adapter_resource_manager.py: the pools by resource
-- type, and the counts of operations. A handle is named by its type and its place in that pool.
-- Closing a resource (`_close_resource`) changes no state of the manager.
use omnimemory.Prelude.{
  ℕ, ◌+◌, ◌≡◌, ◌≢◌, refl, ◌↔◌, ◌⊎◌, inl, inr, Bool, true, Option, none, some, List, [], ◌∷◌, ◌++◌,
  Result, ok, err, length, map, sum_by, ◌==◌ as nat_eq, arith, Option-cases,
}
use omnimemory.Prelude.Equality.{Eq}
use omnimemory.Prelude.Dict.{Dict, lookup, insert, lookup-insert_self, lookup-insert_ne}
use omnimemory.ResourcePool.{
  ResourceType, database, memory, cache, network, storage, file, ResourcePool, Round, new,
  initialize, acquire_round, release, check_expiration, shutdown_pool,
}

abbrev pub type_index : ResourceType → ℕ
type_index database = 0
type_index memory = 1
type_index cache = 2
type_index network = 3
type_index storage = 4
type_index file = 5

pub type_eq_iff : (a b : ResourceType) → (nat_eq (type_index a) (type_index b) ≡ true) ↔ (a ≡ b)
type_eq_iff a b = ground arith

instance abbrev pub eq_ResourceType : Eq ResourceType
eq_ResourceType = record {
  equal = λ a b. nat_eq (type_index a) (type_index b);
  equal_iff = type_eq_iff;
}

pub record ResourceManager : Type 0 where
  pub resource_pools : Dict ResourceType ResourcePool
  pub total_operations : ℕ
  pub total_acquisitions : ℕ
  pub total_releases : ℕ

unfoldable pub init : ResourceManager
init = record {
  resource_pools = [];
  total_operations = 0;
  total_acquisitions = 0;
  total_releases = 0;
}

-- A new pool takes the place of one of its type.
unfoldable pub register_pool :
    ResourceManager → ResourceType → ℕ → ℕ → Option ℕ → (ℕ → Option ℕ) → (ℕ → ℕ) → ResourceManager
register_pool m t min_size max_size ttl factory clock = record m {
  resource_pools =
      insert t (initialize (new t min_size max_size ttl) factory clock) m.resource_pools;
}

-- `ValueError`: no pool is registered for the type.
pub data ManagerError : Type 0 where
  no_pool : ResourceType → ManagerError

-- `acquire` up to the end of the pool's first round, with what a first `initialize` would see.
unfoldable pub acquire :
    ResourceManager
    → ResourceType
    → (ℕ → Option ℕ)
    → (ℕ → ℕ)
    → Option ℕ
    → ℕ
    → Result ManagerError (ResourceManager × Round)
acquire m t factory clock made now = elim (lookup t m.resource_pools) [
  | none ↦ err (no_pool t)
  | some pool ↦
      let (pool', r) = acquire_round (initialize pool factory clock) made now in
      ok (
        record {
          resource_pools = insert t pool' m.resource_pools;
          total_operations = m.total_operations + 1;
          total_acquisitions = m.total_acquisitions + 1;
          total_releases = m.total_releases;
        },
        r,
      )
]

-- A later round of an `acquire` that had to wait.
unfoldable pub retry :
    ResourceManager → ResourceType → Option ℕ → ℕ → Result ManagerError (ResourceManager × Round)
retry m t made now = elim (lookup t m.resource_pools) [
  | none ↦ err (no_pool t)
  | some pool ↦
      let (pool', r) = acquire_round pool made now in
      ok (record m { resource_pools = insert t pool' m.resource_pools }, r)
]

unfoldable pub release_in : ResourceManager → ResourceType → ℕ → ℕ → Bool → ResourceManager
release_in m t ref now answer = elim (lookup t m.resource_pools) [
  | none ↦ m
  | some pool ↦ record {
    resource_pools = insert t (release pool ref now answer) m.resource_pools;
    total_operations = m.total_operations + 1;
    total_acquisitions = m.total_acquisitions;
    total_releases = m.total_releases + 1;
  }
]

-- `_check_resource_expiration`, with the resources that it closes.
unfoldable pub check_resource_expiration :
    ResourceManager → ResourceType → ℕ → ResourceManager × List ℕ
check_resource_expiration m t now = elim (lookup t m.resource_pools) [
  | none ↦ (m, [])
  | some pool ↦
      let (pool', gone) = check_expiration pool now in
      (record m { resource_pools = insert t pool' m.resource_pools }, gone)
]

-- The loop of `shutdown` over the pools, with the resources that it closes, when no other call
-- falls between two pools.
unfoldable pub shutdown_pools :
    Dict ResourceType ResourcePool → Dict ResourceType ResourcePool × List ℕ
shutdown_pools [] = ([], [])
shutdown_pools ((t, pool) ∷ d) =
    let (pool', closed) = shutdown_pool pool in
    let (d', rest) = shutdown_pools d in ((t, pool') ∷ d', closed ++ rest)

unfoldable pub shutdown : ResourceManager → ResourceManager × List ℕ
unfolding shutdown_pools
shutdown m =
    let (d, closed) = shutdown_pools m.resource_pools in (record m { resource_pools = d }, closed)

pub record PoolStats : Type 0 where
  pub resource_type : ResourceType
  pub current_size : ℕ
  pub min_size : ℕ
  pub max_size : ℕ
  pub active_count : ℕ
  pub available_count : ℕ

-- `none` is the dict with the entry "error".
unfoldable pub get_pool_stats : ResourceManager → ResourceType → Option PoolStats
get_pool_stats m t = elim (lookup t m.resource_pools) [
  | none ↦ none
  | some pool ↦ some (record {
    resource_type = t;
    current_size = pool.current_size;
    min_size = pool.min_size;
    max_size = pool.max_size;
    active_count = length pool.active_resources;
    available_count = length pool.available;
  })
]

pub record Metrics : Type 0 where
  pub total_pools : ℕ
  pub total_resources : ℕ
  pub resource_types : List ResourceType
  pub total_operations : ℕ
  pub total_acquisitions : ℕ
  pub total_releases : ℕ

unfoldable pub get_metrics : ResourceManager → Metrics
get_metrics m = record {
  total_pools = length m.resource_pools;
  total_resources = sum_by (λ e. e.1.current_size) m.resource_pools;
  resource_types = map (λ e. e.0) m.resource_pools;
  total_operations = m.total_operations;
  total_acquisitions = m.total_acquisitions;
  total_releases = m.total_releases;
}

-- The operations that count, and those that do not, leave the pools of other types alone.
abbrev pub Untouched : ResourceType → ResourceManager → ResourceManager → Type 0
Untouched t m m' =
    (u : ResourceType) → t ≢ u → lookup u m'.resource_pools ≡ lookup u m.resource_pools

-- `acquire` raises exactly where no pool of the type is registered. Otherwise it counts one
-- operation and one acquisition, stores what the round made of the pool, and touches no other
-- pool.
pub acquire_lem :
    (m : ResourceManager) (t : ResourceType) (factory : ℕ → Option ℕ) (clock : ℕ → ℕ)
    (made : Option ℕ) (now : ℕ)
    → ((lookup t m.resource_pools ≡ none) × (acquire m t factory clock made now ≡ err (no_pool t)))
      ⊎ ((pool : ResourcePool) × (m' : ResourceManager) × (lookup t m.resource_pools ≡ some pool)
          × (acquire m t factory clock made now
              ≡ ok (m', (acquire_round (initialize pool factory clock) made now).1))
          × (lookup t m'.resource_pools
              ≡ some (acquire_round (initialize pool factory clock) made now).0)
          × (m'.total_operations ≡ m.total_operations + 1)
          × (m'.total_acquisitions ≡ m.total_acquisitions + 1)
          × Untouched t m m')
unfolding acquire
acquire_lem m t factory clock made now = elim (Option-cases (lookup t m.resource_pools)) [
  | inl e ↦ inl (e, rw (e, acquire))
  | inr (pool, e) ↦ inr (
    pool,
    record {
      resource_pools =
          insert t (acquire_round (initialize pool factory clock) made now).0 m.resource_pools;
      total_operations = m.total_operations + 1;
      total_acquisitions = m.total_acquisitions + 1;
      total_releases = m.total_releases;
    },
    e,
    rw (e, acquire),
    lookup-insert_self t (acquire_round (initialize pool factory clock) made now).0
        m.resource_pools,
    refl,
    refl,
    λ u h.
        lookup-insert_ne t u (acquire_round (initialize pool factory clock) made now).0
          m.resource_pools h,
  )
]
