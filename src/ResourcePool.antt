-- ===== src/ResourcePool.antt =====
-- `ResourceHandle` and `ResourcePool` of src/omnimemory/adapters/adapter_resource_manager.py.
-- A resource is a number, its `id`. Handles are objects that the pool and its callers share, so
-- they stand in a heap and are referred to by their position. A section under the pool's lock is
-- one step. The clock, what the factory makes and what `resource.is_healthy()` answers are
-- arguments. The settings that the pool only stores are left out, and so is logging.
pub mod Calls
pub mod Ownership
pub mod Capacity
pub mod Manager
pub mod Shutdown
mod Tests
use omnimemory.Prelude.{
  is_nonempty, ℕ, zero, suc, ◌+◌, ◌-◌, Bool, true, false, not, ◌&&◌, Option, none, some, List, [],
  ◌∷◌, ◌++◌, String, map, ltb, leb, length, get_elem?, set, if◌then◌else◌,
}
use omnimemory.Prelude.Equality.{Eq, eq_ℕ, eq_String}
use omnimemory.Prelude.Dict.{Dict, lookup, insert, erase}

pub data ResourceType : Type 0 where
  database memory cache network storage file : ResourceType

pub data ResourceStatus : Type 0 where
  active released expired failed : ResourceStatus

abbrev pub is_active : ResourceStatus → Bool
is_active active = true
is_active _ = false

pub record ResourceHandle : Type 0 where
  pub resource : ℕ
  pub resource_type : ResourceType
  pub status : ResourceStatus
  pub created_at : ℕ
  pub ttl : Option ℕ
  pub context : Dict String ℕ

-- `resource_id` is always `id(resource)`.
abbrev pub resource_id : ResourceHandle → ℕ
resource_id h = h.resource

-- `answer` is that of the resource's own `is_healthy`, or true where it has none.
unfoldable pub is_healthy : ResourceHandle → Bool → Bool
is_healthy h answer = if not (is_active h.status) then false else answer

abbrev pub past : ℕ → Option ℕ → ℕ → Bool
past created_at none now = false
past created_at (some ttl) now = leb (created_at + ttl) now

unfoldable pub is_expired : ResourceHandle → ℕ → Bool
is_expired h now = past h.created_at h.ttl now

unfoldable pub set_context : ResourceHandle → String → ℕ → ResourceHandle
set_context h key value = record h { context = insert key value h.context }

unfoldable pub get_context : ResourceHandle → String → Option ℕ
get_context h key = lookup key h.context

unfoldable pub clear_context : ResourceHandle → ResourceHandle
clear_context h = record h { context = [] }

-- `available` has the end of the Python list first, (resource, added time); `active_resources`
-- maps an id to a handle.
pub record ResourcePool : Type 0 where
  pub resource_type : ResourceType
  pub min_size : ℕ
  pub max_size : ℕ
  pub ttl : Option ℕ
  pub available : List (ℕ × ℕ)
  pub active_resources : Dict ℕ ℕ
  pub current_size : ℕ
  pub available_event : Bool
  pub initialized : Bool
  pub handles : List ResourceHandle

-- `__init__`
unfoldable pub new : ResourceType → ℕ → ℕ → Option ℕ → ResourcePool
new resource_type min_size max_size ttl = record {
  resource_type = resource_type;
  min_size = min_size;
  max_size = max_size;
  ttl = ttl;
  available = [];
  active_resources = [];
  current_size = 0;
  available_event = false;
  initialized = false;
  handles = [];
}

-- A resource that the factory made is added; `none` is no factory, a factory that raised, or an
-- object that counts as false.
abbrev pub add_created : ResourcePool → Option ℕ → ℕ → ResourcePool
add_created p none now = p
add_created p (some r) now = record p {
  available = (r, now) ∷ p.available;
  current_size = p.current_size + 1;
}

-- The loop of `initialize`, with the factory's answers and the clock by round.
unfoldable pub fill : ResourcePool → ℕ → (ℕ → Option ℕ) → (ℕ → ℕ) → ResourcePool
fill p zero factory clock = p
fill p (suc n) factory clock = fill (add_created p (factory n) (clock n)) n factory clock

unfoldable pub initialize : ResourcePool → (ℕ → Option ℕ) → (ℕ → ℕ) → ResourcePool
unfolding fill
initialize p factory clock =
    if p.initialized
    then p
    else (let q = fill p p.min_size factory clock in
        record q {
          initialized = true;
          available_event = if is_nonempty q.available then true else q.available_event;
        })

-- One round of `acquire` under the lock: a handle, `ResourceAllocationError`, or a wait.
pub data Round : Type 0 where
  acquired : ℕ → Round
  allocation_error : Round
  blocked : Round

abbrev pub new_handle : ResourcePool → ℕ → ℕ → ResourceHandle
new_handle p r now = record {
  resource = r;
  resource_type = p.resource_type;
  status = active;
  created_at = now;
  ttl = p.ttl;
  context = [];
}

-- A new handle for a resource, registered under its id.
unfoldable pub lend : ResourcePool → ℕ → ℕ → ResourcePool × Round
lend p r now = (
  record p {
    active_resources = insert r (length p.handles) p.active_resources;
    handles = p.handles ++ new_handle p r now ∷ [];
  },
  acquired (length p.handles),
)

-- What happens where no resource is available.
unfoldable pub create_or_wait : ResourcePool → Option ℕ → ℕ → ResourcePool × Round
unfolding lend
create_or_wait p made now =
    if ltb p.current_size p.max_size
    then elim made [
      | none ↦ (p, allocation_error)
      | some r ↦ lend (record p { current_size = p.current_size + 1 }) r now
    ]
    else (record p { available_event = false }, blocked)

unfoldable pub acquire_round : ResourcePool → Option ℕ → ℕ → ResourcePool × Round
unfolding lend create_or_wait
acquire_round p made now = elim p.available [
  | [] ↦ create_or_wait p made now
  | e ∷ rest ↦ lend (record p { available = rest }) e.0 now
]

-- The end of a round that has to wait: `ResourceTimeoutError` once the timeout has elapsed.
unfoldable pub gives_up : ℕ → ℕ → ℕ → Bool
gives_up start_time timeout now = leb (start_time + timeout) now

-- `release` of a handle at its position; a caller always has a handle that exists.
unfoldable pub release_handle : ResourcePool → ℕ → ResourceHandle → ℕ → Bool → ResourcePool
unfolding is_healthy is_expired
release_handle p ref h now answer =
    let done = record p {
      active_resources = erase (resource_id h) p.active_resources;
      handles = set p.handles ref (record h { status = released });
    } in
    if is_healthy h answer && not (is_expired h now)
    then record done { available = (h.resource, now) ∷ p.available; available_event = true }
    else done

unfoldable pub release : ResourcePool → ℕ → ℕ → Bool → ResourcePool
unfolding release_handle
release p ref now answer = elim (get_elem? p.handles ref) [
  | none ↦ p
  | some h ↦ release_handle p ref h now answer
]

-- The loop of `_check_resource_expiration`: the resources to keep, the expired ones with the
-- newest first, and the size that is left. The size stays above the number of available
-- resources, so it never goes below 0.
unfoldable pub sift : ℕ → ℕ → List (ℕ × ℕ) → ℕ → List (ℕ × ℕ) × List ℕ × ℕ
sift ttl now [] size = ([], [], size)
sift ttl now ((r, added) ∷ rest) size =
    let (valid, gone, left) =
      sift ttl now rest (if ltb now (added + ttl) then size else size - 1) in
    if ltb now (added + ttl) then ((r, added) ∷ valid, gone, left) else (valid, r ∷ gone, left)

-- `_check_resource_expiration` of a registered pool, with the resources that it then closes.
unfoldable pub check_expiration : ResourcePool → ℕ → ResourcePool × List ℕ
unfolding sift
check_expiration p now = elim p.ttl [
  | none ↦ (p, [])
  | some ttl ↦
      let (valid, gone, left) = sift ttl now p.available p.current_size in
      (record p { available = valid; current_size = left }, gone)
]

-- `handle.status = RELEASED` at a position.
abbrev pub mark_released : List ResourceHandle → ℕ → List ResourceHandle
mark_released hs ref = elim (get_elem? hs ref) [
  | none ↦ hs
  | some h ↦ set hs ref (record h { status = released })
]

unfoldable pub mark_all : List ResourceHandle → Dict ℕ ℕ → List ResourceHandle
mark_all hs [] = hs
mark_all hs ((r, ref) ∷ d) = mark_all (mark_released hs ref) d

-- The part of `shutdown` for one pool, with the resources that it then closes, of the idle ones
-- the newest first.
unfoldable pub shutdown_pool : ResourcePool → ResourcePool × List ℕ
unfolding mark_all
shutdown_pool p = (
  record p {
    available = [];
    active_resources = [];
    current_size = 0;
    handles = mark_all p.handles p.active_resources;
  },
  map (λ e. e.0) p.active_resources ++ map (λ e. e.0) p.available,
)
