-- ===== src/FairSemaphore.antt =====
-- `FairSemaphore` of src/omnimemory/adapters/adapter_concurrency.py. The asyncio semaphore under
-- it is its count of permits: an acquisition waits for a positive count and takes one, a release
-- adds one. Each step is what a task does between two waits. Hold times and logging are left out.
pub mod Permits
mod Tests
use omnimemory.Prelude.{
  ℕ, ◌+◌, ◌-◌, List, [], ◌∷◌, length, Option, none, some, ltb, if◌then◌else◌, ◌==◌,
}
use omnimemory.Prelude.Int.{ℤ, pos, up, down}

pub record SemaphoreStats : Type 0 where
  pub total_permits : ℕ
  pub available_permits : ℤ
  pub waiting_count : ℤ
  pub total_acquisitions : ℕ
  pub total_releases : ℕ
  pub total_timeouts : ℕ

-- `permits` is the asyncio semaphore; `active_holders` has the ids of the holders.
pub record FairSemaphore : Type 0 where
  pub permits : ℕ
  pub total_permits : ℕ
  pub active_holders : List ℕ
  pub stats : SemaphoreStats

-- `__init__`
unfoldable pub new : ℕ → FairSemaphore
new value = record {
  permits = value;
  total_permits = value;
  active_holders = [];
  stats = record {
    total_permits = value;
    available_permits = pos value;
    waiting_count = pos 0;
    total_acquisitions = 0;
    total_releases = 0;
    total_timeouts = 0;
  };
}

-- `acquire` up to the wait for a permit.
unfoldable pub begin_wait : FairSemaphore → FairSemaphore
begin_wait s = record s { stats = record (s.stats) { waiting_count = up s.stats.waiting_count } }

-- The wait ends with a permit, if there is one, and the statistics are updated.
unfoldable pub obtain : FairSemaphore → ℕ → Option FairSemaphore
obtain s holder_id =
    if ltb 0 s.permits
    then some (record s {
      permits = s.permits - 1;
      active_holders = holder_id ∷ s.active_holders;
      stats = record (s.stats) {
        waiting_count = down s.stats.waiting_count;
        available_permits = down s.stats.available_permits;
        total_acquisitions = s.stats.total_acquisitions + 1;
      };
    })
    else none

-- `except TimeoutError`
unfoldable pub on_timeout : FairSemaphore → FairSemaphore
on_timeout s = record s {
  stats = record (s.stats) {
    waiting_count = down s.stats.waiting_count;
    total_timeouts = s.stats.total_timeouts + 1;
  };
}

-- `self._active_holders.pop(holder_id, None)`
unfoldable pub drop_holder : ℕ → List ℕ → List ℕ
drop_holder id [] = []
drop_holder id (h ∷ hs) = if h == id then hs else h ∷ drop_holder id hs

-- `finally`, for a task that got its permit.
unfoldable pub give_back : FairSemaphore → ℕ → FairSemaphore
unfolding drop_holder
give_back s holder_id = record s {
  permits = s.permits + 1;
  active_holders = drop_holder holder_id s.active_holders;
  stats = record (s.stats) {
    available_permits = up s.stats.available_permits;
    total_releases = s.stats.total_releases + 1;
  };
}

-- How the body under a permit ends: a `TimeoutError` of the body meets the handler of the wait.
pub data BodyEnd : Type 0 where
  finished raised_timeout : BodyEnd

unfoldable pub leave : FairSemaphore → ℕ → BodyEnd → FairSemaphore
unfolding give_back on_timeout
leave s holder_id finished = give_back s holder_id
leave s holder_id raised_timeout = give_back (on_timeout s) holder_id

-- `get_stats` returns a copy.
unfoldable pub get_stats : FairSemaphore → SemaphoreStats
get_stats s = s.stats
