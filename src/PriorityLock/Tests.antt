-- ===== src/PriorityLock/Tests.antt =====
-- Runs of a priority lock, and the theorems on it at concrete inputs.
use omnimemory.Prelude.{◌+◌, ◌≡◌, ◌≤◌, refl, none, some, [], ◌∷◌, ◌++◌, arith, length}
use omnimemory.PriorityLock.{
  LockRequest, PriorityLock, low, normal, high, value, new, enqueue_request, poll,
}
use omnimemory.PriorityLock.Order.{at_least, below, enqueue_request_stable}
use omnimemory.PriorityLock.Exclusion.{World, start, enters, polls, Reach, here, next, exclusion}

abbrev first : LockRequest
first = record { request_id = 1; priority = normal; requested_at = 0; timeout = none }

abbrev urgent : LockRequest
urgent = record { request_id = 2; priority = high; requested_at = 1; timeout = some 50 }

abbrev idle : LockRequest
idle = record { request_id = 3; priority = low; requested_at = 2; timeout = none }

abbrev waiting : PriorityLock
waiting = record {
  queue = first ∷ idle ∷ [];
  current_holder = none;
  total_acquisitions = 0;
  total_releases = 0;
  total_timeouts = 0;
  max_hold_time = 0;
}

enqueue_request_stable_example :
    (enqueue_request waiting urgent).queue
    ≡ at_least (value high) (first ∷ idle ∷ []) ++ urgent ∷ below (value high) (first ∷ idle ∷ [])
enqueue_request_stable_example =
    enqueue_request_stable waiting urgent (omega arith, (omega arith, tt))

-- Two tasks ask, and the urgent one goes in.
abbrev busy : World
busy = record {
  lock = record {
    queue = first ∷ [];
    current_holder = some urgent;
    total_acquisitions = 1;
    total_releases = 0;
    total_timeouts = 0;
    max_hold_time = 0;
  };
  inside = (urgent, 5) ∷ [];
}

busy_reached : Reach start busy
unfolding enqueue_request poll new
busy_reached =
    next (next (next here (enters first refl)) (enters urgent refl)) (polls urgent 5 tt refl)

exclusion_example :
    (length busy.inside ≤ 1)
    × (busy.lock.total_acquisitions ≡ busy.lock.total_releases + length busy.inside)
exclusion_example = exclusion busy busy_reached
