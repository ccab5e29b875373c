-- ===== src/FairSemaphore/Tests.antt =====
-- Runs of a semaphore, and the theorems on it at concrete inputs.
use omnimemory.Prelude.{◌+◌, ◌≡◌, refl, [], length, inl, arith}
use omnimemory.Prelude.Int.{pos, negsuc, sub_ℕ}
use omnimemory.FairSemaphore.{new, begin_wait, obtain, leave, raised_timeout}
use omnimemory.FairSemaphore.Permits.{
  World, start, asks, obtains, leaves, Reach, here, next, permits_conserved, waiting_count_drift,
}

-- One task got the only permit, and left with a timeout of its own.
abbrev after_timeout : World
after_timeout = record {
  semaphore = record {
    permits = 1;
    total_permits = 1;
    active_holders = [];
    stats = record {
      total_permits = 1;
      available_permits = pos 1;
      waiting_count = negsuc 0;
      total_acquisitions = 1;
      total_releases = 1;
      total_timeouts = 1;
    };
  };
  waiting = 0;
  inside = 0;
  cancelled = 0;
  body_timeouts = 1;
}

after_timeout_reached : Reach (start 1) after_timeout
unfolding begin_wait obtain leave new
after_timeout_reached =
    next (next (next here (asks refl)) (obtains 7 _ (omega arith) refl refl))
      (leaves 7 raised_timeout (inl refl) refl)

permits_conserved_example :
    (after_timeout.semaphore.permits + after_timeout.inside ≡ 1)
    × (length after_timeout.semaphore.active_holders ≡ after_timeout.inside)
    × (after_timeout.semaphore.stats.available_permits ≡ pos after_timeout.semaphore.permits)
    × (after_timeout.semaphore.stats.total_acquisitions
        ≡ after_timeout.semaphore.stats.total_releases + after_timeout.inside)
permits_conserved_example = permits_conserved 1 after_timeout after_timeout_reached

waiting_count_drift_example : after_timeout.semaphore.stats.waiting_count ≡ sub_ℕ 0 1
waiting_count_drift_example = waiting_count_drift 1 after_timeout after_timeout_reached
