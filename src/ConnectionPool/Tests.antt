-- ===== src/ConnectionPool/Tests.antt =====
-- Small pools of connections, and the theorems on them.
use omnimemory.Prelude.{
  ℕ, ◌<◌, ◌≡◌, refl, Bool, true, false, none, some, List, [], ◌∷◌, ◌++◌, arith, ◌==◌, if◌then◌else◌,
}
use omnimemory.ConnectionPool.{
  AsyncConnectionPool, new, Phase, outside, seeking, storing, lent, unlocked, Event, begins,
  gets_lock, creation_ends, body_ends, times_out, step, run,
}
use omnimemory.ConnectionPool
use omnimemory.ConnectionPool.Blocked.{Blocked, acquire_starves}
use omnimemory.ConnectionPool.Crowd.{begin_all, create_all, crowd_exceeds}

abbrev any : ℕ → Bool
any c = true

-- One connection at most, which task 0 uses, while task 1 has begun to acquire one.
abbrev busy : AsyncConnectionPool
busy = record (new 1 0) {
  active = (0, 9) ∷ [];
  phase = λ t. if t == 0 then lent 9 else if t == 1 then seeking 3 none else outside;
}

-- It is reached by three steps of task 0, and one of task 1.
abbrev opening : List Event
opening =
    begins 0 any
    ∷ gets_lock 0 any
    ∷ creation_ends any (some 9)
    ∷ gets_lock 0 any
    ∷ begins 1 any
    ∷ []

opening_active : (run (new 1 0) opening).active ≡ (0, 9) ∷ []
unfolding run step new ConnectionPool.begin ConnectionPool.enter ConnectionPool.inspect
    ConnectionPool.creation_ended ConnectionPool.obtained
opening_active = refl

-- Task 0 ends its body and asks for the lock.
acquire_starves_example :
    Blocked 1 3 none (run busy (gets_lock 1 any ∷ body_ends 0 false ∷ gets_lock 0 any ∷ []))
unfolding new
acquire_starves_example =
    acquire_starves busy 1 3 none any (body_ends 0 false ∷ gets_lock 0 any ∷ []) refl refl refl
      (omega arith) tt

crowd_exceeds_example :
    ((u : ℕ) → u < 3 → (run (new 1 0) (begin_all 3 ++ create_all 3)).phase u ≡ storing u)
    × ((run (new 1 0) (begin_all 3 ++ create_all 3)).metrics.total_created ≡ 3)
    × ((run (new 1 0) (begin_all 3 ++ create_all 3)).metrics.total_destroyed ≡ 0)
crowd_exceeds_example = crowd_exceeds 3 1 0 (omega arith)
