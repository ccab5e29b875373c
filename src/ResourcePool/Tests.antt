-- ===== src/ResourcePool/Tests.antt =====
-- Runs of a resource pool, and the theorems on it at concrete inputs.
use omnimemory.Prelude.{
  ℕ, ◌+◌, ◌≡◌, ◌≤◌, refl, true, false, none, some, List, [], ◌∷◌, Option, arith,
}
use omnimemory.Prelude.Equality.{eq_ℕ}
use omnimemory.ResourcePool.{
  database, ResourcePool, blocked, new, initialize, acquire_round, release,
}
use omnimemory.ResourcePool.Calls.{Call, acquires, releases, step, run, held, lent}
use omnimemory.ResourcePool.Ownership.{Exclusive, IsDistinct, FreshRun, run-Exclusive}
use omnimemory.ResourcePool.Capacity.{
  any, ready, lost, run_capacity, acquire_with_room, lost_capacity_blocks,
}
use omnimemory.ResourcePool.Manager.{eq_ResourceType}

-- The first resources are 100 and 101.
abbrev factory : ℕ → Option ℕ
factory n = some (100 + n)

abbrev clock : ℕ → ℕ
clock n = 0

-- One resource idle at first, and at most two.
abbrev small : ResourcePool
small = ready database 1 2 none factory clock

-- Two are acquired, the first is given back, and then once more.
abbrev calls : List Call
calls = acquires none 1 ∷ acquires (some 7) 2 ∷ releases 0 3 true ∷ releases 0 4 true ∷ []

distinct : IsDistinct 1 factory
distinct r = ground arith

fresh : FreshRun small calls
unfolding initialize new step acquire_round
fresh = (tt, (refl, (tt, (tt, tt))))

run-Exclusive_example : Exclusive (run small calls)
run-Exclusive_example = run-Exclusive database 1 2 none factory clock calls distinct fresh

run_capacity_example :
    ((run small calls).current_size ≡ held any (run small calls) + lost small calls)
    × ((run small calls).current_size ≤ 2)
run_capacity_example = run_capacity database 1 2 none factory clock calls (omega arith)

none_lost : lost small calls ≡ 0
unfolding lost initialize new step release acquire_round
none_lost = refl

one_out : lent any (run small calls) ≡ 1
unfolding run initialize new step release acquire_round
one_out = refl

acquire_with_room_example : ¬ (acquire_round (run small calls) (some 8) 9).1 ≡ blocked
acquire_with_room_example =
    acquire_with_room database 1 2 none factory clock calls (some 8) 9 (omega arith) none_lost
      (omega (arith, one_out))

-- Both resources are found unhealthy when they come back.
abbrev bad_calls : List Call
bad_calls = acquires none 1 ∷ acquires (some 7) 2 ∷ releases 0 3 false ∷ releases 1 4 false ∷ []

two_lost : lost small bad_calls ≡ 2
unfolding lost initialize new step release acquire_round
two_lost = refl

lost_capacity_blocks_example :
    ((acquire_round (run small bad_calls) (some 8) 9).1 ≡ blocked)
    × (lent any (run small bad_calls) ≡ 0)
lost_capacity_blocks_example =
    lost_capacity_blocks database 1 2 none factory clock bad_calls (some 8) 9 (omega arith)
      (omega (arith, two_lost))
