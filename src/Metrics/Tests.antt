-- ===== src/Metrics/Tests.antt =====
-- Runs of the metrics, and the theorems on them at concrete inputs.
use omnimemory.Prelude.{ℕ, ◌+◌, ◌≤◌, ◌≡◌, refl, List, [], ◌∷◌, length, ok, err, arith}
use omnimemory.Prelude.Equality.{eq_ℕ}
use omnimemory.Prelude.Dict.{Dict}
use omnimemory.Metrics.{Metric, key_error, write, write_at, read, make_room, inc, get}
use omnimemory.Metrics.Unbounded.{run_freely}
use omnimemory.Metrics.Order.{latest, keys}
use omnimemory.Metrics.Recency.{Use, writes, reads, run, last_uses, run_keeps_latest}
use omnimemory.Metrics.Totals.{inc_all, total, counter_totals}

-- With room for two keys: 1 is read before 3 comes, so that 2 goes.
abbrev uses : List (Use ℕ ℕ)
uses =
    writes 1 (λ n. n + 5) ∷ writes 2 (λ n. n + 6) ∷ reads 1 ∷ writes 3 (λ n. n + 7) ∷ reads 2 ∷ []

run_keeps_latest_example :
    (d : Dict ℕ ℕ) × (run 0 2 [] uses ≡ ok d)
    × (keys d ≡ latest 2 (last_uses 0 2 [] uses))
    × (length d ≤ 2)
run_keeps_latest_example = run_keeps_latest 0 2 uses (omega arith)

uses-run : run 0 2 [] uses ≡ ok ((1, 5) ∷ (3, 7) ∷ [])
unfolding run write write_at read make_room
uses-run = refl

-- A counter without room raises at its first label values.
full_counter : inc {K = ℕ} (record { max_entries = 0; values = [] }) 1 5 ≡ err key_error
unfolding inc write write_at make_room
full_counter = refl

abbrev incs : List (ℕ × ℕ)
incs = (1, 5) ∷ (2, 6) ∷ (1, 7) ∷ []

counter_totals_example :
    (c : Metric ℕ ℕ) × (inc_all (record { max_entries = 2; values = [] }) incs ≡ ok c)
    × ((get c 1).1 ≡ total 1 incs)
unfolding run_freely
counter_totals_example = counter_totals 2 incs 1 (omega arith)
