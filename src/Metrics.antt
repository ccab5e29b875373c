-- ===== src/Metrics.antt =====
-- `Counter`, `Gauge` and `Histogram` of src/omnimemory/adapters/adapter_metrics_counter.py. All
-- three keep their values by the tuple of their labels, the least recently used first, and drop
-- the oldest to make room. A key is any type with an equality; amounts, gauges, observations and
-- the bounds of buckets are natural numbers. The labels are valid. A call holds the lock of its
-- metric.
pub mod Histograms
pub mod Unbounded
pub mod Order
pub mod Recency
pub mod Totals
mod Tests
use omnimemory.Prelude.{
  ℕ, zero, suc, ◌+◌, Bool, true, false, Option, none, some, List, [], ◌∷◌, ◌++◌, length, Result, ok,
  err, leb, if◌then◌else◌,
}
use omnimemory.Prelude.Equality.{Eq}
use omnimemory.Prelude.Dict.{Dict, lookup, erase}

-- `max_entries` and `_values`
pub record Metric {κ ν} (K : Type κ) (V : Type ν) : Type (κ ⊔ ν) where
  pub max_entries : ℕ
  pub values : Dict K V

-- `popitem(last=False)` on an empty dict raises `KeyError`.
pub data Exception : Type 0 where
  key_error : Exception

module _ {κ ν} {K : Type κ} {V : Type ν} ⦃e : Eq K⦄ where
  -- `move_to_end` of a key that is there, with its value.
  abbrev pub move_to_end : K → V → Dict K V → Dict K V
  move_to_end key v values = erase key values ++ ((key, v) ∷ [])

  -- The loop that drops the oldest values while there are too many.
  unfoldable pub make_room : ℕ → Dict K V → Result Exception (Dict K V)
  make_room max_entries [] = if leb max_entries 0 then err key_error else ok []
  make_room max_entries (v ∷ values) =
      let rest = make_room max_entries values in
      if leb max_entries (length (v ∷ values)) then rest else ok (v ∷ values)

  abbrev pub added : K → V → Result Exception (Dict K V) → Result Exception (Dict K V)
  added key v (err x) = err x
  added key v (ok kept) = ok (kept ++ ((key, v) ∷ []))

  -- A write to the value of a key, which begins as `fresh`.
  unfoldable pub write_at : ℕ → K → V → (V → V) → Dict K V → Option V → Result Exception (Dict K V)
  unfolding make_room
  write_at max_entries key fresh change values (some v) = ok (move_to_end key (change v) values)
  write_at max_entries key fresh change values none =
      added key (change fresh) (make_room max_entries values)

  unfoldable pub write : ℕ → K → V → (V → V) → Dict K V → Result Exception (Dict K V)
  unfolding write_at
  write max_entries key fresh change values =
      write_at max_entries key fresh change values (lookup key values)

  -- A read moves the key as well.
  abbrev pub read_at : K → Dict K V → Option V → Dict K V × Option V
  read_at key values none = (values, none)
  read_at key values (some v) = (move_to_end key v values, some v)

  unfoldable pub read : K → Dict K V → Dict K V × Option V
  read key values = read_at key values (lookup key values)

  abbrev pub put : Metric K V → Result Exception (Dict K V) → Result Exception (Metric K V)
  put m (err x) = err x
  put m (ok values) = ok (record m { values = values })

  -- `reset`
  unfoldable pub reset : Metric K V → Metric K V
  reset m = record m { values = [] }

abbrev pub or_zero : Option ℕ → ℕ
or_zero none = 0
or_zero (some n) = n

module _ {κ} {K : Type κ} ⦃e : Eq K⦄ where
  -- `Counter.inc` and `Counter.get`
  unfoldable pub inc : Metric K ℕ → K → ℕ → Result Exception (Metric K ℕ)
  unfolding write
  inc c key amount = put c (write c.max_entries key 0 (λ n. n + amount) c.values)

  unfoldable pub get : Metric K ℕ → K → Metric K ℕ × ℕ
  unfolding read
  get c key =
      let (values, found) = read key c.values in (record c { values = values }, or_zero found)

  -- `Gauge.set`
  unfoldable pub set_gauge : Metric K ℕ → K → ℕ → Result Exception (Metric K ℕ)
  unfolding write
  set_gauge g key value = put g (write g.max_entries key 0 (λ n. value) g.values)
