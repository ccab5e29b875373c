-- ===== src/Metrics/Totals.antt =====
-- What a counter returns, against the sum of the amounts.
use omnimemory.Prelude.{
  ℕ, ◌+◌, ◌≤◌, ◌≡◌, refl, ap, ◌∙◌, Option, none, some, List, [], ◌∷◌, ◌++◌, length, Result, ok, err,
  ◌>>=◌, if◌then◌else◌, Option-cases, inl, inr, arith,
}
use omnimemory.Prelude.Equality.{Eq}
use omnimemory.Prelude.Dict.{Dict, lookup, erase, lookup-erase, lookup-erase_self}
use omnimemory.Metrics.{Metric, Exception, write, read, put, inc, get, or_zero}
use omnimemory.Metrics.Unbounded.{write_freely, run, run_freely, run_unbounded}

module _ {κ} {K : Type κ} ⦃e : Eq K⦄ where
  -- The amounts for a key.
  abbrev pub total : K → List (K × ℕ) → ℕ
  total key [] = 0
  total key ((k, amount) ∷ incs) = (if e.equal k key then amount else 0) + total key incs

  -- Each amount as the change that it makes.
  abbrev pub changes : List (K × ℕ) → List (K × (ℕ → ℕ))
  changes [] = []
  changes ((k, amount) ∷ incs) = (k, λ n. n + amount) ∷ changes incs

  unfoldable pub inc_all : Metric K ℕ → List (K × ℕ) → Result Exception (Metric K ℕ)
  unfolding inc
  inc_all c [] = ok c
  inc_all c ((key, amount) ∷ incs) = inc c key amount >>= λ c'. inc_all c' incs

  value : K → Dict K ℕ → ℕ
  value key d = or_zero (lookup key d)

  lookup-snoc_if :
      (j k : K) (v : ℕ) (d : Dict K ℕ)
      → lookup k d ≡ none
      → lookup j (d ++ ((k, v) ∷ [])) ≡ (if e.equal k j then some v else lookup j d)
  lookup-snoc_if j k v [] absent = refl
  lookup-snoc_if j k v ((i, w) ∷ d) absent =
      ground (arith, lookup-snoc_if j k v d, e.equal_iff i k, e.equal_iff i j, e.equal_iff k j)

  value-write_freely :
      (j k : K) (amount : ℕ) (d : Dict K ℕ) (found : Option ℕ)
      → lookup k d ≡ found
      → value j (write_freely k 0 (λ n. n + amount) d found)
        ≡ value j d + (if e.equal k j then amount else 0)
  unfolding value
  value-write_freely j k amount d none looked =
      ground (arith, lookup-snoc_if j k (0 + amount) d looked, e.equal_iff k j)
  value-write_freely j k amount d (some n) looked = ground (
    arith,
    lookup-snoc_if j k (n + amount) (erase k d) (lookup-erase_self k d),
    lookup-erase k j d,
    e.equal_iff k j,
  )

  value-run_freely :
      (j : K) (d : Dict K ℕ) (incs : List (K × ℕ))
      → value j (run_freely 0 d (changes incs)) ≡ value j d + total j incs
  unfolding run_freely
  value-run_freely j d [] = omega arith
  value-run_freely j d ((k, amount) ∷ incs) = omega (
    arith,
    value-run_freely j (write_freely k 0 (λ n. n + amount) d (lookup k d)) incs,
    value-write_freely j k amount d (lookup k d) refl,
  )

  put->>= :
      (c : Metric K ℕ) (incs : List (K × ℕ)) (answer : Result Exception (Dict K ℕ))
      → (put c answer >>= λ c'. inc_all c' incs)
        ≡ (answer >>= λ d. inc_all (record c { values = d }) incs)
  put->>= c incs (err x) = refl
  put->>= c incs (ok d) = refl

  >>=-put :
      (c : Metric K ℕ) (incs : List (K × ℕ)) (answer : Result Exception (Dict K ℕ))
      → ((d : Dict K ℕ)
          → inc_all (record c { values = d }) incs ≡ put c (run 0 c.max_entries d (changes incs)))
      → (answer >>= λ d. inc_all (record c { values = d }) incs)
        ≡ put c (answer >>= λ d. run 0 c.max_entries d (changes incs))
  >>=-put c incs (err x) each = refl
  >>=-put c incs (ok d) each = each d

  inc_all-run :
      (c : Metric K ℕ) (incs : List (K × ℕ))
      → inc_all c incs ≡ put c (run 0 c.max_entries c.values (changes incs))
  unfolding inc_all run inc
  inc_all-run c [] = refl
  inc_all-run c ((key, amount) ∷ incs) =
      let answer = write c.max_entries key 0 (λ n. n + amount) c.values in
      put->>= c incs answer
      ∙ >>=-put c incs answer (λ d. inc_all-run (record c { values = d }) incs)

  get_read : (c : Metric K ℕ) (key : K) → (get c key).1 ≡ value key c.values
  unfolding get read value
  get_read c key = elim (Option-cases (lookup key c.values)) [
    | inl absent ↦ rw absent refl
    | inr (n, found) ↦ rw found refl
  ]

  -- A new counter whose label values are not more than `max_entries` counts: any calls of `inc`
  -- succeed, and `get` then returns the sum of the amounts for its labels.
  pub counter_totals :
      (max_entries : ℕ) (incs : List (K × ℕ)) (key : K)
      → length (run_freely 0 [] (changes incs)) ≤ max_entries
      → (c : Metric K ℕ) × (inc_all (record { max_entries = max_entries; values = [] }) incs ≡ ok c)
        × ((get c key).1 ≡ total key incs)
  unfolding value
  counter_totals max_entries incs key room =
      let new : Metric K ℕ = record { max_entries = max_entries; values = [] } in
      let d = run_freely 0 [] (changes incs) in
      (
        record { max_entries = max_entries; values = d },
        inc_all-run new incs ∙ ap (put new) (run_unbounded 0 max_entries (changes incs) room),
        get_read (record { max_entries = max_entries; values = d }) key
            ∙ value-run_freely key [] incs
            ∙ omega arith,
      )
