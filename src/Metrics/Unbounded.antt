-- ===== src/Metrics/Unbounded.antt =====
-- A metric against one that never drops a value.
use omnimemory.Prelude.{
  ℕ, ◌+◌, ◌≤◌, ◌<◌, ◌≡◌, refl, sym, ap, ◌∙◌, Bool, true, false, Option, none, some, List, [], ◌∷◌,
  ◌++◌, length, length-append, Result, ok, ◌>>=◌, leb, if◌then◌else◌, if_true, if_false, Bool-cases,
  inl, inr, arith,
}
use omnimemory.Prelude.Equality.{Eq}
use omnimemory.Prelude.Dict.{Dict, lookup, erase, lookup-erase, lookup-erase_self}
use omnimemory.Metrics.{Exception, make_room, write_at, write, added, move_to_end}

if_same {ℓ} : {A : Type ℓ} (test : Bool) (x : A) → (if test then x else x) ≡ x
if_same true x = refl
if_same false x = refl

-- No key stands twice.
module _ {κ ν} {K : Type κ} {V : Type ν} ⦃e : Eq K⦄ where
  abbrev pub Distinct : Dict K V → Type (κ ⊔ ν)
  Distinct [] = Unit
  Distinct ((k, v) ∷ d) = (lookup k d ≡ none) × Distinct d

  pub erase-Distinct : (key : K) (d : Dict K V) → Distinct d → Distinct (erase key d)
  erase-Distinct key [] distinct = distinct
  erase-Distinct key ((k, v) ∷ d) distinct = elim (Bool-cases (e.equal k key)) [
    | inl same ↦ rw same (erase-Distinct key d (distinct.1))
    | inr other ↦ rw other (
      lookup-erase key k d
          ∙ ap (λ x. if e.equal key k then none else x) distinct.0
          ∙ if_same (e.equal key k) none,
      erase-Distinct key d (distinct.1),
    )
  ]

  pub lookup-snoc :
      (j key : K) (v : V) (d : Dict K V)
      → lookup j d ≡ none
      → lookup j (d ++ ((key, v) ∷ [])) ≡ (if e.equal key j then some v else none)
  lookup-snoc j key v [] absent = refl
  lookup-snoc j key v ((k, w) ∷ d) absent = ground (arith, lookup-snoc j key v d)

  pub snoc-Distinct :
      (key : K) (v : V) (d : Dict K V)
      → lookup key d ≡ none
      → Distinct d
      → Distinct (d ++ ((key, v) ∷ []))
  snoc-Distinct key v [] absent distinct = (refl, tt)
  snoc-Distinct key v ((k, w) ∷ d) absent distinct = (
    ground (arith, lookup-snoc k key v d (distinct.0), e.equal_iff k key, e.equal_iff key k),
    snoc-Distinct key v d (ground arith) (distinct.1),
  )

  length-erase_absent :
      (key : K) (d : Dict K V) → lookup key d ≡ none → length (erase key d) ≡ length d
  length-erase_absent key [] absent = refl
  length-erase_absent key ((k, v) ∷ d) absent = ground (arith, length-erase_absent key d)

  pub length-erase :
      (key : K) (v : V) (d : Dict K V)
      → Distinct d
      → lookup key d ≡ some v
      → length (erase key d) + 1 ≡ length d
  length-erase key v [] distinct found = cc
  length-erase key v ((k, w) ∷ d) distinct found = elim (Bool-cases (e.equal k key)) [
    | inl same ↦
        let gone : lookup key d ≡ none =
          ap (λ j. lookup j d) (sym ((e.equal_iff k key).0 same)) ∙ distinct.0 in
        rw same (omega (arith, length-erase_absent key d gone))
    | inr other ↦
        let there : lookup key d ≡ some v =
          sym (if_false (e.equal k key) (some w) (lookup key d) other) ∙ found in
        rw other (omega (arith, length-erase key v d (distinct.1) there))
  ]

  pub make_room-ok :
      (max_entries : ℕ) (d : Dict K V) → length d < max_entries → make_room max_entries d ≡ ok d
  unfolding make_room
  make_room-ok max_entries [] room = if_false (leb max_entries 0) _ _ (ground arith)
  make_room-ok max_entries (v ∷ d) room =
      if_false (leb max_entries (length (v ∷ d))) _ _ (ground arith)

  pub make_room_lem :
      (max_entries : ℕ) (v : K × V) (d : Dict K V)
      → length d < max_entries
      → max_entries ≤ length (v ∷ d)
      → make_room max_entries (v ∷ d) ≡ ok d
  unfolding make_room
  make_room_lem max_entries v d room full =
      if_true (leb max_entries (length (v ∷ d))) _ _ (ground arith)
      ∙ make_room-ok max_entries d room

  -- A write that never makes room.
  abbrev pub write_freely : K → V → (V → V) → Dict K V → Option V → Dict K V
  write_freely key fresh change values (some v) = move_to_end key (change v) values
  write_freely key fresh change values none = values ++ ((key, change fresh) ∷ [])

  length-write_freely :
      (key : K) (fresh : V) (change : V → V) (d : Dict K V) (found : Option V)
      → lookup key d ≡ found
      → Distinct d
      → length d ≤ length (write_freely key fresh change d found)
  length-write_freely key fresh change d none found distinct =
      omega (arith, length-append d ((key, change fresh) ∷ []))
  length-write_freely key fresh change d (some v) found distinct = omega (
    arith,
    length-append (erase key d) ((key, change v) ∷ []),
    length-erase key v d distinct found,
  )

  write_freely-Distinct :
      (key : K) (fresh : V) (change : V → V) (d : Dict K V) (found : Option V)
      → lookup key d ≡ found
      → Distinct d
      → Distinct (write_freely key fresh change d found)
  write_freely-Distinct key fresh change d none found distinct =
      snoc-Distinct key (change fresh) d found distinct
  write_freely-Distinct key fresh change d (some v) found distinct =
      snoc-Distinct key (change v) (erase key d) (lookup-erase_self key d)
        (erase-Distinct key d distinct)

  write_at-free :
      (max_entries : ℕ) (key : K) (fresh : V) (change : V → V) (d : Dict K V) (found : Option V)
      → length (write_freely key fresh change d found) ≤ max_entries
      → write_at max_entries key fresh change d found ≡ ok (write_freely key fresh change d found)
  unfolding write_at
  write_at-free max_entries key fresh change d (some v) room = refl
  write_at-free max_entries key fresh change d none room =
      ap (added key (change fresh))
        (make_room-ok max_entries d (omega (arith, length-append d ((key, change fresh) ∷ []))))

-- The writes (key, change) to a metric, and to one that never makes room.
module _ {κ ν} {K : Type κ} {V : Type ν} ⦃e : Eq K⦄ (fresh : V) where
  unfoldable pub run : ℕ → Dict K V → List (K × (V → V)) → Result Exception (Dict K V)
  unfolding write
  run max_entries d [] = ok d
  run max_entries d ((key, change) ∷ writes) =
      write max_entries key fresh change d >>= λ d'. run max_entries d' writes

  unfoldable pub run_freely : Dict K V → List (K × (V → V)) → Dict K V
  run_freely d [] = d
  run_freely d ((key, change) ∷ writes) =
      run_freely (write_freely key fresh change d (lookup key d)) writes

  length-run_freely :
      (d : Dict K V) (writes : List (K × (V → V)))
      → Distinct d
      → length d ≤ length (run_freely d writes)
  unfolding run_freely
  length-run_freely d [] distinct = omega arith
  length-run_freely d ((key, change) ∷ writes) distinct = omega (
    arith,
    length-write_freely key fresh change d (lookup key d) refl distinct,
    length-run_freely (write_freely key fresh change d (lookup key d)) writes
        (write_freely-Distinct key fresh change d (lookup key d) refl distinct),
  )

  run_from :
      (max_entries : ℕ) (d : Dict K V) (writes : List (K × (V → V)))
      → Distinct d
      → length (run_freely d writes) ≤ max_entries
      → run max_entries d writes ≡ ok (run_freely d writes)
  unfolding run run_freely write
  run_from max_entries d [] distinct room = refl
  run_from max_entries d ((key, change) ∷ writes) distinct room =
      let d' = write_freely key fresh change d (lookup key d) in
      let distinct' = write_freely-Distinct key fresh change d (lookup key d) refl distinct in
      ap (λ r. r >>= λ x. run max_entries x writes)
        (write_at-free max_entries key fresh change d (lookup key d)
          (omega (arith, length-run_freely d' writes distinct')))
      ∙ run_from max_entries d' writes distinct' room

  -- While the label values in use are not more than `max_entries`, a metric raises nothing and
  -- holds what one without a bound holds: no value is dropped.
  pub run_unbounded :
      (max_entries : ℕ) (writes : List (K × (V → V)))
      → length (run_freely [] writes) ≤ max_entries
      → run max_entries [] writes ≡ ok (run_freely [] writes)
  run_unbounded max_entries writes room = run_from max_entries [] writes tt room
