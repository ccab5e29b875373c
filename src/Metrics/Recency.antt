-- ===== src/Metrics/Recency.antt =====
-- Which keys a metric keeps: the least recently used go first.
use omnimemory.Prelude.{
  ℕ, ◌-◌, ◌≤◌, ◌<◌, ◌≡◌, ◌⊎◌, refl, sym, ap, ◌∙◌, true, false, Option, none, some, List, [], ◌∷◌,
  ◌++◌, length, length-append, drop, Result, ok, ◌>>=◌, ltb, if◌then◌else◌, if_true, if_false,
  Bool-cases, inl, inr, arith,
}
use mathlib.Core.Path.{subst}
use omnimemory.Prelude.Equality.{Eq}
use omnimemory.Prelude.Dict.{Dict, lookup, erase, lookup-erase_self}
use omnimemory.Metrics.{Exception, make_room, write_at, write, read, read_at, added, move_to_end}
use omnimemory.Metrics.Unbounded.{
  Distinct, make_room-ok, make_room_lem, erase-Distinct, snoc-Distinct, length-erase,
}
use omnimemory.Metrics.Order.{
  remove, holds, touch, remove-append, latest, append_assoc, drop-length, keys, length-keys,
  keys-snoc, keys-erase, remove_absent, holds-keys, holds-keys_absent,
}

module _ {κ ν} {K : Type κ} {V : Type ν} ⦃e : Eq K⦄ where
  -- A metric keeps the end of the order, and all of it unless it is full.
  Keeps : ℕ → List K → Dict K V → Type (κ ⊔ ν)
  Keeps bound order d =
      (old : List K) × (order ≡ old ++ keys d)
      × Distinct d
      × (length d ≤ bound)
      × ((old ≡ []) ⊎ (length d ≡ bound))

  Keeps-latest :
      (bound : ℕ) (order : List K) (d : Dict K V)
      → Keeps bound order d
      → keys d ≡ latest bound order
  unfolding Keeps
  Keeps-latest bound order d (old, split, distinct, within, inl empty) =
      let whole : order ≡ keys d = split ∙ ap (λ o. o ++ keys d) empty in
      let none_over : length (keys d) - bound ≡ 0 = omega (arith, length-keys d) in
      sym (ap (latest bound) whole ∙ ap (λ n. drop n (keys d)) none_over)
  Keeps-latest bound order d (old, split, distinct, within, inr full) =
      let over : length (old ++ keys d) - bound ≡ length old =
        omega (arith, length-append old (keys d), length-keys d) in
      sym
        (ap (latest bound) split ∙ ap (λ n. drop n (old ++ keys d)) over ∙ drop-length old (keys d))

  length-move :
      (key : K) (v x : V) (d : Dict K V)
      → Distinct d
      → lookup key d ≡ some v
      → length (move_to_end key x d) ≡ length d
  length-move key v x d distinct found =
      omega
        (arith, length-append (erase key d) ((key, x) ∷ []), length-erase key v d distinct found)

  Keeps-move :
      (bound : ℕ) (order : List K) (d : Dict K V) (key : K) (v x : V)
      → lookup key d ≡ some v
      → Keeps bound order d
      → Keeps bound (touch key order) (move_to_end key x d)
  unfolding Keeps
  Keeps-move bound order d key v x found (old, split, distinct, within, full) = (
    remove key old,
    ap (touch key) split
        ∙ ap (λ r. r ++ (key ∷ [])) (remove-append key old (keys d))
        ∙ append_assoc (remove key old) (remove key (keys d)) (key ∷ [])
        ∙ ap (λ r. remove key old ++ (r ++ (key ∷ []))) (sym (keys-erase key d))
        ∙ ap (λ r. remove key old ++ r) (sym (keys-snoc (erase key d) key x)),
    snoc-Distinct key x (erase key d) (lookup-erase_self key d) (erase-Distinct key d distinct),
    omega (arith, length-move key v x d distinct found),
    elim full [
      | inl empty ↦ inl (ap (remove key) empty)
      | inr all ↦ inr (length-move key v x d distinct found ∙ all)
    ],
  )

  Keeps-add_room :
      (bound : ℕ) (order : List K) (d : Dict K V) (key : K) (x : V)
      → lookup key d ≡ none
      → length d < bound
      → Keeps bound order d
      → Keeps bound (touch key order) (d ++ ((key, x) ∷ []))
  unfolding Keeps
  Keeps-add_room bound order d key x absent room (old, split, distinct, within, full) =
      let gone : old ≡ [] = elim full [ inl empty ↦ empty | inr all ↦ absurd (omega arith) ] in
      (
        [],
        ap (touch key) (split ∙ ap (λ o. o ++ keys d) gone)
            ∙ ap (λ r. r ++ (key ∷ [])) (remove_absent key d absent)
            ∙ sym (keys-snoc d key x),
        snoc-Distinct key x d absent distinct,
        omega (arith, length-append d ((key, x) ∷ [])),
        inl refl,
      )

  Keeps-add_full :
      (bound : ℕ) (order : List K) (oldest : K) (w : V) (d : Dict K V) (key : K) (x : V)
      → lookup key ((oldest, w) ∷ d) ≡ none
      → length ((oldest, w) ∷ d) ≡ bound
      → Keeps bound order ((oldest, w) ∷ d)
      → Keeps bound (touch key order) (d ++ ((key, x) ∷ []))
  unfolding Keeps
  Keeps-add_full bound order oldest w d key x absent all (old, split, distinct, within, full) = (
    remove key old ++ (oldest ∷ []),
    ap (touch key) split
        ∙ ap (λ r. r ++ (key ∷ [])) (remove-append key old (oldest ∷ keys d))
        ∙ append_assoc (remove key old) (remove key (oldest ∷ keys d)) (key ∷ [])
        ∙ ap (λ r. remove key old ++ (r ++ (key ∷ []))) (remove_absent key ((oldest, w) ∷ d) absent)
        ∙ ap (λ r. remove key old ++ (oldest ∷ r)) (sym (keys-snoc d key x))
        ∙ sym (append_assoc (remove key old) (oldest ∷ []) (keys (d ++ ((key, x) ∷ [])))),
    snoc-Distinct key x d (ground arith) (distinct.1),
    omega (arith, length-append d ((key, x) ∷ [])),
    inr (omega (arith, length-append d ((key, x) ∷ []))),
  )

  -- A write succeeds, and keeps the order.
  Wrote : ℕ → List K → Result Exception (Dict K V) → Type (κ ⊔ ν)
  Wrote bound order answer = (d : Dict K V) × (answer ≡ ok d) × Keeps bound order d

  Keeps-within :
      (bound : ℕ) (order : List K) (d : Dict K V) → Keeps bound order d → length d ≤ bound
  unfolding Keeps
  Keeps-within bound order d (old, split, distinct, within, full) = within

  added-Wrote :
      (bound : ℕ) (order : List K) (d : Dict K V) (key : K) (x : V)
      → 1 ≤ bound
      → lookup key d ≡ none
      → Keeps bound order d
      → Wrote bound (touch key order) (added key x (make_room bound d))
  unfolding Wrote
  added-Wrote bound order [] key x some_room absent keeps = (
    [] ++ ((key, x) ∷ []),
    ap (added key x) (make_room-ok bound [] (omega arith)),
    Keeps-add_room bound order [] key x absent (omega arith) keeps,
  )
  added-Wrote bound order ((k, w) ∷ d) key x some_room absent keeps =
      elim (Bool-cases (ltb (length ((k, w) ∷ d)) bound)) [
        | inl room ↦ (
          ((k, w) ∷ d) ++ ((key, x) ∷ []),
          ap (added key x) (make_room-ok bound ((k, w) ∷ d) (ground arith)),
          Keeps-add_room bound order ((k, w) ∷ d) key x absent (ground arith) keeps,
        )
        | inr packed ↦ (
          d ++ ((key, x) ∷ []),
          ap (added key x) (
              make_room_lem bound (k, w) d
                (ground (arith, Keeps-within bound order ((k, w) ∷ d) keeps))
                (ground (arith, Keeps-within bound order ((k, w) ∷ d) keeps))),
          Keeps-add_full bound order k w d key x absent
              (ground (arith, Keeps-within bound order ((k, w) ∷ d) keeps)) keeps,
        )
      ]

  write_at-Wrote :
      (bound : ℕ) (order : List K) (d : Dict K V) (key : K) (fresh : V) (change : V → V)
      (found : Option V)
      → 1 ≤ bound
      → lookup key d ≡ found
      → Keeps bound order d
      → Wrote bound (touch key order) (write_at bound key fresh change d found)
  unfolding write_at Wrote
  write_at-Wrote bound order d key fresh change none some_room looked keeps =
      added-Wrote bound order d key (change fresh) some_room looked keeps
  write_at-Wrote bound order d key fresh change (some v) some_room looked keeps =
      (move_to_end key (change v) d, refl, Keeps-move bound order d key v (change v) looked keeps)

-- A write to the value of a key, or a read of it.
pub data Use {κ ν} (K : Type κ) (V : Type ν) : Type (κ ⊔ ν) where
  writes : K → (V → V) → Use K V
  reads : K → Use K V

module _ {κ ν} {K : Type κ} {V : Type ν} ⦃e : Eq K⦄ (fresh : V) (bound : ℕ) where
  unfoldable pub run : Dict K V → List (Use K V) → Result Exception (Dict K V)
  unfolding write read
  run d [] = ok d
  run d (writes key change ∷ uses) = write bound key fresh change d >>= λ d'. run d' uses
  run d (reads key ∷ uses) = run (read key d).0 uses

  -- The order of the last uses; a read of a key that was dropped is none.
  unfoldable pub last_uses : List K → List (Use K V) → List K
  last_uses order [] = order
  last_uses order (writes key change ∷ uses) = last_uses (touch key order) uses
  last_uses order (reads key ∷ uses) =
      last_uses (if holds key (latest bound order) then touch key order else order) uses

  read_at-Keeps :
      (order : List K) (d : Dict K V) (key : K) (found : Option V)
      → lookup key d ≡ found
      → Keeps bound order d
      → Keeps bound
          (if holds key (latest bound order) then touch key order else order)
          (read_at key d found).0
  read_at-Keeps order d key none looked keeps =
      let unseen : holds key (latest bound order) ≡ false =
        ap (holds key) (sym (Keeps-latest bound order d keeps)) ∙ holds-keys_absent key d looked in
      subst (λ o. Keeps bound o d)
        (sym (if_false (holds key (latest bound order)) (touch key order) order unseen)) keeps
  read_at-Keeps order d key (some v) looked keeps =
      let seen : holds key (latest bound order) ≡ true =
        ap (holds key) (sym (Keeps-latest bound order d keeps)) ∙ holds-keys key d v looked in
      subst (λ o. Keeps bound o (move_to_end key v d))
        (sym (if_true (holds key (latest bound order)) (touch key order) order seen))
        (Keeps-move bound order d key v v looked keeps)

  run-Wrote :
      (order : List K) (d : Dict K V) (uses : List (Use K V))
      → 1 ≤ bound
      → Keeps bound order d
      → Wrote bound (last_uses order uses) (run d uses)
  unfolding run last_uses Wrote write read
  run-Wrote order d [] some_room keeps = (d, refl, keeps)
  run-Wrote order d (reads key ∷ uses) some_room keeps =
      run-Wrote (if holds key (latest bound order) then touch key order else order)
        (read_at key d (lookup key d)).0 uses some_room
        (read_at-Keeps order d key (lookup key d) refl keeps)
  run-Wrote order d (writes key change ∷ uses) some_room keeps =
      let (d', wrote, kept) =
        write_at-Wrote bound order d key fresh change (lookup key d) some_room refl keeps in
      let (last, ran, held) = run-Wrote (touch key order) d' uses some_room kept in
      (last, ap (λ r. r >>= λ x. run x uses) wrote ∙ ran, held)

  -- With `max_entries` of at least one, a metric that begins empty raises nothing, and after any
  -- writes and reads it holds the keys that were used last, `max_entries` of them at most, the
  -- least recently used first; a read counts as a use of the keys that are still held.
  pub run_keeps_latest :
      (uses : List (Use K V))
      → 1 ≤ bound
      → (d : Dict K V) × (run [] uses ≡ ok d)
        × (keys d ≡ latest bound (last_uses [] uses))
        × (length d ≤ bound)
  unfolding Wrote Keeps
  run_keeps_latest uses some_room =
      let (d, ran, keeps) = run-Wrote [] [] uses some_room ([], refl, tt, omega arith, inl refl) in
      (
        d,
        ran,
        Keeps-latest bound (last_uses [] uses) d keeps,
        Keeps-within bound (last_uses [] uses) d keeps,
      )
