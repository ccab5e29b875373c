-- ===== src/Metrics/Order.antt =====
-- The keys of a metric in their order, and what a use does to an order.
use omnimemory.Prelude.{
  ℕ, ◌-◌, ◌≡◌, refl, ap, Bool, true, false, none, some, List, [], ◌∷◌, ◌++◌, length, drop,
  if◌then◌else◌, arith,
}
use omnimemory.Prelude.Equality.{Eq}
use omnimemory.Prelude.Dict.{Dict, lookup, erase}

module _ {κ} {K : Type κ} ⦃e : Eq K⦄ where
  abbrev pub remove : K → List K → List K
  remove key [] = []
  remove key (k ∷ ks) = if e.equal k key then remove key ks else k ∷ remove key ks

  abbrev pub holds : K → List K → Bool
  holds key [] = false
  holds key (k ∷ ks) = if e.equal k key then true else holds key ks

  -- A key that is used goes to the end of the order.
  abbrev pub touch : K → List K → List K
  touch key order = remove key order ++ (key ∷ [])

  pub remove-append :
      (key : K) (xs ys : List K) → remove key (xs ++ ys) ≡ remove key xs ++ remove key ys
  remove-append key [] ys = refl
  remove-append key (x ∷ xs) ys = ground (arith, remove-append key xs ys)

-- The last of an order, so many at most.
abbrev pub latest {κ} : {K : Type κ} → ℕ → List K → List K
latest n order = drop (length order - n) order

pub append_assoc {κ} : {K : Type κ} (xs ys zs : List K) → (xs ++ ys) ++ zs ≡ xs ++ (ys ++ zs)
append_assoc [] ys zs = refl
append_assoc (x ∷ xs) ys zs = ap (λ r. x ∷ r) (append_assoc xs ys zs)

pub drop-length {κ} : {K : Type κ} (xs ys : List K) → drop (length xs) (xs ++ ys) ≡ ys
drop-length [] ys = refl
drop-length (x ∷ xs) ys = drop-length xs ys

module _ {κ ν} {K : Type κ} {V : Type ν} ⦃e : Eq K⦄ where
  abbrev pub keys : Dict K V → List K
  keys [] = []
  keys ((k, v) ∷ d) = k ∷ keys d

  pub length-keys : (d : Dict K V) → length (keys d) ≡ length d
  length-keys [] = refl
  length-keys ((k, v) ∷ d) = omega (arith, length-keys d)

  pub keys-snoc : (d : Dict K V) (k : K) (v : V) → keys (d ++ ((k, v) ∷ [])) ≡ keys d ++ (k ∷ [])
  keys-snoc [] k v = refl
  keys-snoc ((j, w) ∷ d) k v = ap (λ r. j ∷ r) (keys-snoc d k v)

  pub keys-erase : (key : K) (d : Dict K V) → keys (erase key d) ≡ remove key (keys d)
  keys-erase key [] = refl
  keys-erase key ((k, v) ∷ d) = ground (arith, keys-erase key d)

  pub remove_absent : (key : K) (d : Dict K V) → lookup key d ≡ none → remove key (keys d) ≡ keys d
  remove_absent key [] absent = refl
  remove_absent key ((k, v) ∷ d) absent = ground (arith, remove_absent key d)

  pub holds-keys :
      (key : K) (d : Dict K V) (v : V) → lookup key d ≡ some v → holds key (keys d) ≡ true
  holds-keys key [] v found = cc
  holds-keys key ((k, w) ∷ d) v found = ground (arith, holds-keys key d v)

  pub holds-keys_absent :
      (key : K) (d : Dict K V) → lookup key d ≡ none → holds key (keys d) ≡ false
  holds-keys_absent key [] absent = refl
  holds-keys_absent key ((k, w) ∷ d) absent = ground (arith, holds-keys_absent key d)
