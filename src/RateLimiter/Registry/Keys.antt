-- ===== src/RateLimiter/Registry/Keys.antt =====
-- What an operation under a normalized key does to the registry, and to the other keys.
use omnimemory.Prelude.{
  ℕ, ◌<◌, ◌≡◌, ◌≢◌, refl, Bool, false, Option, none, some, [], ◌∷◌, ◌++◌, String, Result, ok, err,
  ◌↔◌, length, length-append, inl, inr, ◌⊎◌, ◌∙◌, sym, Option-cases, arith,
}
use omnimemory.Prelude.Equality.{eq_String, eq_pair}
use omnimemory.Prelude.Dict.{
  lookup, erase, lookup-insert-some, lookup-insert_self, lookup-insert_ne, lookup-erase_self,
  lookup-erase_ne, lookup-erase-some,
}
use omnimemory.RateLimiter.{RateLimiterConfig, init}
use omnimemory.RateLimiter.Registry.{
  TextOps, Key, RegistryError, RateLimiterRegistry, empty_registry, Limits, make_config, allocate,
  get_or_create_at, remove_at,
}

-- What `get_or_create` under a key has done: it found a limiter, or it made a new object.
abbrev pub Serves : RateLimiterRegistry → Key → RateLimiterRegistry → ℕ → Type 0
Serves r key r' ref =
    ((lookup key r.limiters ≡ some ref) × (r' ≡ r))
    ⊎ ((c : RateLimiterConfig) × (lookup key r.limiters ≡ none)
        × (ref ≡ length r.heap)
        × (r' ≡ (allocate r key c).0))

module _ (text : TextOps) (r : RateLimiterRegistry) (key : Key) (provider model : String)
    (limits : Limits) where
  pub get_or_create_at-Serves :
      {r' : RateLimiterRegistry} {ref : ℕ}
      → get_or_create_at text r key provider model limits ≡ ok (r', ref)
      → Serves r key r' ref
  unfolding get_or_create_at
  get_or_create_at-Serves {r'} {ref} made =
      go (lookup key r.limiters) refl (make_config text provider model limits) refl
    where
      go :
          (o : Option ℕ)
          → lookup key r.limiters ≡ o
          → (c : Result RegistryError RateLimiterConfig)
          → make_config text provider model limits ≡ c
          → Serves r key r' ref
      go (some a) e c d = inl (e ∙ ground arith, ground arith)
      go none e (ok c) d = inr (c, e, ground arith, ground arith)
      go none e (err x) d = ground arith

pub Serves-found :
    (r r' : RateLimiterRegistry) (key : Key) (ref : ℕ)
    → Serves r key r' ref
    → lookup key r'.limiters ≡ some ref
Serves-found r r' key ref (inl (found, same)) = rw same found
Serves-found r r' key ref (inr (c, missing, fresh, made)) =
    rw (made, fresh) (lookup-insert_self key (length r.heap) r.limiters)

-- Keys share no limiter, and each refers to an object that exists.
pub record IsValid (r : RateLimiterRegistry) : Type 0 where
  pub in_heap : (k : Key) (a : ℕ) → lookup k r.limiters ≡ some a → a < length r.heap
  pub apart :
      (k j : Key) (a : ℕ) → lookup k r.limiters ≡ some a → lookup j r.limiters ≡ some a → k ≡ j

pub empty-IsValid : IsValid empty_registry
empty-IsValid = record { in_heap = λ k a h. cc; apart = λ k j a h h'. cc }

-- In a grown registry a key is the new one with the new reference, or an old one.
lookup_allocated :
    (r : RateLimiterRegistry) (key k : Key) (c : RateLimiterConfig) (a : ℕ)
    → lookup k (allocate r key c).0.limiters ≡ some a
    → ((key ≡ k) × (a ≡ length r.heap)) ⊎ (lookup k r.limiters ≡ some a)
lookup_allocated r key k c a h = lookup-insert-some key k (length r.heap) a r.limiters h

allocate-IsValid :
    (r : RateLimiterRegistry) (key : Key) (c : RateLimiterConfig)
    → IsValid r
    → IsValid (allocate r key c).0
allocate-IsValid r key c valid = record { in_heap = held; apart = distinct }
  where
    held :
        (k : Key) (a : ℕ)
        → lookup k (allocate r key c).0.limiters ≡ some a
        → a < length (r.heap ++ init c ∷ [])
    held k a h = elim (lookup_allocated r key k c a h) [
      | inl (_, e) ↦ omega (arith, length-append r.heap (init c ∷ []))
      | inr old ↦ omega (arith, length-append r.heap (init c ∷ []), valid.in_heap k a old)
    ]

    distinct :
        (k j : Key) (a : ℕ)
        → lookup k (allocate r key c).0.limiters ≡ some a
        → lookup j (allocate r key c).0.limiters ≡ some a
        → k ≡ j
    distinct k j a h h' = elim (lookup_allocated r key k c a h) [
      | inl (e, f) ↦ elim (lookup_allocated r key j c a h') [
        | inl (e', _) ↦ sym e ∙ e'
        | inr old ↦ absurd (omega (arith, valid.in_heap j a old))
      ]
      | inr old ↦ elim (lookup_allocated r key j c a h') [
        | inl (_, f) ↦ absurd (omega (arith, valid.in_heap k a old))
        | inr old' ↦ valid.apart k j a old old'
      ]
    ]

pub Serves-IsValid :
    (r r' : RateLimiterRegistry) (key : Key) (ref : ℕ)
    → Serves r key r' ref
    → IsValid r
    → IsValid r'
Serves-IsValid r r' key ref (inl (_, same)) valid = rw same valid
Serves-IsValid r r' key ref (inr (c, _, _, made)) valid = rw made (allocate-IsValid r key c valid)

pub erase-IsValid :
    (r : RateLimiterRegistry) (key : Key)
    → IsValid r
    → IsValid (record r { limiters = erase key r.limiters })
erase-IsValid r key valid = record {
  in_heap = λ k a h. valid.in_heap k a (lookup-erase-some key k a r.limiters h).0;
  apart = λ k j a h h'.
      valid.apart k j a (lookup-erase-some key k a r.limiters h).0
        (lookup-erase-some key j a r.limiters h').0;
}

pub remove_at-IsValid :
    (r : RateLimiterRegistry) (key : Key) → IsValid r → IsValid (remove_at r key).0
unfolding remove_at
remove_at-IsValid r key valid = elim (Option-cases (lookup key r.limiters)) [
  | inl e ↦ rw (e, remove_at) valid
  | inr (a, e) ↦ rw (e, remove_at) (erase-IsValid r key valid)
]

-- What `remove` does under a key: the key is gone, the flag says whether it was there, and no
-- other key is touched.
abbrev pub Removes : RateLimiterRegistry → Key → RateLimiterRegistry × Bool → Type 0
Removes r key (r', b) =
    (lookup key r'.limiters ≡ none)
    × ((b ≡ false) ↔ (lookup key r.limiters ≡ none))
    × ((j : Key) → key ≢ j → lookup j r'.limiters ≡ lookup j r.limiters)

pub remove_at-Removes : (r : RateLimiterRegistry) (key : Key) → Removes r key (remove_at r key)
unfolding remove_at
remove_at-Removes r key = elim (Option-cases (lookup key r.limiters)) [
  | inl e ↦ rw (e, remove_at) (e, (λ h. refl, λ h. refl), λ j h. refl)
  | inr (a, e) ↦
      rw (e, remove_at)
        (
          lookup-erase_self key r.limiters,
          (λ h. cc, λ h. cc),
          λ j h. lookup-erase_ne key j r.limiters h,
        )
]

-- A limiter that no key refers to any more.
abbrev pub Forgotten : ℕ → RateLimiterRegistry → Type 0
Forgotten a r = (a < length r.heap) × ((k : Key) → lookup k r.limiters ≢ some a)

pub Serves-Forgotten :
    (a : ℕ) (r r' : RateLimiterRegistry) (key : Key) (ref : ℕ)
    → Serves r key r' ref
    → Forgotten a r
    → Forgotten a r'
Serves-Forgotten a r r' key ref (inl (_, same)) gone = rw same gone
Serves-Forgotten a r r' key ref (inr (c, _, _, made)) gone = rw made (
  omega (arith, gone.0, length-append r.heap (init c ∷ [])),
  λ k h. elim (lookup_allocated r key k c a h) [
    | inl (_, e) ↦ omega (arith, gone.0)
    | inr old ↦ gone.1 k old
  ],
)

pub remove_at-Forgotten :
    (a : ℕ) (r : RateLimiterRegistry) (key : Key) → Forgotten a r → Forgotten a (remove_at r key).0
unfolding remove_at
remove_at-Forgotten a r key gone = elim (Option-cases (lookup key r.limiters)) [
  | inl e ↦ rw (e, remove_at) gone
  | inr (b, e) ↦
      rw (e, remove_at) (gone.0, λ k h. gone.1 k (lookup-erase-some key k a r.limiters h).0)
]

-- The limiter of a key that is removed.
pub remove_at-Forgotten_held :
    (a : ℕ) (r : RateLimiterRegistry) (key : Key)
    → IsValid r
    → lookup key r.limiters ≡ some a
    → Forgotten a (remove_at r key).0
unfolding remove_at
remove_at-Forgotten_held a r key valid held =
    rw (held, remove_at)
      (
        valid.in_heap key a held,
        λ k h.
            let (there, h') = lookup-erase-some key k a r.limiters h in
            h' (valid.apart key k a held there),
      )

pub Serves-held :
    (a : ℕ) (key : Key) (r r' : RateLimiterRegistry) (k : Key) (ref : ℕ)
    → Serves r k r' ref
    → lookup key r.limiters ≡ some a
    → lookup key r'.limiters ≡ some a
Serves-held a key r r' k ref (inl (_, same)) held = rw same held
Serves-held a key r r' k ref (inr (c, missing, fresh, made)) held =
    rw made
      (lookup-insert_ne k key (length r.heap) r.limiters (λ same. cc (same, missing, held)) ∙ held)

pub Serves-known :
    (r r' : RateLimiterRegistry) (key : Key) (ref : ℕ) → Serves r key r' ref → ¬ Forgotten ref r
Serves-known r r' key ref (inl (found, _)) gone = gone.1 key found
Serves-known r r' key ref (inr (c, _, fresh, _)) gone = omega (arith, fresh, gone.0)

pub Serves-same_key :
    (r r' : RateLimiterRegistry) (key key' : Key) (ref : ℕ)
    → Serves r key' r' ref
    → IsValid r
    → lookup key r.limiters ≡ some ref
    → key ≡ key'
Serves-same_key r r' key key' ref (inl (found, _)) valid held = valid.apart key key' ref held found
Serves-same_key r r' key key' ref (inr (c, _, fresh, _)) valid held =
    absurd (omega (arith, fresh, valid.in_heap key ref held))

pub Serves-same_ref :
    (r r' : RateLimiterRegistry) (key : Key) (ref ref' : ℕ)
    → Serves r key r' ref'
    → lookup key r.limiters ≡ some ref
    → ref ≡ ref'
Serves-same_ref r r' key ref ref' (inl (found, _)) held = ground (arith, found, held)
Serves-same_ref r r' key ref ref' (inr (c, missing, _, _)) held = ground (arith, missing, held)
