-- ===== src/RateLimiter/Registry/Calls.antt =====
-- Histories of calls of the registry: when two calls share a limiter.
use mathlib.Core.Path.{subst}
use omnimemory.Prelude.{
  ℕ, ◌≡◌, ◌≢◌, refl, sym, ap, ◌∙◌, ◌↔◌, Bool, some, List, [], ◌∷◌, String, Result, ok, err, ◌>>=◌,
  ◌>>◌, >>=-eq-ok, arith,
}
use omnimemory.Prelude.Equality.{eq_String, eq_pair}
use omnimemory.Prelude.Dict.{lookup}
use omnimemory.RateLimiter.Registry.{
  TextOps, Key, RegistryError, RateLimiterRegistry, empty_registry, Limits, normalize_key,
  validate_identifier, get_or_create_at, get_or_create, remove, remove_at, clear,
}
use omnimemory.RateLimiter.Registry.Keys.{
  Serves, get_or_create_at-Serves, Serves-found, Serves-held, Serves-known, Serves-same_key,
  Serves-same_ref, IsValid, empty-IsValid, Serves-IsValid, remove_at-IsValid, remove_at-Removes,
  Forgotten, Serves-Forgotten, remove_at-Forgotten, remove_at-Forgotten_held,
}

pub data Request : Type 0 where
  create : String → String → Limits → Request
  drop : String → String → Request
  reset : Request

-- A call of the registry; one that raises leaves it as it was.
module _ (text : TextOps) where
  abbrev created :
      RateLimiterRegistry → Result RegistryError (RateLimiterRegistry × ℕ) → RateLimiterRegistry
  created r (ok (r', ref)) = r'
  created r (err e) = r

  abbrev dropped :
      RateLimiterRegistry → Result RegistryError (RateLimiterRegistry × Bool) → RateLimiterRegistry
  dropped r (ok (r', found)) = r'
  dropped r (err e) = r

  unfoldable pub serve : RateLimiterRegistry → Request → RateLimiterRegistry
  serve r (create provider model limits) = created r (get_or_create text r provider model limits)
  serve r (drop provider model) = dropped r (remove text r provider model)
  serve r reset = clear r

  unfoldable pub serve_all : RateLimiterRegistry → List Request → RateLimiterRegistry
  unfolding serve
  serve_all r [] = r
  serve_all r (q ∷ qs) = serve_all (serve r q) qs

  -- A call that returns went through with a valid key.
  pub get_or_create-Serves :
      (r r' : RateLimiterRegistry) (provider model : String) (limits : Limits) (ref : ℕ)
      → get_or_create text r provider model limits ≡ ok (r', ref)
      → (key : Key) × (normalize_key text provider model ≡ ok key) × Serves r key r' ref
  unfolding get_or_create
  get_or_create-Serves r r' provider model limits ref made =
      let (key, e, h) =
        >>=-eq-ok (normalize_key text provider model)
          (λ key. get_or_create_at text r key provider model limits) made in
      (key, e, get_or_create_at-Serves text r key provider model limits h)

  -- What holds of a registry holds after a call, if it does however the call goes.
  created_cases :
      (P : RateLimiterRegistry → Type 0) (r : RateLimiterRegistry) (provider model : String)
      (limits : Limits)
      → P r
      → ((r' : RateLimiterRegistry) (key : Key) (ref : ℕ) → Serves r key r' ref → P r')
      → P (created r (get_or_create text r provider model limits))
  created_cases P r provider model limits raises returns =
      go (get_or_create text r provider model limits) refl
    where
      go :
          (m : Result RegistryError (RateLimiterRegistry × ℕ))
          → get_or_create text r provider model limits ≡ m
          → P (created r m)
      go (ok (r', ref)) e =
          let (key, _, serves) = get_or_create-Serves r r' provider model limits ref e in
          returns r' key ref serves
      go (err x) e = raises

  dropped_cases :
      (P : RateLimiterRegistry → Type 0) (r : RateLimiterRegistry) (provider model : String)
      → P r
      → ((key : Key) → normalize_key text provider model ≡ ok key → P (remove_at r key).0)
      → P (dropped r (remove text r provider model))
  unfolding remove
  dropped_cases P r provider model raises returns = go (normalize_key text provider model) refl
    where
      go :
          (m : Result RegistryError Key)
          → normalize_key text provider model ≡ m
          → P (dropped r (m >>= λ key. ok (remove_at r key)))
      go (ok key) e = returns key e
      go (err x) e = raises

  serve-IsValid : (r : RateLimiterRegistry) (q : Request) → IsValid r → IsValid (serve r q)
  unfolding serve clear
  serve-IsValid r (create provider model limits) valid =
      created_cases IsValid r provider model limits valid
        (λ r' key ref serves. Serves-IsValid r r' key ref serves valid)
  serve-IsValid r (drop provider model) valid =
      dropped_cases IsValid r provider model valid (λ key e. remove_at-IsValid r key valid)
  serve-IsValid r reset valid = record { in_heap = λ k a h. cc; apart = λ k j a h h'. cc }

  serve_all-IsValid :
      (r : RateLimiterRegistry) (qs : List Request) → IsValid r → IsValid (serve_all r qs)
  unfolding serve_all
  serve_all-IsValid r [] valid = valid
  serve_all-IsValid r (q ∷ qs) valid = serve_all-IsValid (serve r q) qs (serve-IsValid r q valid)

  serve_all-Forgotten :
      (a : ℕ) (r : RateLimiterRegistry) (qs : List Request)
      → Forgotten a r
      → Forgotten a (serve_all r qs)
  unfolding serve_all serve clear
  serve_all-Forgotten a r [] gone = gone
  serve_all-Forgotten a r (create provider model limits ∷ qs) gone = serve_all-Forgotten a _ qs (
      created_cases (Forgotten a) r provider model limits gone
        (λ r' key ref serves. Serves-Forgotten a r r' key ref serves gone))
  serve_all-Forgotten a r (drop provider model ∷ qs) gone = serve_all-Forgotten a _ qs (
      dropped_cases (Forgotten a) r provider model gone (λ key e. remove_at-Forgotten a r key gone))
  serve_all-Forgotten a r (reset ∷ qs) gone = serve_all-Forgotten a (clear r) qs (gone.0, λ k h. cc)

  -- No request removes a key: none clears the registry, and none that passes the validation
  -- removes that key.
  abbrev pub Undisturbed : Key → List Request → Type 0
  Undisturbed key [] = Unit
  Undisturbed key (create provider model limits ∷ qs) = Undisturbed key qs
  Undisturbed key (drop provider model ∷ qs) =
      (normalize_key text provider model ≢ ok key) × Undisturbed key qs
  Undisturbed key (reset ∷ qs) = ⊥

  serve_all-held :
      (a : ℕ) (key : Key) (r : RateLimiterRegistry) (qs : List Request)
      → Undisturbed key qs
      → lookup key r.limiters ≡ some a
      → lookup key (serve_all r qs).limiters ≡ some a
  unfolding serve_all serve
  serve_all-held a key r [] quiet held = held
  serve_all-held a key r (create provider model limits ∷ qs) quiet held =
      serve_all-held a key (serve r (create provider model limits)) qs quiet (
        created_cases (λ x. lookup key x.limiters ≡ some a) r provider model limits held
          (λ r' k ref serves. Serves-held a key r r' k ref serves held))
  serve_all-held a key r (drop provider model ∷ qs) (other, quiet) held =
      serve_all-held a key (serve r (drop provider model)) qs quiet (
        dropped_cases (λ x. lookup key x.limiters ≡ some a) r provider model held
          (λ k e. (remove_at-Removes r k).2 key (λ same. other (e ∙ ap (λ x. ok x) same)) ∙ held))
  serve_all-held a key r (reset ∷ qs) quiet held = absurd quiet

  -- A limiter that has not been forgotten was not disturbed.
  serve_all-Undisturbed :
      (a : ℕ) (key : Key) (r : RateLimiterRegistry) (qs : List Request)
      → IsValid r
      → lookup key r.limiters ≡ some a
      → ¬ Forgotten a (serve_all r qs)
      → Undisturbed key qs
  unfolding serve_all serve remove clear
  serve_all-Undisturbed a key r [] valid held known = tt
  serve_all-Undisturbed a key r (create provider model limits ∷ qs) valid held known =
      serve_all-Undisturbed a key (serve r (create provider model limits)) qs
        (serve-IsValid r (create provider model limits) valid)
        (serve_all-held a key r (create provider model limits ∷ []) tt held) known
  serve_all-Undisturbed a key r (drop provider model ∷ qs) valid held known =
      let other : normalize_key text provider model ≢ ok key = λ e. known (
        serve_all-Forgotten a _ qs (
          subst (λ m. Forgotten a (dropped r (m >>= λ k. ok (remove_at r k)))) (sym e)
            (remove_at-Forgotten_held a r key valid held))) in
      (
        other,
        serve_all-Undisturbed a key (serve r (drop provider model)) qs
            (serve-IsValid r (drop provider model) valid)
            (serve_all-held a key r (drop provider model ∷ []) (other, tt) held) known,
      )
  serve_all-Undisturbed a key r (reset ∷ qs) valid held known =
      known (serve_all-Forgotten a (clear r) qs (valid.in_heap key a held, λ k h. cc))

  -- The last of the two calls, on a registry in which the first has left its limiter.
  shared_iff :
      (key key' : Key) (r : RateLimiterRegistry) (qs : List Request) (ref ref' : ℕ)
      (r' : RateLimiterRegistry)
      → IsValid r
      → lookup key r.limiters ≡ some ref
      → Serves (serve_all r qs) key' r' ref'
      → ref ≡ ref' ↔ (key ≡ key') × Undisturbed key qs
  shared_iff key key' r qs ref ref' r' valid held serves = (
    λ same.
        let quiet = serve_all-Undisturbed ref key r qs valid held (λ gone.
          Serves-known (serve_all r qs) r' key' ref' serves
            (subst (λ a. Forgotten a (serve_all r qs)) same gone)) in
        (
          Serves-same_key (serve_all r qs) r' key key' ref' serves (serve_all-IsValid r qs valid)
              (serve_all-held ref key r qs quiet held ∙ ap (λ a. some a) same),
          quiet,
        ),
    λ (same, quiet). Serves-same_ref (serve_all r qs) r' key' ref ref' serves (
        subst (λ k. lookup k (serve_all r qs).limiters ≡ some ref) same
          (serve_all-held ref key r qs quiet held)),
  )

  -- The provider and the model in lower case, without the blanks around them.
  abbrev pub spelled : String → String → Key
  spelled provider model = (text.strip (text.lower provider), text.strip (text.lower model))

  normalize_key-spelled :
      (provider model : String) (key : Key)
      → normalize_key text provider model ≡ ok key
      → key ≡ spelled provider model
  unfolding normalize_key
  normalize_key-spelled provider model key e =
      go (validate_identifier text provider "provider") (validate_identifier text model "model") e
    where
      go :
          (x y : Result RegistryError (Unit {0}))
          → (do x; y; ok (spelled provider model)) ≡ ok key
          → key ≡ spelled provider model
      go (ok u) (ok v) e = ground arith
      go (ok u) (err y) e = ground arith
      go (err x) y e = ground arith

  -- Two calls of `get_or_create` that return, after any requests to a new registry and with any
  -- requests between them, return the same limiter exactly if their providers and models are the
  -- same up to case and to the blanks around them, and no request between them removed that pair
  -- or cleared the registry. The limits that are asked for do not matter.
  pub limiters_shared :
      (before between : List Request) (provider model provider' model' : String)
      (limits limits' : Limits) {r r' : RateLimiterRegistry} {ref ref' : ℕ}
      → get_or_create text (serve_all empty_registry before) provider model limits ≡ ok (r, ref)
      → get_or_create text (serve_all r between) provider' model' limits' ≡ ok (r', ref')
      → ref ≡ ref'
        ↔ (spelled provider model ≡ spelled provider' model')
          × Undisturbed (spelled provider model) between
  limiters_shared before between provider model provider' model' limits limits' {r} {r'} {ref}
        {ref'} made again =
      let (key, e, serves) = get_or_create-Serves _ r provider model limits ref made in
      let (key', e', serves') = get_or_create-Serves _ r' provider' model' limits' ref' again in
      let valid =
        Serves-IsValid _ r key ref serves (serve_all-IsValid empty_registry before empty-IsValid) in
      subst (λ k. ref ≡ ref' ↔ (k ≡ spelled provider' model') × Undisturbed k between)
        (normalize_key-spelled provider model key e)
        (subst (λ k'. ref ≡ ref' ↔ (key ≡ k') × Undisturbed key between)
          (normalize_key-spelled provider' model' key' e')
          (shared_iff key key' r between ref ref' r' valid (Serves-found _ r key ref serves)
            serves'))
