-- ===== src/RateLimiter/Registry.antt =====
-- `RateLimiterRegistry` of src/omnimemory/handlers/adapters/adapter_rate_limiter.py, and the
-- validation of src/omnimemory/models/config/model_rate_limiter_config.py. A limiter is an object
-- that callers share, so the registry maps a key to a reference into a heap of limiters. The
-- operations of `str` and the compiled pattern are Python's, and enter as a record.
pub mod Keys
pub mod Calls
use omnimemory.Prelude.{
  ℕ, ◌*◌, Bool, true, false, not, ◌&&◌, ◌||◌, Option, none, some, List, [], ◌∷◌, ◌++◌, String,
  Result, ok, err, ◌>>=◌, ◌>>◌, leb, length, if◌then◌else◌,
}
use omnimemory.Prelude.Equality.{Eq, eq_String, eq_pair}
use omnimemory.Prelude.Dict.{Dict, lookup, insert, erase}
use omnimemory.RateLimiter.{Factor, RateLimiterConfig, ProviderRateLimiter, init}

-- `str.lower`, `str.strip` and `_IDENTIFIER_PATTERN.match`.
pub record TextOps : Type 0 where
  pub lower : String → String
  pub strip : String → String
  pub matches : String → Bool

abbrev pub Key : Type 0
Key = String × String

pub data RegistryError : Type 0 where
  empty_identifier : String → RegistryError
  invalid_characters : String → String → RegistryError
  invalid_config : RegistryError

pub record RateLimiterRegistry : Type 0 where
  pub limiters : Dict Key ℕ
  pub heap : List ProviderRateLimiter

abbrev pub empty_registry : RateLimiterRegistry
empty_registry = record { limiters = []; heap = [] }

abbrev pub is_empty : String → Bool
is_empty s = eq_String.equal s ""

-- The default `backoff_multiplier`, 2.0, which doubles exactly.
abbrev pub doubling : Factor
doubling = record { in_range = true; ceil_times = λ n. 2 * n; times = λ t. 2 * t }

-- What `get_or_create` is asked for besides the key.
pub record Limits : Type 0 where
  pub requests_per_minute : ℕ
  pub tokens_per_minute : ℕ
  pub burst_multiplier : Factor

-- `self._limiters[key] = ProviderRateLimiter(config)`, a new object.
abbrev pub allocate : RateLimiterRegistry → Key → RateLimiterConfig → RateLimiterRegistry × ℕ
allocate r key config = (
  record { limiters = insert key (length r.heap) r.limiters; heap = r.heap ++ init config ∷ [] },
  length r.heap,
)

-- `remove` under the lock.
unfoldable pub remove_at : RateLimiterRegistry → Key → RateLimiterRegistry × Bool
remove_at r key = elim (lookup key r.limiters) [
  | some ref ↦ (record r { limiters = erase key r.limiters }, true)
  | none ↦ (r, false)
]

module _ (text : TextOps) where
  -- `_validate_identifier`: the value that it lets through.
  unfoldable pub validate_identifier : String → String → Result RegistryError (Unit {0})
  validate_identifier value field_name =
      if is_empty value || is_empty (text.strip value)
      then err (empty_identifier field_name)
      else if not (text.matches (text.strip value))
      then err (invalid_characters field_name value)
      else ok tt

  unfoldable pub normalize_key : String → String → Result RegistryError Key
  unfolding validate_identifier
  normalize_key provider model = do
    validate_identifier provider "provider"
    validate_identifier model "model"
    ok (text.strip (text.lower provider), text.strip (text.lower model))

  -- The field constraints and `normalize_identifier`.
  unfoldable pub make_config : String → String → Limits → Result RegistryError RateLimiterConfig
  make_config provider model limits =
      if not (is_empty provider)
        && not (is_empty model)
        && leb 1 limits.requests_per_minute
        && leb limits.requests_per_minute 10_000
        && leb limits.tokens_per_minute 10_000_000
        && limits.burst_multiplier.in_range
        && not (is_empty (text.strip (text.lower provider)))
        && not (is_empty (text.strip (text.lower model)))
      then ok (record {
        provider = text.strip (text.lower provider);
        model = text.strip (text.lower model);
        requests_per_minute = limits.requests_per_minute;
        tokens_per_minute = limits.tokens_per_minute;
        burst_multiplier = limits.burst_multiplier;
        initial_backoff = 100_000;
        max_backoff = 5_000_000;
        backoff_multiplier = doubling;
      })
      else err invalid_config

  -- `get_or_create` under the lock.
  unfoldable pub get_or_create_at :
      RateLimiterRegistry
      → Key
      → String
      → String
      → Limits
      → Result RegistryError (RateLimiterRegistry × ℕ)
  get_or_create_at r key provider model limits = elim (lookup key r.limiters) [
    | some ref ↦ ok (r, ref)
    | none ↦ do config ← make_config provider model limits; ok (allocate r key config)
  ]

  unfoldable pub get_or_create :
      RateLimiterRegistry
      → String
      → String
      → Limits
      → Result RegistryError (RateLimiterRegistry × ℕ)
  unfolding get_or_create_at
  get_or_create r provider model limits = do
    key ← normalize_key provider model
    get_or_create_at r key provider model limits

  unfoldable pub get : RateLimiterRegistry → String → String → Result RegistryError (Option ℕ)
  get r provider model = do key ← normalize_key provider model; ok (lookup key r.limiters)

  unfoldable pub remove :
      RateLimiterRegistry → String → String → Result RegistryError (RateLimiterRegistry × Bool)
  unfolding remove_at
  remove r provider model = do key ← normalize_key provider model; ok (remove_at r key)

unfoldable pub clear : RateLimiterRegistry → RateLimiterRegistry
clear r = record r { limiters = [] }

-- `count` and `count_exact`
unfoldable pub count : RateLimiterRegistry → ℕ
count r = length r.limiters
