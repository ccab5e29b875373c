-- ===== src/Metrics/Histograms.antt =====
-- `HistogramValue` and `Histogram`.
use omnimemory.Prelude.{
  ℕ, ◌+◌, ◌≡◌, refl, ap, ◌∙◌, Bool, true, false, List, [], ◌∷◌, length, Result, ok, err, leb,
  if◌then◌else◌, filter, is_nonempty, not, arith,
}
use omnimemory.Prelude.Equality.{Eq}
use omnimemory.Metrics.{Metric, Exception, put, write}

pub record HistogramValue : Type 0 where
  pub buckets : List ℕ
  pub bucket_counts : List ℕ
  pub sum_value : ℕ
  pub count : ℕ

abbrev pub zeros : List ℕ → List ℕ
zeros [] = 0 ∷ []
zeros (b ∷ buckets) = 0 ∷ zeros buckets

-- `HistogramValue(buckets=…)`, with its `__post_init__`.
unfoldable pub new_value : List ℕ → HistogramValue
new_value buckets = record {
  buckets = buckets;
  bucket_counts = zeros buckets;
  sum_value = 0;
  count = 0;
}

-- The loop over the buckets, and the last count, which every observation raises.
abbrev pub raise_counts : ℕ → List ℕ → List ℕ → List ℕ
raise_counts value buckets [] = []
raise_counts value [] (n ∷ counts) = (n + 1) ∷ counts
raise_counts value (b ∷ buckets) (n ∷ counts) =
    (if leb value b then n + 1 else n) ∷ raise_counts value buckets counts

-- `HistogramValue.observe`
unfoldable pub observe_value : ℕ → HistogramValue → HistogramValue
observe_value value h = record h {
  bucket_counts = raise_counts value h.buckets h.bucket_counts;
  sum_value = h.sum_value + value;
  count = h.count + 1;
}

-- The checks of `Histogram.__init__`; an exception is a `ValueError`.
pub data InitError : Type 0 where
  no_buckets not_positive not_ascending : InitError

abbrev pub all_positive : List ℕ → Bool
all_positive [] = true
all_positive (b ∷ buckets) = if leb b 0 then false else all_positive buckets

abbrev pub ascending_from : ℕ → List ℕ → Bool
ascending_from last [] = true
ascending_from last (b ∷ buckets) = if leb b last then false else ascending_from b buckets

abbrev pub ascending : List ℕ → Bool
ascending [] = true
ascending (b ∷ buckets) = ascending_from b buckets

pub record Histogram {κ} (K : Type κ) : Type κ where
  pub buckets : List ℕ
  pub metric : Metric K HistogramValue

unfoldable pub new_histogram {κ} : {K : Type κ} → List ℕ → ℕ → Result InitError (Histogram K)
new_histogram buckets max_entries =
    if not (is_nonempty buckets)
    then err no_buckets
    else if not (all_positive buckets)
    then err not_positive
    else if not (ascending buckets)
    then err not_ascending
    else ok
        (record { buckets = buckets; metric = record { max_entries = max_entries; values = [] } })

module _ {κ} {K : Type κ} ⦃e : Eq K⦄ where
  -- `Histogram.observe`
  unfoldable pub observe : Histogram K → K → ℕ → Result Exception (Histogram K)
  unfolding write new_value observe_value
  observe h key value =
      elim (put h.metric (
        write h.metric.max_entries key (new_value h.buckets) (observe_value value)
          h.metric.values)) [ err x ↦ err x | ok m ↦ ok (record h { metric = m }) ]

-- Observations in turn, the latest first.
unfoldable pub observe_all : HistogramValue → List ℕ → HistogramValue
unfolding observe_value
observe_all h [] = h
observe_all h (v ∷ values) = observe_value v (observe_all h values)

-- How many of some observations a bucket takes.
abbrev pub at_most : ℕ → List ℕ → ℕ
at_most bound values = length (filter (λ v. leb v bound) values)

abbrev pub total : List ℕ → ℕ
total [] = 0
total (v ∷ values) = v + total values

-- The counts of some buckets, and of all values.
abbrev pub counts_of : List ℕ → List ℕ → List ℕ
counts_of [] values = length values ∷ []
counts_of (b ∷ buckets) values = at_most b values ∷ counts_of buckets values

raise_counts-counts_of :
    (v : ℕ) (buckets values : List ℕ)
    → raise_counts v buckets (counts_of buckets values) ≡ counts_of buckets (v ∷ values)
raise_counts-counts_of v [] values = ap (λ n. n ∷ []) (omega arith)
raise_counts-counts_of v (b ∷ buckets) values =
    ground (arith, raise_counts-counts_of v buckets values)

zeros_lem : (buckets : List ℕ) → zeros buckets ≡ counts_of buckets []
zeros_lem [] = refl
zeros_lem (b ∷ buckets) = ap (λ r. 0 ∷ r) (zeros_lem buckets)

observe_all-buckets :
    (buckets values : List ℕ) → (observe_all (new_value buckets) values).buckets ≡ buckets
unfolding observe_all new_value
observe_all-buckets buckets [] = refl
observe_all-buckets buckets (v ∷ values) = observe_all-buckets buckets values

-- After any observations, a new histogram value has for each bucket the number of observations
-- that do not exceed its bound, then the number of them all, and their sum and their number.
pub observe_all_lem :
    (buckets values : List ℕ)
    → ((observe_all (new_value buckets) values).bucket_counts ≡ counts_of buckets values)
      × ((observe_all (new_value buckets) values).sum_value ≡ total values)
      × ((observe_all (new_value buckets) values).count ≡ length values)
unfolding observe_all new_value observe_value
observe_all_lem buckets [] = (zeros_lem buckets, refl, refl)
observe_all_lem buckets (v ∷ values) =
    let before = observe_all_lem buckets values in
    (
      ap (λ b. raise_counts v b (observe_all (new_value buckets) values).bucket_counts)
            (observe_all-buckets buckets values)
          ∙ ap (raise_counts v buckets) before.0
          ∙ raise_counts-counts_of v buckets values,
      omega (arith, before.1),
      omega (arith, before.2),
    )
