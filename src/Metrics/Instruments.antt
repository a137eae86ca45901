-- ===== src/Metrics/Instruments.antt =====
-- The instruments and the registry of tugas-3/src/utils/metrics.py. Values of counters and gauges are
-- a type with the arithmetic that the code uses; samples of a histogram are counted in clock ticks.
use sistem_paralel_terdistri.Common.{
  Dict, List, [], drop, get_elem?, get_or, if◌then◌else◌, insert, is_empty, leb, length, lookup,
  min, ℕ, ◌*◌, ◌++◌, ◌+◌, ◌-◌, ◌/◌, ◌∷◌,
}

pub record Arithmetic (V : Type 0) : Type 0 where
  pub nought : V
  pub plus : V → V → V
  pub minus : V → V → V

-- `deque(maxlen=n)` after an append: the last `n` elements.
abbrev pub keep_last : {A : Type 0} → ℕ → List A → List A
keep_last n l = drop (length l - n) l

pub record Histogram : Type 0 where
  pub buckets : ℕ
  pub samples : List ℕ
  pub sum : ℕ
  pub count : ℕ

abbrev pub new_histogram : ℕ → Histogram
new_histogram buckets = record { buckets = buckets; samples = []; sum = 0; count = 0 }

unfoldable pub observe : ℕ → Histogram → Histogram
observe value h = record {
  buckets = h.buckets;
  samples = keep_last h.buckets (h.samples ++ value ∷ []);
  sum = h.sum + value;
  count = h.count + 1;
}

unfoldable pub observe_all : List ℕ → Histogram → Histogram
observe_all [] h = h
observe_all (v ∷ vs) h = observe_all vs (observe v h)

-- `sorted`
unfoldable pub sort_in : ℕ → List ℕ → List ℕ
sort_in x [] = x ∷ []
sort_in x (y ∷ ys) = if leb x y then x ∷ y ∷ ys else y ∷ sort_in x ys

unfoldable pub sorted : List ℕ → List ℕ
sorted [] = []
sorted (x ∷ xs) = sort_in x (sorted xs)

-- `p95` and `p99` differ in the percentage; `int` rounds the product down.
unfoldable pub percentile : ℕ → Histogram → ℕ
percentile q h =
    if is_empty h.samples
    then 0
    else get_or
        (get_elem? (sorted h.samples) (min (length h.samples * q / 100) (length h.samples - 1))) 0

abbrev pub p99 : Histogram → ℕ
p99 h = percentile 99 h

abbrev pub p95 : Histogram → ℕ
p95 h = percentile 95 h

-- Counters and gauges by name, and the history of a name, with the times of the snapshots.
pub record MetricsRegistry (V : Type 0) : Type 0 where
  pub counters : Dict V
  pub gauges : Dict V
  pub histograms : Dict Histogram
  pub history : Dict (List (ℕ × V))

module _ {V : Type 0} (number : Arithmetic V) where
  -- `registry.counter(name).inc(amount)`, and so on.
  unfoldable pub inc_counter : ℕ → V → MetricsRegistry V → MetricsRegistry V
  inc_counter name amount r = record r {
    counters =
        insert name (number.plus (get_or (lookup name r.counters) number.nought) amount) r.counters;
  }

  unfoldable pub set_gauge : ℕ → V → MetricsRegistry V → MetricsRegistry V
  set_gauge name value r = record r { gauges = insert name value r.gauges }

  unfoldable pub inc_gauge : ℕ → V → MetricsRegistry V → MetricsRegistry V
  inc_gauge name amount r =
      set_gauge name (number.plus (get_or (lookup name r.gauges) number.nought) amount) r

  unfoldable pub dec_gauge : ℕ → V → MetricsRegistry V → MetricsRegistry V
  dec_gauge name amount r =
      set_gauge name (number.minus (get_or (lookup name r.gauges) number.nought) amount) r

  unfoldable pub observe_in : ℕ → ℕ → MetricsRegistry V → MetricsRegistry V
  observe_in name value r = record r {
    histograms =
        insert name (observe value (get_or (lookup name r.histograms) (new_histogram 100)))
          r.histograms;
  }

  -- `self._history[name].append(...)`
  abbrev pub remember : ℕ → ℕ → V → Dict (List (ℕ × V)) → Dict (List (ℕ × V))
  remember ts name value d =
      insert name (keep_last 1000 (get_or (lookup name d) [] ++ (ts, value) ∷ [])) d

  unfoldable pub remember_all : ℕ → Dict V → Dict (List (ℕ × V)) → Dict (List (ℕ × V))
  remember_all ts [] d = d
  remember_all ts ((name, value) ∷ vs) d = remember_all ts vs (remember ts name value d)

  unfoldable pub record_history : ℕ → MetricsRegistry V → MetricsRegistry V
  record_history ts r = record r {
    history = remember_all ts r.gauges (remember_all ts r.counters r.history);
  }

  unfoldable pub get_history : ℕ → MetricsRegistry V → List (ℕ × V)
  get_history name r = get_or (lookup name r.history) []
