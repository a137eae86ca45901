-- ===== src/Metrics/Tests.antt =====
-- A histogram with room for four of six values.
use sistem_paralel_terdistri.Common.{
  List, [], arith, drop, length, refl, ℕ, ◌*◌, ◌-◌, ◌<◌, ◌∷◌, ◌≡◌, ◌≤◌,
}
use sistem_paralel_terdistri.Metrics.Instruments.{
  Histogram, new_histogram, observe, observe_all, p95, percentile, sort_in, sorted,
}
use sistem_paralel_terdistri.Metrics.Percentile.{percentile_of_last}
use sistem_paralel_terdistri.Metrics.Sorting.{at_most, below}

program : Unit {0}
unfolding observe_all observe sorted sort_in percentile
program = tt

abbrev values_seen : List ℕ
values_seen = 90 ∷ 3 ∷ 7 ∷ 5 ∷ 7 ∷ 1 ∷ []

seen : Histogram
seen = observe_all values_seen (new_histogram 4)

seen_percentiles :
    (seen.samples ≡ 7 ∷ 5 ∷ 7 ∷ 1 ∷ [])
    × (p95 seen ≡ 7)
    × (percentile 25 seen ≡ 5)
    × (seen.count ≡ 6)
unfolding program seen
seen_percentiles = (refl, refl, refl, refl)

percentile_of_last_example :
    let h = observe_all values_seen (new_histogram 4) in
    (h.samples ≡ drop (length values_seen - 4) values_seen)
    × (length h.samples * 95 < 100 * at_most (percentile 95 h) h.samples)
    × (100 * below (percentile 95 h) h.samples ≤ length h.samples * 95)
percentile_of_last_example =
    percentile_of_last 95 4 values_seen (omega arith) (omega arith) (omega arith)
