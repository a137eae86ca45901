-- ===== src/Metrics/Percentile.antt =====
-- What `p95` and `p99` of tugas-3/src/utils/metrics.py are of the observed values.
use native.Mathlib.Nat.{mul-le-mul_left}
use sistem_paralel_terdistri.Common.{
  List, [], ap, append-nil, append_assoc, arith, drop, drop-drop, false, get_elem?, is_empty,
  length, length-append, length-drop, min, refl, some, subst, suc, sym, zero, ℕ, ◌*◌, ◌++◌, ◌+◌,
  ◌-◌, ◌/◌, ◌<◌, ◌∙◌, ◌∷◌, ◌≡◌, ◌≤◌,
}
use sistem_paralel_terdistri.Metrics.Instruments.{
  Histogram, keep_last, new_histogram, observe, observe_all, percentile, sorted,
}
use sistem_paralel_terdistri.Metrics.Sorting.{
  at_most, at_most-sorted, below, below-sorted, rank, sorted-IsSorted, sorted-length,
}

module _ {A : Type 0} where
  drop-append : (k : ℕ) (l m : List A) → k ≤ length l → drop k (l ++ m) ≡ drop k l ++ m
  drop-append zero l m h = refl
  drop-append (suc k) [] m h = absurd (omega (arith, h))
  drop-append (suc k) (x ∷ l) m h = drop-append k l m (omega (arith, h))

  -- Nothing that is dropped comes back.
  keep_last-append :
      (n : ℕ) (l m : List A) → keep_last n (keep_last n l ++ m) ≡ keep_last n (l ++ m)
  keep_last-append n l m =
      let k = length l - n in
      let within : k ≤ length l = omega arith in
      let e : length (drop k l ++ m) - n + k ≡ length (l ++ m) - n =
        omega (arith, length-append (drop k l) m, length-append l m, length-drop k l) in
      let f : k + (length (drop k l ++ m) - n) ≡ length (l ++ m) - n = omega (arith, e) in
      ap (drop (length (drop k l ++ m) - n)) (sym (drop-append k l m within))
      ∙ drop-drop k (length (drop k l ++ m) - n) (l ++ m)
      ∙ ap (λ j. drop j (l ++ m)) f

  get_elem?-some : (i : ℕ) (l : List A) → i < length l → (a : A) × (get_elem? l i ≡ some a)
  get_elem?-some i [] h = absurd (omega (arith, h))
  get_elem?-some zero (x ∷ l) h = (x, refl)
  get_elem?-some (suc i) (x ∷ l) h = get_elem?-some i l (omega (arith, h))

not_empty : (l : List ℕ) → 1 ≤ length l → is_empty l ≡ false
not_empty [] h = absurd (omega (arith, h))
not_empty (x ∷ l) h = refl

observe_all-samples :
    (vs : List ℕ) (h : Histogram)
    → length h.samples ≤ h.buckets
    → (observe_all vs h).samples ≡ keep_last h.buckets (h.samples ++ vs)
unfolding observe_all observe
observe_all-samples [] h short =
    let none_over : 0 ≡ length (h.samples ++ []) - h.buckets =
      omega (arith, short, length-append h.samples []) in
    sym (append-nil h.samples) ∙ ap (λ k. drop k (h.samples ++ [])) none_over
observe_all-samples (v ∷ vs) h short =
    let next = h.samples ++ v ∷ [] in
    let kept : length (keep_last h.buckets next) ≤ h.buckets =
      omega (arith, length-drop (length next - h.buckets) next) in
    observe_all-samples vs (observe v h) kept
    ∙ keep_last-append h.buckets next vs
    ∙ ap (keep_last h.buckets) (append_assoc h.samples (v ∷ []) vs)

percentile-at :
    (q i p : ℕ) (h : Histogram)
    → 1 ≤ length h.samples
    → min (length h.samples * q / 100) (length h.samples - 1) ≡ i
    → get_elem? (sorted h.samples) i ≡ some p
    → percentile q h ≡ p
unfolding percentile
percentile-at q i p h some_there at e =
    let full : is_empty h.samples ≡ false = not_empty h.samples some_there in rw (full, at, e) refl

-- The value that `percentile` gives: more than that share of the samples are at most it, and at most
-- that share are below it.
abbrev pub IsPercentile : ℕ → ℕ → List ℕ → Type 0
IsPercentile q p l = (length l * q < 100 * at_most p l) × (100 * below p l ≤ length l * q)

percentile-IsPercentile :
    (q : ℕ) (h : Histogram)
    → 1 ≤ length h.samples
    → q < 100
    → IsPercentile q (percentile q h) h.samples
percentile-IsPercentile q h some_there lt =
    let n = length h.samples in
    let i = n * q / 100 in
    let share : n * q ≤ n * 99 = mul-le-mul_left n (omega (arith, lt)) in
    let at : min (n * q / 100) (n - 1) ≡ i = omega (arith, share, some_there) in
    let (p, e) =
      get_elem?-some i (sorted h.samples)
        (omega (arith, sorted-length h.samples, some_there, share)) in
    let (more, less) = rank i p (sorted h.samples) (sorted-IsSorted h.samples) e in
    rw (percentile-at q i p h some_there at e) (
      omega (arith, more, at_most-sorted p h.samples),
      omega (arith, less, below-sorted p h.samples),
    )

-- A histogram that keeps `n` samples, after any values: its samples are the last `n` of the values, or
-- all where there are fewer. The percentile `q` below 100, as 95 for `p95` and 99 for `p99`, is within
-- them: more than q percent of them are at most it, and at most q percent are below it.
pub percentile_of_last :
    (q n : ℕ) (vs : List ℕ)
    → q < 100
    → 1 ≤ n
    → 1 ≤ length vs
    → let h = observe_all vs (new_histogram n) in
      (h.samples ≡ drop (length vs - n) vs)
      × (length h.samples * q < 100 * at_most (percentile q h) h.samples)
      × (100 * below (percentile q h) h.samples ≤ length h.samples * q)
percentile_of_last q n vs lt room some_there =
    let h = observe_all vs (new_histogram n) in
    let e = observe_all-samples vs (new_histogram n) (omega arith) in
    let full : 1 ≤ length h.samples =
      subst (λ l. 1 ≤ length l) (sym e)
        (omega (arith, length-drop (length vs - n) vs, room, some_there)) in
    let (more, less) = percentile-IsPercentile q h full lt in (e, more, less)
