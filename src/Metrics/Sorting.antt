-- ===== src/Metrics/Sorting.antt =====
-- What `sorted` does to the numbers of smaller elements.
use sistem_paralel_terdistri.Common.{
  All, All-map, Bool-cases, List, [], ap, arith, get_elem?, if◌then◌else◌, inl, inr, leb, leb→le,
  length, ltb, refl, some, subst, suc, zero, ℕ, ◌∙◌, ◌∷◌, ◌≡◌, ◌≤◌,
}
use sistem_paralel_terdistri.Metrics.Instruments.{sort_in, sorted}

-- How many elements are at most `p`, and how many are below.
abbrev pub at_most : ℕ → List ℕ → ℕ
at_most p [] = 0
at_most p (x ∷ xs) = if leb x p then suc (at_most p xs) else at_most p xs

abbrev pub below : ℕ → List ℕ → ℕ
below p [] = 0
below p (x ∷ xs) = if ltb x p then suc (below p xs) else below p xs

abbrev pub IsSorted : List ℕ → Type 0
IsSorted [] = Unit {0}
IsSorted (x ∷ xs) = All (λ y. x ≤ y) xs × IsSorted xs

sort_in-length : (x : ℕ) (xs : List ℕ) → length (sort_in x xs) ≡ suc (length xs)
unfolding sort_in
sort_in-length x [] = refl
sort_in-length x (y ∷ ys) = ground (arith, sort_in-length x ys)

pub sorted-length : (xs : List ℕ) → length (sorted xs) ≡ length xs
unfolding sorted
sorted-length [] = refl
sorted-length (x ∷ xs) = sort_in-length x (sorted xs) ∙ ap suc (sorted-length xs)

at_most-sort_in : (p x : ℕ) (xs : List ℕ) → at_most p (sort_in x xs) ≡ at_most p (x ∷ xs)
unfolding sort_in
at_most-sort_in p x [] = refl
at_most-sort_in p x (y ∷ ys) = ground (arith, at_most-sort_in p x ys)

pub at_most-sorted : (p : ℕ) (xs : List ℕ) → at_most p (sorted xs) ≡ at_most p xs
unfolding sorted
at_most-sorted p [] = refl
at_most-sorted p (x ∷ xs) = at_most-sort_in p x (sorted xs) ∙ ground (arith, at_most-sorted p xs)

below-sort_in : (p x : ℕ) (xs : List ℕ) → below p (sort_in x xs) ≡ below p (x ∷ xs)
unfolding sort_in
below-sort_in p x [] = refl
below-sort_in p x (y ∷ ys) = ground (arith, below-sort_in p x ys)

pub below-sorted : (p : ℕ) (xs : List ℕ) → below p (sorted xs) ≡ below p xs
unfolding sorted
below-sorted p [] = refl
below-sorted p (x ∷ xs) = below-sort_in p x (sorted xs) ∙ ground (arith, below-sorted p xs)

All-sort_in :
    (z x : ℕ) (xs : List ℕ) → z ≤ x → All (λ y. z ≤ y) xs → All (λ y. z ≤ y) (sort_in x xs)
unfolding sort_in
All-sort_in z x [] h k = (h, tt)
All-sort_in z x (y ∷ ys) h (k, ks) = elim (Bool-cases (leb x y)) [
  | inl e ↦ rw e (h, (k, ks))
  | inr e ↦ rw e (k, All-sort_in z x ys h ks)
]

sort_in-IsSorted : (x : ℕ) (xs : List ℕ) → IsSorted xs → IsSorted (sort_in x xs)
unfolding sort_in
sort_in-IsSorted x [] h = (tt, tt)
sort_in-IsSorted x (y ∷ ys) (low, h) = elim (Bool-cases (leb x y)) [
  | inl e ↦
      let le : x ≤ y = leb→le x y e in
      rw e ((le, All-map (λ z. y ≤ z) (λ z. x ≤ z) ys (λ z k. omega (arith, le, k)) low), (low, h))
  | inr e ↦
      let le : y ≤ x = ground (arith, e) in
      rw e (All-sort_in y x ys le low, sort_in-IsSorted x ys h)
]

pub sorted-IsSorted : (xs : List ℕ) → IsSorted (sorted xs)
unfolding sorted
sorted-IsSorted [] = tt
sorted-IsSorted (x ∷ xs) = sort_in-IsSorted x (sorted xs) (sorted-IsSorted xs)

below_none : (p : ℕ) (xs : List ℕ) → All (λ y. p ≤ y) xs → below p xs ≡ 0
below_none p [] h = refl
below_none p (x ∷ xs) h = ground (arith, h.0, below_none p xs h.1)

All-get_elem? : (z i p : ℕ) (xs : List ℕ) → All (λ y. z ≤ y) xs → get_elem? xs i ≡ some p → z ≤ p
All-get_elem? z i p [] h e = absurd (ground (arith, e))
All-get_elem? z zero p (x ∷ xs) h e = ground (arith, h.0, e)
All-get_elem? z (suc i) p (x ∷ xs) h e = All-get_elem? z i p xs h.1 e

-- The element at a position of a sorted list: as many elements as its position are below it at most,
-- and more than that are at most it.
pub rank :
    (i p : ℕ) (xs : List ℕ)
    → IsSorted xs
    → get_elem? xs i ≡ some p
    → (suc i ≤ at_most p xs) × (below p xs ≤ i)
rank i p [] h e = absurd (ground (arith, e))
rank zero p (x ∷ xs) (low, h) e =
    let same : x ≡ p = ground (arith, e) in
    let none_below : below p xs ≡ 0 = below_none p xs (subst (λ z. All (λ y. z ≤ y) xs) same low) in
    (ground (arith, same), ground (arith, same, none_below))
rank (suc i) p (x ∷ xs) (low, h) e =
    let le : x ≤ p = All-get_elem? x i p xs low e in
    let (more, less) = rank i p xs h e in (ground (arith, le, more), ground (arith, less))
