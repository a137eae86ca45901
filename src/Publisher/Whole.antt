-- ===== src/Publisher/Whole.antt =====
-- The batches are the dataset: uas/publisher/publisher.py.
use sistem_paralel_terdistri.Common.{
  All, Bool-cases, List, [], ap, arith, drop, drop-drop, inl, inr, length, length-drop,
  length-take-le, ltb, ltb→lt, refl, suc, sym, take, take-append-drop, zero, ℕ, ◌++◌, ◌+◌, ◌∙◌, ◌∷◌,
  ◌≡◌, ◌≤◌,
}
use sistem_paralel_terdistri.Publisher.Batches.{chunk, chunk_from}

abbrev pub concat : {A : Type 0} → List (List A) → List A
concat [] = []
concat (b ∷ bs) = b ++ concat bs

-- A batch that may be sent.
abbrev IsBatch : {A : Type 0} → ℕ → List A → Type 0
IsBatch size b = (1 ≤ length b) × (length b ≤ size)

module _ {A : Type 0} where
  drop-beyond : (n : ℕ) (xs : List A) → length xs ≤ n → drop n xs ≡ []
  drop-beyond zero [] h = refl
  drop-beyond zero (x ∷ xs) h = absurd (omega (arith, h))
  drop-beyond (suc n) [] h = refl
  drop-beyond (suc n) (x ∷ xs) h = drop-beyond n xs (omega (arith, h))

  take_some : (n : ℕ) (xs : List A) → 1 ≤ n → 1 ≤ length xs → 1 ≤ length (take n xs)
  take_some zero xs h k = h
  take_some (suc n) [] h k = k
  take_some (suc n) (x ∷ xs) h k = omega arith

  chunk_from_lem :
      (fuel : ℕ) (items : List A) (size i : ℕ)
      → 1 ≤ size
      → length items ≤ fuel + i
      → (concat (chunk_from fuel items size i) ≡ drop i items)
        × All (IsBatch size) (chunk_from fuel items size i)
  unfolding chunk_from
  chunk_from_lem zero items size i pos enough =
      (sym (drop-beyond i items (omega (arith, enough))), tt)
  chunk_from_lem (suc fuel) items size i pos enough = elim (Bool-cases (ltb i (length items))) [
    | inl e ↦
        let xs = drop i items in
        let some_left : 1 ≤ length xs =
          omega (arith, length-drop i items, ltb→lt i (length items) e) in
        let (whole, sizes) =
          chunk_from_lem fuel items size (i + size) pos (omega (arith, enough, pos)) in
        rw e (
          ap (λ l. take size xs ++ l) (whole ∙ sym (drop-drop i size items))
              ∙ take-append-drop size xs,
          ((take_some size xs pos some_left, length-take-le size xs), sizes),
        )
    | inr e ↦ rw e (sym (drop-beyond i items (ground (arith, e))), tt)
  ]

-- With a positive size, `chunk` cuts the items into batches that together are the items, in order;
-- none is empty or larger than the size.
pub chunk-concat :
    (A : Type 0) (items : List A) (size : ℕ)
    → 1 ≤ size
    → (concat (chunk items size) ≡ items)
      × All (λ b. (1 ≤ length b) × (length b ≤ size)) (chunk items size)
unfolding chunk
chunk-concat A items size pos = chunk_from_lem (length items) items size 0 pos (omega arith)
