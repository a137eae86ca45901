-- ===== src/Cache/Victims.antt =====
-- What the eviction policies of tugas-3/src/nodes/cache_node.py give up.
use sistem_paralel_terdistri.Common.{
  All, Bool-cases, Dict, Elem, [], arith, erase, inl, inr, ltb, refl, some, subst, sym, ℕ, ◌<◌, ◌∷◌,
  ◌≡◌, ◌≤◌,
}
use sistem_paralel_terdistri.Cache.Policy.{evict, least, lfu}

least_smaller : (best n k c : ℕ) (d : Dict ℕ) → c < n → least best n ((k, c) ∷ d) ≡ least k c d
unfolding least
least_smaller best n k c d lt = ground (arith, lt)

least_other : (best n k c : ℕ) (d : Dict ℕ) → ¬ (c < n) → least best n ((k, c) ∷ d) ≡ least best n d
unfolding least
least_other best n k c d ge = ground (arith, ge)

-- The key has an entry that no other entry undercuts.
abbrev LeastOf : ℕ → Dict ℕ → Type 0
LeastOf v d = (c : ℕ) × Elem (v, c) d × All (λ e. c ≤ e.1) d

least-LeastOf : (best n : ℕ) (d : Dict ℕ) → LeastOf (least best n d) ((best, n) ∷ d)
unfolding least
least-LeastOf best n [] = (n, inl refl, (omega arith, tt))
least-LeastOf best n ((k, c) ∷ d) = elim (Bool-cases (ltb c n)) [
  | inl e ↦
      let lt : c < n = ground arith in
      let (b, at, (low, all)) = least-LeastOf k c d in
      subst (λ v. LeastOf v ((best, n) ∷ (k, c) ∷ d)) (sym (least_smaller best n k c d lt))
        (b, inr at, (omega (arith, low, lt), (low, all)))
  | inr e ↦
      let ge : ¬ (c < n) = λ lt. ground arith in
      let (b, at, (low, all)) = least-LeastOf best n d in
      subst (λ v. LeastOf v ((best, n) ∷ (k, c) ∷ d)) (sym (least_other best n k c d ge))
        (
          b,
          elim at [ inl here ↦ inl here | inr there ↦ inr (inr there) ],
          (low, (ground (arith, low, e), all)),
        )
]

-- `LFUPolicy.evict` gives up a key whose count is the least of all that it holds, and nothing else;
-- it has a victim unless it holds nothing.
pub evict_least_used :
    (k n : ℕ) (d : Dict ℕ)
    → (v c : ℕ) × (evict (lfu ((k, n) ∷ d)) ≡ some (v, lfu (erase v ((k, n) ∷ d))))
      × Elem (v, c) ((k, n) ∷ d)
      × All (λ e. c ≤ e.1) ((k, n) ∷ d)
unfolding evict
evict_least_used k n d = let (c, at, all) = least-LeastOf k n d in (least k n d, c, refl, at, all)
