-- ===== src/Cache/Capacity.antt =====
-- The cache of tugas-3/src/nodes/cache_node.py never outgrows `max_size`.
use sistem_paralel_terdistri.Common.{
  Dict, [], arith, contains-keys, discard, erase, false, get_or, if◌then◌else◌, inl, inr, insert,
  keys, length, lookup, member, member-append, member-discard, none, refl, some, true, ℕ, ◌+◌, ◌<◌,
  ◌==◌, ◌∷◌, ◌≡◌, ◌≤◌, ◌⊎◌,
}
use sistem_paralel_terdistri.Cache.Policy.{
  Policy, access, admit, evict, least, lfu, lru, remove, tracked,
}

-- Taking out a victim leaves the other keys of a policy.
member-keys-erase :
    {V : Type 0} (x k : ℕ) (d : Dict V)
    → member x (keys (erase k d)) ≡ (if k == x then false else member x (keys d))
member-keys-erase x k [] = ground arith
member-keys-erase x k ((j, v) ∷ d) = ground (arith, member-keys-erase x k d)

member-keys-insert :
    {V : Type 0} (x k : ℕ) (v : V) (d : Dict V)
    → member x (keys (insert k v d)) ≡ (if k == x then true else member x (keys d))
member-keys-insert x k v [] = refl
member-keys-insert x k v ((j, w) ∷ d) = ground (arith, member-keys-insert x k v d)

least-held : (best n : ℕ) (d : Dict ℕ) → member (least best n d) (best ∷ keys d) ≡ true
unfolding least
least-held best n [] = ground arith
least-held best n ((k, c) ∷ d) = ground (arith, least-held k c d, least-held best n d)

length-keys-erase-le :
    {V : Type 0} (k : ℕ) (d : Dict V) → length (keys (erase k d)) ≤ length (keys d)
length-keys-erase-le k [] = omega arith
length-keys-erase-le k ((j, v) ∷ d) = ground (arith, length-keys-erase-le k d)

length-keys-erase :
    {V : Type 0} (k : ℕ) (d : Dict V)
    → member k (keys d) ≡ true
    → length (keys (erase k d)) < length (keys d)
length-keys-erase k [] e = absurd (ground arith)
length-keys-erase k ((j, v) ∷ d) e = ground (arith, length-keys-erase-le k d, length-keys-erase k d)

-- A policy holds nothing, or its victim is the only key that it gives up.
abbrev pub Gives : Policy → ℕ → Policy → Type 0
Gives p v p' =
    (evict p ≡ some (v, p'))
    × (length (tracked p') < length (tracked p))
    × ((x : ℕ) → member x (tracked p) ≡ true → (v == x) ≡ false → member x (tracked p') ≡ true)

pub evict_cases :
    (p : Policy) → ((evict p ≡ none) × (tracked p ≡ [])) ⊎ ((v : ℕ) × (p' : Policy) × Gives p v p')
unfolding evict
evict_cases (lru []) = inl (refl, refl)
evict_cases (lru (k ∷ od)) = inr (k, lru od, (refl, omega arith, λ x h ne. ground (arith, h, ne)))
evict_cases (lfu []) = inl (refl, refl)
evict_cases (lfu ((k, c) ∷ d)) =
    let v = least k c d in
    let less = length-keys-erase v ((k, c) ∷ d) (least-held k c d) in
    inr (
      v,
      lfu (erase v ((k, c) ∷ d)),
      (refl, less, λ x h ne. ground (arith, member-keys-erase x v ((k, c) ∷ d), h, ne)),
    )

pub member-tracked-admit :
    (x key : ℕ) (p : Policy)
    → member x (tracked (admit key p)) ≡ (if key == x then true else member x (tracked p))
unfolding admit
member-tracked-admit x key (lru od) =
    ground (arith, member-append x (discard key od) (key ∷ []), member-discard x key od)
member-tracked-admit x key (lfu counts) =
    ground
      (arith, contains-keys key counts, contains-keys x counts, member-keys-insert x key 1 counts)

pub member-tracked-access :
    (x key : ℕ) (p : Policy)
    → member x (tracked p) ≡ true
    → member x (tracked (access key p)) ≡ true
unfolding access
member-tracked-access x key (lru od) h =
    ground (arith, h, member-append x (discard key od) (key ∷ []), member-discard x key od)
member-tracked-access x key (lfu counts) h =
    ground (arith, h, member-keys-insert x key (get_or (lookup key counts) 0 + 1) counts)

pub member-tracked-remove :
    (x key : ℕ) (p : Policy)
    → member x (tracked (remove key p)) ≡ (if key == x then false else member x (tracked p))
unfolding remove
member-tracked-remove x key (lru od) = member-discard x key od
member-tracked-remove x key (lfu counts) = member-keys-erase x key counts
