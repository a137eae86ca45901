-- ===== src/Cache/Policy.antt =====
-- The eviction policies of tugas-3/src/nodes/cache_node.py: `LRUPolicy` over an ordered dict, oldest
-- key first, and `LFUPolicy` over counts.
use sistem_paralel_terdistri.Common.{
  Dict, List, Option, [], contains, discard, erase, get_or, if◌then◌else◌, insert, keys, lookup,
  ltb, member, none, some, ℕ, ◌++◌, ◌+◌, ◌∷◌,
}

pub data Policy : Type 0 where
  lru : List ℕ → Policy
  lfu : Dict ℕ → Policy

-- `self._od.move_to_end(key)` where the key is present.
abbrev pub move_to_end : ℕ → List ℕ → List ℕ
move_to_end key od = discard key od ++ key ∷ []

unfoldable pub access : ℕ → Policy → Policy
access key (lru od) = lru (if member key od then move_to_end key od else od)
access key (lfu counts) = lfu (insert key (get_or (lookup key counts) 0 + 1) counts)

-- `insert` of the policies.
unfoldable pub admit : ℕ → Policy → Policy
admit key (lru od) = lru (move_to_end key od)
admit key (lfu counts) = lfu (if contains key counts then counts else insert key 1 counts)

-- `remove` of the policies.
unfoldable pub remove : ℕ → Policy → Policy
remove key (lru od) = lru (discard key od)
remove key (lfu counts) = lfu (erase key counts)

-- `min(items, key=count)[0]`: the first of the least.
unfoldable pub least : ℕ → ℕ → Dict ℕ → ℕ
least best n [] = best
least best n ((k, c) ∷ d) = if ltb c n then least k c d else least best n d

unfoldable pub evict : Policy → Option (ℕ × Policy)
evict (lru []) = none
evict (lru (k ∷ od)) = some (k, lru od)
evict (lfu []) = none
evict (lfu ((k, c) ∷ d)) = some (least k c d, lfu (erase (least k c d) ((k, c) ∷ d)))

-- The keys that a policy holds.
abbrev pub tracked : Policy → List ℕ
tracked (lru od) = od
tracked (lfu counts) = keys counts
