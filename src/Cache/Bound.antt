-- ===== src/Cache/Bound.antt =====
-- What keeps a cache node (tugas-3/src/nodes/cache_node.py) within `max_size`.
use sistem_paralel_terdistri.Common.{
  Bool-cases, Dict, List, [], ap, arith, contains, contains-erase, contains-insert, erase, inl, inr,
  insert, leb, length, length-erase-le, length-insert, lookup, max, member, refl, some, suc, sym,
  true, zero, ℕ, ◌<◌, ◌∙◌, ◌∷◌, ◌≡◌, ◌≤◌,
}
use sistem_paralel_terdistri.Cache.Capacity.{
  Gives, evict_cases, member-tracked-admit, member-tracked-remove,
}
use sistem_paralel_terdistri.Cache.Node.{drop_victim, ensure_capacity, evict_loop, install}
use sistem_paralel_terdistri.Cache.Policy.{Policy, remove, tracked}
use sistem_paralel_terdistri.Cache.State.{CacheLine, CacheNode}

no_member : (x : ℕ) (l : List ℕ) → length l ≤ 0 → ¬ (member x l ≡ true)
no_member x [] h e = ground arith
no_member x (y ∷ l) h e = omega (arith, h)

module _ {V : Type 0} where
  -- Every cached key is held by the policy, so that it can be evicted.
  abbrev pub Tracks : CacheNode V → Type 0
  Tracks n = (x : ℕ) → contains x n.cache ≡ true → member x (tracked n.policy) ≡ true

  pub record Fits (max : ℕ) (n : CacheNode V) : Type 0 where
    pub limit : n.max_size ≡ max
    pub tracks : Tracks n
    pub small : length n.cache ≤ max

  empty_of_untracked : (d : Dict (CacheLine V)) → ((x : ℕ) → contains x d ≡ true → ⊥) → length d ≡ 0
  empty_of_untracked [] h = refl
  empty_of_untracked ((k, l) ∷ d) h = absurd (h k (ground arith))

  -- What an empty policy tracks is empty.
  none_tracked : (n : CacheNode V) → length (tracked n.policy) ≤ 0 → Tracks n → length n.cache ≡ 0
  none_tracked n h t = empty_of_untracked n.cache (λ x e. no_member x (tracked n.policy) h (t x e))

  drop_victim-Tracks :
      (v : ℕ) (p : Policy) (n : CacheNode V)
      → Gives n.policy v p
      → Tracks n
      → Tracks (drop_victim v p n)
  drop_victim-Tracks v p n (e, less, others) t x h =
      let gone = contains-erase x v n.cache in
      let old : contains x n.cache ≡ true = ground (arith, gone, h) in
      others x (t x old) (ground (arith, gone, h))

  -- Enough rounds make room.
  evict_loop_room :
      (k max : ℕ) (n : CacheNode V)
      → 0 < max
      → n.max_size ≡ max
      → length (tracked n.policy) ≤ k
      → Tracks n
      → let n' = evict_loop k n in (n'.max_size ≡ max) × Tracks n' × (length n'.cache < max)
  unfolding evict_loop
  evict_loop_room zero max n pos lim le t =
      let none_left = none_tracked n le t in (lim, t, omega (arith, none_left, pos))
  evict_loop_room (suc k) max n pos lim le t = elim (Bool-cases (leb n.max_size (length n.cache))) [
    | inr e ↦ rw (e, evict_loop) (lim, t, ground (arith, e, lim))
    | inl e ↦ elim (evict_cases n.policy) [
      | inl (stop, nil) ↦
          let bare = none_tracked n (omega (arith, ap length nil)) t in
          absurd (ground (arith, bare, e, lim, pos))
      | inr (v, p, g) ↦
          rw (e, evict_loop, g.0)
            (evict_loop_room k max (drop_victim v p n) pos lim (omega (arith, g.1, le))
              (drop_victim-Tracks v p n g t))
    ]
  ]

  pub install-Fits :
      (max key : ℕ) (line : CacheLine V) (n : CacheNode V)
      → 0 < max
      → Fits max n
      → Fits max (install key line n)
  install-Fits max key line n pos f =
      let n' = ensure_capacity n in
      let (lim, t, room) =
        evict_loop_room (length (tracked n.policy)) max n pos f.limit (omega arith) f.tracks in
      record {
        limit = lim;
        tracks = λ x h. ground (
          arith,
          h,
          t x,
          contains-insert x key line n'.cache,
          member-tracked-admit x key n'.policy,
        );
        small = ground (arith, room, length-insert key line n'.cache);
      }

  -- Putting another line in the place of a cached one.
  pub rewrite-Fits :
      (max key : ℕ) (line : CacheLine V) (n n' : CacheNode V)
      → contains key n.cache ≡ true
      → n'.max_size ≡ n.max_size
      → n'.cache ≡ insert key line n.cache
      → ((x : ℕ) → member x (tracked n.policy) ≡ true → member x (tracked n'.policy) ≡ true)
      → Fits max n
      → Fits max n'
  rewrite-Fits max key line n n' here lim same keeps f = record {
    limit = lim ∙ f.limit;
    tracks = λ x h.
        let grown = contains-insert x key line n.cache in
        let old : contains x (insert key line n.cache) ≡ true = ap (contains x) (sym same) ∙ h in
        keeps x (f.tracks x (ground (arith, grown, old, here)));
    small =
        let size : length (insert key line n.cache) ≡ length n.cache =
          ground (arith, length-insert key line n.cache, here) in
        omega (arith, ap length same, f.small, size);
  }

  pub erase-Fits :
      (max key : ℕ) (n n' : CacheNode V)
      → n'.max_size ≡ n.max_size
      → n'.cache ≡ erase key n.cache
      → n'.policy ≡ remove key n.policy
      → Fits max n
      → Fits max n'
  erase-Fits max key n n' lim same gone f = record {
    limit = lim ∙ f.limit;
    tracks = λ x h.
        let left : contains x (erase key n.cache) ≡ true = ap (contains x) (sym same) ∙ h in
        let only = contains-erase x key n.cache in
        let held = f.tracks x (ground (arith, left, only)) in
        ap (λ p. member x (tracked p)) gone
        ∙ ground (arith, member-tracked-remove x key n.policy, held, left, only);
    small = omega (arith, ap length same, f.small, length-erase-le key n.cache);
  }

  pub Fits-same :
      (max : ℕ) (n n' : CacheNode V)
      → n'.max_size ≡ n.max_size
      → n'.cache ≡ n.cache
      → n'.policy ≡ n.policy
      → Fits max n
      → Fits max n'
  Fits-same max n n' lim same held f = record {
    limit = lim ∙ f.limit;
    tracks =
        λ x h. ap (λ p. member x (tracked p)) held ∙ f.tracks x (ap (contains x) (sym same) ∙ h);
    small = omega (arith, ap length same, f.small);
  }

  pub contains_of_lookup :
      (k : ℕ) (line : CacheLine V) (d : Dict (CacheLine V))
      → lookup k d ≡ some line
      → contains k d ≡ true
  contains_of_lookup k line [] e = absurd (ground arith)
  contains_of_lookup k line ((j, l) ∷ d) e = ground (arith, contains_of_lookup k line d)
