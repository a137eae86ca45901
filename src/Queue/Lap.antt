-- ===== src/Queue/Lap.antt =====
-- One lap of `get_n_nodes` (tugas-3/src/nodes/queue_node.py) is enough.
use sistem_paralel_terdistri.Common.{
  All, Bool, Bool-cases, Distinct, List, [], add, arith, false, if◌then◌else◌, inl, inr, is_empty,
  leb, length, ltb, member, member-add, min, refl, subst, suc, sym, true, zero, ℕ, ◌&&◌, ◌+◌, ◌<◌,
  ◌==◌, ◌∷◌, ◌≡◌, ◌≤◌, ◌⊎◌,
}
use sistem_paralel_terdistri.Queue.Replicas.{
  Covers, IsChoice, IsFull, IsRing, add-IsChoice, covered_all, full,
}
use sistem_paralel_terdistri.Queue.Ring.{
  ConsistentHashRing, bisect_right, get_n_nodes, node_at, walk,
}

module _ (n : ℕ) (r : ConsistentHashRing) (v : IsRing r) where
  -- The positions that a walk from `idx` has visited before it comes to `i`, behind the wrap.
  abbrev Behind : ℕ → ℕ → ℕ → Type 0
  Behind idx i p = (idx ≤ p) ⊎ (p < i)

  -- The positions before the wrap.
  abbrev Ahead : ℕ → ℕ → ℕ → Type 0
  Ahead idx i p = (idx ≤ p) × (p < i)

  Covers-add :
      (V W : ℕ → Type 0) (j : ℕ) (result : List ℕ)
      → ((p : ℕ) → p < length r.ring → W p → (p ≡ j) ⊎ V p)
      → Covers n r v V result
      → Covers n r v W (add (node_at r.ring j) result)
  Covers-add V W j result step f p h w = elim (step p h w) [
    | inl e ↦ rw e (ground (arith, member-add (node_at r.ring j) (node_at r.ring j) result))
    | inr q ↦ ground (arith, f p h q, member-add (node_at r.ring p) (node_at r.ring j) result)
  ]

  -- The loop's condition.
  abbrev continues : List ℕ → Bool
  continues result = ltb (length result) n && ltb (length result) (length r.nodes)

  stopped :
      (result : List ℕ)
      → continues result ≡ false
      → (n ≤ length result) ⊎ (length r.nodes ≤ length result)
  stopped result e = ground arith

  running :
      (result : List ℕ)
      → continues result ≡ true
      → (length result < n) × (length result < length r.nodes)
  running result e = ground arith

  not-empty-add : (x : ℕ) (l : List ℕ) → is_empty (add x l) ≡ false
  not-empty-add x [] = refl
  not-empty-add x (y ∷ l) = ground arith

  -- A round that ends the lap, and one that does not.
  walk_stop :
      (k idx i : ℕ) (result : List ℕ)
      → continues result ≡ false
      → walk (suc k) n r idx i result ≡ result
  unfolding walk
  walk_stop k idx i result e = rw e refl

  walk_last :
      (k idx i j : ℕ) (result : List ℕ)
      → continues result ≡ true
      → (if leb (length r.ring) i then 0 else i) ≡ j
      → suc j ≡ idx
      → walk (suc k) n r idx i result ≡ add (node_at r.ring j) result
  unfolding walk
  walk_last k idx i j result e p q =
      ground (arith, e, p, q, not-empty-add (node_at r.ring j) result)

  walk_next :
      (k idx i j : ℕ) (result : List ℕ)
      → continues result ≡ true
      → (if leb (length r.ring) i then 0 else i) ≡ j
      → ¬ (suc j ≡ idx)
      → walk (suc k) n r idx i result ≡ walk k n r idx (suc j) (add (node_at r.ring j) result)
  unfolding walk
  walk_next k idx i j result e p q = ground (arith, e, p, q)

  -- A round at position `j`, from which at most the rest of the lap is left.
  after_wrap :
      (k idx i : ℕ) (result : List ℕ)
      → i < idx
      → idx ≤ length r.ring
      → idx ≤ i + k
      → IsChoice n r result
      → Covers n r v (Behind idx i) result
      → IsFull n r v (walk k n r idx i result)
  after_wrap zero idx i result lt le fuel c f = absurd (omega arith)
  after_wrap (suc k) idx i result lt le fuel c f = elim (Bool-cases (continues result)) [
    | inr e ↦ rw (walk_stop k idx i result e) (full n r v result c (stopped result e))
    | inl e ↦
        let here : (if leb (length r.ring) i then 0 else i) ≡ i = ground (arith, lt, le) in
        let c' = add-IsChoice n r v i result (omega (arith, lt, le)) (running result e).0 c in
        let f' =
          Covers-add (Behind idx i) (Behind idx (suc i)) i result
            (λ p h w. elim w [ inl a ↦ inr (inl a) | inr a ↦ ground (arith, a) ]) f in
        elim (Bool-cases (suc i == idx)) [
          | inl last ↦
              let all = Covers-add (Behind idx i) (λ p. Unit) i result (λ p h w. ground arith) f in
              rw (walk_last k idx i i result e here (ground (arith, last)))
                (full n r v _ c' (inr (covered_all n r v _ all)))
          | inr more ↦
              rw (walk_next k idx i i result e here (ground (arith, more))) (
                after_wrap k idx (suc i) _ (ground (arith, lt, more)) le (omega (arith, fuel)) c'
                  f')
        ]
  ]

  wrap :
      (k idx : ℕ) (result : List ℕ)
      → idx ≤ length r.ring
      → 0 < length r.ring
      → idx ≤ k
      → IsChoice n r result
      → Covers n r v (Ahead idx (length r.ring)) result
      → IsFull n r v (walk k n r idx (length r.ring) result)
  unfolding walk
  wrap zero idx result le some_entry fuel c f =
      full n r v result c (inr (covered_all n r v result (λ p h w. f p h (omega (arith, fuel), h))))
  wrap (suc k) idx result le some_entry fuel c f = elim (Bool-cases (continues result)) [
    | inr e ↦ rw (walk_stop k idx (length r.ring) result e) (full n r v result c (stopped result e))
    | inl e ↦
        let here : (if leb (length r.ring) (length r.ring) then 0 else length r.ring) ≡ 0 =
          ground arith in
        let c' = add-IsChoice n r v 0 result some_entry (running result e).0 c in
        elim (Bool-cases (1 == idx)) [
          | inl last ↦
              let all =
                Covers-add (Ahead idx (length r.ring)) (λ p. Unit) 0 result
                  (λ p h w. ground (arith, h, last)) f in
              rw (walk_last k idx (length r.ring) 0 result e here (ground (arith, last)))
                (full n r v _ c' (inr (covered_all n r v _ all)))
          | inr more ↦ elim (Bool-cases (0 == idx)) [
            | inl none_left ↦
                let all =
                  covered_all n r v result (λ p h w. f p h (ground (arith, none_left), h)) in
                absurd (omega (arith, all, (running result e).1))
            | inr some_left ↦
                let f' =
                  Covers-add (Ahead idx (length r.ring)) (Behind idx 1) 0 result
                    (λ p h w. ground (arith, h, w)) f in
                rw (walk_next k idx (length r.ring) 0 result e here (ground (arith, more))) (
                  after_wrap k idx 1 _ (ground (arith, more, some_left)) le (omega (arith, fuel)) c'
                    f')
          ]
        ]
  ]

  before_wrap :
      (k idx i : ℕ) (result : List ℕ)
      → idx ≤ i
      → i ≤ length r.ring
      → 0 < length r.ring
      → length r.ring + idx ≤ i + k
      → IsChoice n r result
      → Covers n r v (Ahead idx i) result
      → IsFull n r v (walk k n r idx i result)
  unfolding walk
  before_wrap zero idx i result low le some_entry fuel c f = full n r v result c (
      inr (
        covered_all n r v result
          (λ p h w. f p h (omega (arith, fuel, le, low), omega (arith, fuel, le, low, h)))))
  before_wrap (suc k) idx i result low le some_entry fuel c f =
      elim (Bool-cases (leb (length r.ring) i)) [
        | inl e ↦
            let at_end : length r.ring ≡ i = ground (arith, e, le) in
            subst (λ j. IsFull n r v (walk (suc k) n r idx j result)) at_end
              (wrap (suc k) idx result (omega (arith, low, le)) some_entry
                (omega (arith, fuel, at_end)) c
                (subst (λ j. Covers n r v (Ahead idx j) result) (sym at_end) f))
        | inr e ↦ elim (Bool-cases (continues result)) [
          | inr stop ↦
              rw (walk_stop k idx i result stop) (full n r v result c (stopped result stop))
          | inl go ↦
              let lt : i < length r.ring = ground (arith, e) in
              let here : (if leb (length r.ring) i then 0 else i) ≡ i = ground (arith, e) in
              let c' = add-IsChoice n r v i result lt (running result go).0 c in
              let f' =
                Covers-add (Ahead idx i) (Ahead idx (suc i)) i result (λ p h w. ground (arith, w))
                  f in
              rw (walk_next k idx i i result go here (omega (arith, low))) (
                before_wrap k idx (suc i) _ (omega (arith, low)) (omega (arith, lt)) some_entry
                  (omega (arith, fuel)) c' f')
        ]
      ]

bisect_right-le : (es : List (ℕ × ℕ)) (h : ℕ) → bisect_right es h ≤ length es
unfolding bisect_right
bisect_right-le [] h = omega arith
bisect_right-le ((g, m) ∷ es) h = ground (arith, bisect_right-le es h)

-- On a ring whose entries name exactly its nodes, the replica set of a key has `n` nodes, or all of
-- them where there are fewer; they are nodes of the ring and all different.
pub get_n_nodes_replicas :
    (hash_key : ℕ → ℕ) (key n : ℕ) (r : ConsistentHashRing)
    → IsRing r
    → let ns = get_n_nodes hash_key key n r in
      Distinct ns × All (λ x. member x r.nodes ≡ true) ns × (length ns ≡ min n (length r.nodes))
unfolding get_n_nodes
get_n_nodes_replicas hash_key key n r v = elim (Bool-cases (is_empty r.ring)) [
  | inl e ↦
      let none_listed = covered_all n r v [] (λ p h w. absurd (ground (arith, h, e))) in
      rw e (tt, tt, omega (arith, none_listed))
  | inr e ↦
      let idx = bisect_right r.ring (hash_key key) in
      rw e (
        before_wrap n r v (length r.ring) idx idx [] (omega arith)
          (bisect_right-le r.ring (hash_key key)) (ground (arith, e)) (omega arith)
          (record { distinct = tt; known = tt; few = omega arith })
          (λ p h w. absurd (omega (arith, w.0, w.1))))
]
