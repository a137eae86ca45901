-- ===== src/Queue/Replicas.antt =====
-- The replica nodes that the ring of tugas-3/src/nodes/queue_node.py chooses.
use sistem_paralel_terdistri.Common.{
  All, All-member, Bool-cases, Distinct, List, [], add, add-All, add-Distinct, arith,
  discard-Distinct, false, if◌then◌else◌, inl, inr, length, length-add, length-subset, member,
  member-All, member-add, member-discard, min, refl, suc, sym, true, zero, ℕ, ◌<◌, ◌==◌, ◌∙◌, ◌∷◌,
  ◌≡◌, ◌≤◌, ◌⊎◌,
}
use sistem_paralel_terdistri.Queue.Ring.{
  ConsistentHashRing, add_node, add_vnodes, insort, new_ring, node_at, remove_node, without,
}

-- The nodes of the entries, in ring order.
abbrev pub names : List (ℕ × ℕ) → List ℕ
names [] = []
names ((h, n) ∷ es) = n ∷ names es

-- The entries name exactly the nodes of the ring, and no node is listed twice.
pub record IsRing (r : ConsistentHashRing) : Type 0 where
  pub agree : (x : ℕ) → member x (names r.ring) ≡ member x r.nodes
  pub distinct : Distinct r.nodes

member-names-insort :
    (x : ℕ) (e : ℕ × ℕ) (es : List (ℕ × ℕ))
    → member x (names (insort es e)) ≡ (if e.1 == x then true else member x (names es))
unfolding insort
member-names-insort x (h, n) [] = refl
member-names-insort x (h, n) ((g, m) ∷ es) = ground (arith, member-names-insort x (h, n) es)

member-names-add_vnodes :
    (hash_vnode : ℕ → ℕ → ℕ) (x k i node : ℕ) (es : List (ℕ × ℕ))
    → member x (names (add_vnodes hash_vnode k i node es))
      ≡ (if k == 0 then member x (names es) else if node == x then true else member x (names es))
unfolding add_vnodes
member-names-add_vnodes hash_vnode x zero i node es = ground arith
member-names-add_vnodes hash_vnode x (suc k) i node es = ground (
  arith,
  member-names-add_vnodes hash_vnode x k (suc i) node (insort es (hash_vnode node i, node)),
  member-names-insort x (hash_vnode node i, node) es,
)

member-names-without :
    (x node : ℕ) (es : List (ℕ × ℕ))
    → member x (names (without node es)) ≡ (if node == x then false else member x (names es))
unfolding without
member-names-without x node [] = ground arith
member-names-without x node ((g, m) ∷ es) = ground (arith, member-names-without x node es)

pub new_ring-IsRing : (v : ℕ) → IsRing (new_ring v)
new_ring-IsRing v = record { agree = λ x. refl; distinct = tt }

pub add_node-IsRing :
    (hash_vnode : ℕ → ℕ → ℕ) (node : ℕ) (r : ConsistentHashRing)
    → 0 < r.virtual_nodes
    → IsRing r
    → IsRing (add_node hash_vnode node r)
unfolding add_node
add_node-IsRing hash_vnode node r pos v = elim (Bool-cases (member node r.nodes)) [
  | inl e ↦ rw e v
  | inr e ↦ rw e (record {
    agree = λ x. ground (
      arith,
      v.agree x,
      member-names-add_vnodes hash_vnode x r.virtual_nodes 0 node r.ring,
      member-add x node r.nodes,
    );
    distinct = add-Distinct node r.nodes v.distinct;
  })
]

pub remove_node-IsRing :
    (node : ℕ) (r : ConsistentHashRing) → IsRing r → IsRing (remove_node node r)
unfolding remove_node
remove_node-IsRing node r v = elim (Bool-cases (member node r.nodes)) [
  | inl e ↦ rw e (record {
    agree = λ x.
        ground
          (arith, v.agree x, member-names-without x node r.ring, member-discard x node r.nodes);
    distinct = discard-Distinct node r.nodes v.distinct;
  })
  | inr e ↦ rw e v
]

member-node_at :
    (es : List (ℕ × ℕ)) (p : ℕ) → p < length es → member (node_at es p) (names es) ≡ true
member-node_at [] p h = absurd (omega arith)
member-node_at ((g, m) ∷ es) zero h = ground arith
member-node_at ((g, m) ∷ es) (suc p) h = ground (arith, member-node_at es p (omega arith))

All-names :
    (P : ℕ → Type 0) (es : List (ℕ × ℕ))
    → ((p : ℕ) → p < length es → P (node_at es p))
    → All P (names es)
All-names P [] f = tt
All-names P ((g, m) ∷ es) f =
    (f 0 (omega arith), All-names P es (λ p h. f (suc p) (omega (arith, h))))

-- What the loop has chosen so far.
pub record IsChoice (n : ℕ) (r : ConsistentHashRing) (result : List ℕ) : Type 0 where
  pub distinct : Distinct result
  pub known : All (λ x. member x r.nodes ≡ true) result
  pub few : length result ≤ n

module _ (n : ℕ) (r : ConsistentHashRing) (v : IsRing r) where
  -- The node at each of the positions is chosen.
  abbrev pub Covers : (ℕ → Type 0) → List ℕ → Type 0
  Covers Visited result =
      (p : ℕ) → p < length r.ring → Visited p → member (node_at r.ring p) result ≡ true

  pub length-choice-le : (result : List ℕ) → IsChoice n r result → length result ≤ length r.nodes
  length-choice-le result c = length-subset result r.nodes c.distinct c.known

  -- A choice of all nodes on the ring is one of all nodes.
  pub covered_all : (result : List ℕ) → Covers (λ p. Unit) result → length r.nodes ≤ length result
  covered_all result f =
      let chosen = All-names (λ x. member x result ≡ true) r.ring (λ p h. f p h tt) in
      length-subset r.nodes result v.distinct (
        All-member (λ x. member x result ≡ true) r.nodes
          (λ x m. member-All (λ y. member y result ≡ true) x (names r.ring) chosen (v.agree x ∙ m)))

  pub add-IsChoice :
      (j : ℕ) (result : List ℕ)
      → j < length r.ring
      → length result < n
      → IsChoice n r result
      → IsChoice n r (add (node_at r.ring j) result)
  add-IsChoice j result h room c = record {
    distinct = add-Distinct _ result c.distinct;
    known =
        add-All (λ x. member x r.nodes ≡ true) (node_at r.ring j) result
          (sym (v.agree (node_at r.ring j)) ∙ member-node_at r.ring j h) c.known;
    few = ground (arith, length-add (node_at r.ring j) result, room);
  }

  -- A full result: a choice of as many nodes as there can be.
  abbrev pub IsFull : List ℕ → Type 0
  IsFull result =
      Distinct result
      × All (λ x. member x r.nodes ≡ true) result
      × (length result ≡ min n (length r.nodes))

  pub full :
      (result : List ℕ)
      → IsChoice n r result
      → (n ≤ length result) ⊎ (length r.nodes ≤ length result)
      → IsFull result
  full result c (inl h) = (c.distinct, c.known, omega (arith, h, c.few, length-choice-le result c))
  full result c (inr h) = (c.distinct, c.known, omega (arith, h, c.few, length-choice-le result c))
