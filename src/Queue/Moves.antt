-- ===== src/Queue/Moves.antt =====
-- Which keys move when a node leaves the ring of tugas-3/src/nodes/queue_node.py.
use sistem_paralel_terdistri.Common.{
  Bool-cases, List, Option, Option-cases, [], ap, arith, discard, false, get_or, if◌then◌else◌, inl,
  inr, is_empty, leb, length, member, none, refl, some, suc, sym, ℕ, ◌<◌, ◌∙◌, ◌∷◌, ◌≡◌, ◌⊎◌,
}
use sistem_paralel_terdistri.Queue.Ring.{
  ConsistentHashRing, bisect_right, get_node, node_at, remove_node, without,
}

-- The node of the first entry that hashes above `h`.
unfoldable successor : ℕ → List (ℕ × ℕ) → Option ℕ
successor h [] = none
successor h ((g, n) ∷ es) = if leb g h then successor h es else some n

-- The owner of a hash: its successor, or the first node of the ring.
unfoldable owner : ℕ → List (ℕ × ℕ) → ℕ
owner h es = get_or (successor h es) (node_at es 0)

successor-node_at :
    (h : ℕ) (es : List (ℕ × ℕ))
    → ((bisect_right es h ≡ length es) × (successor h es ≡ none))
      ⊎ ((bisect_right es h < length es) × (successor h es ≡ some (node_at es (bisect_right es h))))
unfolding successor bisect_right
successor-node_at h [] = inl (refl, refl)
successor-node_at h ((g, n) ∷ es) = elim (Bool-cases (leb g h)) [
  | inl e ↦ elim (successor-node_at h es) [
    | inl (p, q) ↦ rw (e) (inl (ap suc p, q))
    | inr (p, q) ↦ rw (e) (inr (omega (arith, p), q))
  ]
  | inr e ↦ rw e (inr (omega arith, refl))
]

get_node-owner :
    (hash_key : ℕ → ℕ) (key : ℕ) (r : ConsistentHashRing)
    → is_empty r.ring ≡ false
    → get_node hash_key key r ≡ some (owner (hash_key key) r.ring)
unfolding get_node owner
get_node-owner hash_key key r e = elim (successor-node_at (hash_key key) r.ring) [
  | inl (p, q) ↦ ground (arith, p, q)
  | inr (p, q) ↦ ground (arith, p, q)
]

-- Dropping the entries of another node keeps the successor.
successor-without :
    (h node n : ℕ) (es : List (ℕ × ℕ))
    → successor h es ≡ some n
    → ¬ (n ≡ node)
    → successor h (without node es) ≡ some n
unfolding successor without
successor-without h node n [] e ne = ground arith
successor-without h node n ((g, m) ∷ es) e ne = ground (arith, successor-without h node n es)

successor_absent :
    (h node : ℕ) (es : List (ℕ × ℕ)) → successor h es ≡ none → successor h (without node es) ≡ none
unfolding successor without
successor_absent h node [] e = refl
successor_absent h node ((g, m) ∷ es) e = ground (arith, successor_absent h node es)

nonempty_of_successor :
    (h n : ℕ) (es : List (ℕ × ℕ)) → successor h es ≡ some n → is_empty es ≡ false
unfolding successor
nonempty_of_successor h n [] e = absurd (ground arith)
nonempty_of_successor h n (f ∷ es) e = refl

first-without :
    (node g m : ℕ) (es : List (ℕ × ℕ))
    → ¬ (m ≡ node)
    → (node_at (without node ((g, m) ∷ es)) 0 ≡ m) × (is_empty (without node ((g, m) ∷ es)) ≡ false)
unfolding without
first-without node g m es ne = ground arith

owner-without :
    (h node : ℕ) (es : List (ℕ × ℕ))
    → is_empty es ≡ false
    → ¬ (owner h es ≡ node)
    → (owner h (without node es) ≡ owner h es) × (is_empty (without node es) ≡ false)
unfolding owner
owner-without h node [] e ne = absurd (ground arith)
owner-without h node ((g, m) ∷ es) e ne = elim (Option-cases (successor h ((g, m) ∷ es))) [
  | inl none_above ↦
      let first = first-without node g m es (λ p. ne (rw none_above p)) in
      let none' = successor_absent h node ((g, m) ∷ es) none_above in rw (none_above, none') first
  | inr (n, found) ↦
      let found' = successor-without h node n ((g, m) ∷ es) found (λ p. ne (rw found p)) in
      rw (found, found') (refl, nonempty_of_successor h n _ found')
]

nonempty_of_get_node :
    (hash_key : ℕ → ℕ) (key n : ℕ) (r : ConsistentHashRing)
    → get_node hash_key key r ≡ some n
    → is_empty r.ring ≡ false
unfolding get_node
nonempty_of_get_node hash_key key n r e = ground arith

-- When a node leaves the ring, every key that another node owned keeps its owner: only the keys of
-- the leaving node move.
pub get_node-remove_node :
    (hash_key : ℕ → ℕ) (key node n : ℕ) (r : ConsistentHashRing)
    → get_node hash_key key r ≡ some n
    → ¬ (n ≡ node)
    → get_node hash_key key (remove_node node r) ≡ some n
unfolding remove_node
get_node-remove_node hash_key key node n r e ne =
    let full = nonempty_of_get_node hash_key key n r e in
    let owned = sym (get_node-owner hash_key key r full) ∙ e in
    elim (Bool-cases (member node r.nodes)) [
      | inr absent ↦ rw absent e
      | inl p ↦
          let (same, full') =
            owner-without (hash_key key) node r.ring full (λ o. ne (ground (arith, owned, o))) in
          let r' = record r { nodes = discard node r.nodes; ring = without node r.ring } in
          rw p (get_node-owner hash_key key r' full' ∙ ap some same ∙ owned)
    ]
