-- ===== src/Locks/Trace.antt =====
-- Walks in the wait-for graph, and the cycle that `DeadlockDetector.detect_cycle` reconstructs from
-- the parents: tugas-3/src/nodes/lock_manager.py.
use sistem_paralel_terdistri.Common.{
  Bool-cases, Dict, List, [], ap, arith, false, inl, inr, insert, length, lookup, lookup-insert,
  member, refl, some, subst, suc, sym, true, zero, ℕ, ◌++◌, ◌==◌, ◌∙◌, ◌∷◌, ◌≡◌, ◌≤◌,
}
use sistem_paralel_terdistri.Locks.Detector.{targets}
use sistem_paralel_terdistri.Locks.Search.{climb, make_cycle, rev_onto}

-- `b in self.wait_for.get(a, set())`
abbrev pub Edge : Dict (List ℕ) → ℕ → ℕ → Type 0
Edge g a b = member b (targets g a) ≡ true

-- A walk from `a` through the listed clients to `b`.
abbrev pub Walk : Dict (List ℕ) → ℕ → List ℕ → ℕ → Type 0
Walk g a [] b = Edge g a b
Walk g a (x ∷ xs) b = Edge g a x × Walk g x xs b

-- The list is a cycle of clients that wait for one another; the first is repeated as the last.
abbrev pub IsCycle : Dict (List ℕ) → List ℕ → Type 0
IsCycle g c = (v : ℕ) × (body : List ℕ) × (c ≡ v ∷ (body ++ v ∷ [])) × Walk g v body v

-- A path in the tree of parents, its end first.
abbrev pub Linked : Dict (List ℕ) → Dict ℕ → List ℕ → Type 0
Linked g parent [] = Unit {0}
Linked g parent (u ∷ []) = Unit {0}
Linked g parent (u ∷ p ∷ path) =
    (lookup u parent ≡ some p) × Edge g p u × Linked g parent (p ∷ path)

pub Linked-tail :
    (g : Dict (List ℕ)) (parent : Dict ℕ) (u : ℕ) (path : List ℕ)
    → Linked g parent (u ∷ path)
    → Linked g parent path
Linked-tail g parent u [] h = tt
Linked-tail g parent u (p ∷ path) (e, f, h) = h

-- The parent of a client off the path may change.
pub Linked-insert :
    (g : Dict (List ℕ)) (parent : Dict ℕ) (v u : ℕ) (path : List ℕ)
    → member v path ≡ false
    → Linked g parent path
    → Linked g (insert v u parent) path
Linked-insert g parent v u [] m h = tt
Linked-insert g parent v u (x ∷ []) m h = tt
Linked-insert g parent v u (x ∷ p ∷ path) m (e, f, h) = (
  ground (arith, lookup-insert x v u parent),
  f,
  Linked-insert g parent v u (p ∷ path) (ground arith) h,
)

rev_onto-last : (t acc : List ℕ) (v : ℕ) → rev_onto (t ++ v ∷ []) acc ≡ v ∷ rev_onto t acc
rev_onto-last [] acc v = refl
rev_onto-last (x ∷ t) acc v = rev_onto-last t (x ∷ acc) v

rev_onto-append : (t acc ys : List ℕ) → rev_onto t acc ++ ys ≡ rev_onto t (acc ++ ys)
rev_onto-append [] acc ys = refl
rev_onto-append (x ∷ t) acc ys = rev_onto-append t (x ∷ acc) ys

make_cycle-shape :
    (bound : ℕ) (parent : Dict ℕ) (v u : ℕ)
    → make_cycle bound parent v u ≡ v ∷ (rev_onto (climb bound parent v (some u)) [] ++ v ∷ [])
make_cycle-shape bound parent v u =
    rev_onto-last (climb bound parent v (some u)) (v ∷ []) v
    ∙ ap (◌∷◌ v) (sym (rev_onto-append (climb bound parent v (some u)) [] (v ∷ [])))

climb_here :
    (k : ℕ) (parent : Dict ℕ) (v u : ℕ) → (u == v) ≡ true → climb (suc k) parent v (some u) ≡ []
unfolding climb
climb_here k parent v u e = rw e refl

climb_on :
    (k : ℕ) (parent : Dict ℕ) (v u p : ℕ)
    → (u == v) ≡ false
    → lookup u parent ≡ some p
    → climb (suc k) parent v (some u) ≡ u ∷ climb k parent v (some p)
unfolding climb
climb_on k parent v u p e f = rw (e, f) refl

-- The climb from the end of a path to a client on it, read backwards, is a walk down from that client.
climb-Walk :
    (g : Dict (List ℕ)) (parent : Dict ℕ) (v w k u : ℕ) (path acc : List ℕ)
    → Linked g parent (u ∷ path)
    → member v (u ∷ path) ≡ true
    → suc (length path) ≤ k
    → Walk g u acc w
    → Walk g v (rev_onto (climb k parent v (some u)) acc) w
climb-Walk g parent v w zero u path acc h m le walk = absurd (omega arith)
climb-Walk g parent v w (suc k) u [] acc h m le walk =
    let e : (u == v) ≡ true = ground arith in
    let same : u ≡ v = ground arith in
    rw (climb_here k parent v u e) (subst (λ x. Walk g x acc w) same walk)
climb-Walk g parent v w (suc k) u (p ∷ path) acc h m le walk = elim (Bool-cases (u == v)) [
  | inl e ↦
      let same : u ≡ v = ground arith in
      rw (climb_here k parent v u e) (subst (λ x. Walk g x acc w) same walk)
  | inr e ↦ rw (climb_on k parent v u p e h.0) (
      climb-Walk g parent v w k p path (u ∷ acc) h.2 (ground arith) (omega (arith, le)) (h.1, walk))
]

-- A target that is already on the path closes a cycle.
pub make_cycle-IsCycle :
    (g : Dict (List ℕ)) (parent : Dict ℕ) (v bound u : ℕ) (path : List ℕ)
    → Linked g parent (u ∷ path)
    → member v (u ∷ path) ≡ true
    → suc (length path) ≤ bound
    → Edge g u v
    → IsCycle g (make_cycle bound parent v u)
make_cycle-IsCycle g parent v bound u path h m le e = (
  v,
  rev_onto (climb bound parent v (some u)) [],
  make_cycle-shape bound parent v u,
  climb-Walk g parent v v bound u path [] h m le e,
)
