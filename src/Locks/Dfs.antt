-- ===== src/Locks/Dfs.antt =====
-- The invariant of the depth-first search in `DeadlockDetector.detect_cycle`:
-- tugas-3/src/nodes/lock_manager.py. The gray clients are the path from the root to the client whose
-- targets are looked at.
use sistem_paralel_terdistri.Common.{
  All, Bool-cases, Dict, Distinct, List, [], arith, false, if◌then◌else◌, inl, inr, insert,
  lookup-insert, member, subst, true, ℕ, ◌==◌, ◌∷◌, ◌≡◌, ◌≢◌,
}
use sistem_paralel_terdistri.Locks.Search.{
  Color, Search, Verdict, black, clear, color_of, found, gray, mentioned, or_else, out_of_fuel,
  paint, white,
}
use sistem_paralel_terdistri.Locks.Trace.{Edge, IsCycle, Linked, Linked-insert, Linked-tail, Walk}

abbrev pub IsBlack : Search → ℕ → Type 0
IsBlack s x = color_of s x ≡ black

-- The search stands at the end of the path, the first of the list.
pub record IsSearching (g : Dict (List ℕ)) (path : List ℕ) (s : Search) : Type 0 where
  pub gray_on_path : (x : ℕ) → color_of s x ≡ gray → member x path ≡ true
  pub path_gray : (x : ℕ) → member x path ≡ true → color_of s x ≡ gray
  pub linked : Linked g s.parent path
  pub distinct : Distinct path
  pub named : All (λ x. member x (mentioned g) ≡ true) path
  pub closed : (x y : ℕ) → IsBlack s x → Edge g x y → IsBlack s y
  pub acyclic : (x : ℕ) (body : List ℕ) → IsBlack s x → ¬ (Walk g x body x)

-- What a search without a cycle did: it ends where it stood, black clients stay black, and `vs` are
-- black.
pub record Done (g : Dict (List ℕ)) (path vs : List ℕ) (s s' : Search) : Type 0 where
  pub searching : IsSearching g path s'
  pub kept : (x : ℕ) → IsBlack s x → IsBlack s' x
  pub visited : (x : ℕ) → member x vs ≡ true → IsBlack s' x

abbrev pub Outcome : Dict (List ℕ) → List ℕ → List ℕ → Search → Search × Verdict → Type 0
Outcome g path vs s (s', clear) = Done g path vs s s'
Outcome g path vs s (s', found c) = IsCycle g c
Outcome g path vs s (s', out_of_fuel) = ⊥

pub or_else-Outcome :
    (g : Dict (List ℕ)) (path vs path' ws : List ℕ) (s t : Search) (o : Search × Verdict)
    (k : Search → Search × Verdict)
    → Outcome g path vs s o
    → ((s' : Search) → Done g path vs s s' → Outcome g path' ws t (k s'))
    → Outcome g path' ws t (or_else o k)
or_else-Outcome g path vs path' ws s t (s', clear) k h f = f s' h
or_else-Outcome g path vs path' ws s t (s', found c) k h f = h
or_else-Outcome g path vs path' ws s t (s', out_of_fuel) k h f = absurd h

pub color_of-paint :
    (x u : ℕ) (c : Color) (s : Search)
    → color_of (paint u c s) x ≡ (if u == x then c else color_of s x)
color_of-paint x u c s = ground (arith, lookup-insert x u c s.color)

white_off_path :
    (g : Dict (List ℕ)) (path : List ℕ) (s : Search) (u : ℕ)
    → IsSearching g path s
    → color_of s u ≡ white
    → member u path ≡ false
white_off_path g path s u i e = elim (Bool-cases (member u path)) [
  | inl m ↦ let q : color_of s u ≡ gray = i.path_gray u m in cc
  | inr m ↦ m
]

-- `parent[v] = u` for a white client.
pub set_parent-IsSearching :
    (g : Dict (List ℕ)) (path : List ℕ) (s : Search) (v u : ℕ)
    → IsSearching g path s
    → color_of s v ≡ white
    → IsSearching g path (record s { parent = insert v u s.parent })
set_parent-IsSearching g path s v u i e = record {
  gray_on_path = i.gray_on_path;
  path_gray = i.path_gray;
  linked = Linked-insert g s.parent v u path (white_off_path g path s v i e) i.linked;
  distinct = i.distinct;
  named = i.named;
  closed = i.closed;
  acyclic = i.acyclic;
}

paint_black :
    (u x : ℕ) (c : Color) (s : Search)
    → color_of s u ≢ black
    → c ≢ black
    → IsBlack (paint u c s) x
    → IsBlack s x
paint_black u x c s w n b = ground (arith, color_of-paint x u c s)

-- `color[u] = GRAY` for a white client that hangs on the end of the path.
pub enter-IsSearching :
    (g : Dict (List ℕ)) (path : List ℕ) (s : Search) (u : ℕ)
    → IsSearching g path s
    → color_of s u ≡ white
    → Linked g s.parent (u ∷ path)
    → member u (mentioned g) ≡ true
    → IsSearching g (u ∷ path) (paint u gray s)
enter-IsSearching g path s u i e l m =
    let back : (x : ℕ) → IsBlack (paint u gray s) x → IsBlack s x =
      λ x b. ground (arith, color_of-paint x u gray s, b) in
    record {
      gray_on_path = λ x h. ground (arith, color_of-paint x u gray s, i.gray_on_path x, h);
      path_gray = λ x h. ground (arith, color_of-paint x u gray s, i.path_gray x, h);
      linked = l;
      distinct = (white_off_path g path s u i e, i.distinct);
      named = (m, i.named);
      closed = λ x y b f.
          let q : IsBlack s y = i.closed x y (back x b) f in
          ground (arith, color_of-paint y u gray s, e, q);
      acyclic = λ x body b. i.acyclic x body (back x b);
    }

-- A walk from a black client ends at a black client.
Walk-IsBlack :
    (g : Dict (List ℕ)) (path : List ℕ) (s : Search) (x : ℕ) (body : List ℕ) (y : ℕ)
    → IsSearching g path s
    → IsBlack s x
    → Walk g x body y
    → IsBlack s y
Walk-IsBlack g path s x [] y i b e = i.closed x y b e
Walk-IsBlack g path s x (z ∷ zs) y i b (e, w) = Walk-IsBlack g path s z zs y i (i.closed x z b e) w

-- No walk comes back to a gray client whose targets are all black.
no_return :
    (g : Dict (List ℕ)) (path : List ℕ) (s : Search) (u : ℕ) (body : List ℕ)
    → IsSearching g path s
    → color_of s u ≡ gray
    → ((y : ℕ) → Edge g u y → IsBlack s y)
    → ¬ (Walk g u body u)
no_return g path s u [] i e f w = let b : IsBlack s u = f u w in ground (arith, b, e)
no_return g path s u (z ∷ zs) i e f (h, w) =
    let b : IsBlack s u = Walk-IsBlack g path s z zs u i (f z h) w in ground (arith, b, e)

-- `color[u] = BLACK` after the loop over the targets of the end of the path.
pub leave-IsSearching :
    (g : Dict (List ℕ)) (path : List ℕ) (s : Search) (u : ℕ)
    → IsSearching g (u ∷ path) s
    → ((y : ℕ) → Edge g u y → IsBlack s y)
    → IsSearching g path (paint u black s)
leave-IsSearching g path s u i f =
    let e : color_of s u ≡ gray = i.path_gray u (ground arith) in
    let d : member u path ≡ false = i.distinct.0 in
    let on : (y : ℕ) → IsBlack s y → IsBlack (paint u black s) y =
      λ y b. ground (arith, color_of-paint y u black s, b) in
    record {
      gray_on_path = λ x h. ground (arith, color_of-paint x u black s, i.gray_on_path x, h);
      path_gray = λ x h. elim (Bool-cases (u == x)) [
        | inl q ↦ let r : u ≡ x = ground arith in ground (arith, r, h, d)
        | inr q ↦ ground (arith, color_of-paint x u black s, i.path_gray x, h, q)
      ];
      linked = Linked-tail g s.parent u path i.linked;
      distinct = i.distinct.1;
      named = i.named.1;
      closed = λ x y b h. elim (Bool-cases (u == x)) [
        | inl q ↦ let r : x ≡ u = ground arith in on y (f y (subst (λ z. Edge g z y) r h))
        | inr q ↦ on y (i.closed x y (ground (arith, color_of-paint x u black s, b, q)) h)
      ];
      acyclic = λ x body b. elim (Bool-cases (u == x)) [
        | inl q ↦
            let r : u ≡ x = ground arith in
            subst (λ z. ¬ (Walk g z body z)) r (no_return g (u ∷ path) s u body i e f)
        | inr q ↦ i.acyclic x body (ground (arith, color_of-paint x u black s, b, q))
      ];
    }
