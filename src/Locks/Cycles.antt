-- ===== src/Locks/Cycles.antt =====
-- What `DeadlockDetector.detect_cycle` of tugas-3/src/nodes/lock_manager.py decides.
use sistem_paralel_terdistri.Common.{
  Bool-cases, Dict, List, [], arith, inl, inr, insert, keys, length, length-subset, lookup,
  lookup-insert_self, member, member-append, refl, some, subst, suc, true, zero, ℕ, ◌+◌, ◌==◌, ◌∷◌,
  ◌≡◌, ◌≤◌, ◌⊎◌,
}
use sistem_paralel_terdistri.Locks.Detector.{DeadlockDetector, targets}
use sistem_paralel_terdistri.Locks.Dfs.{
  IsBlack, IsSearching, Outcome, color_of-paint, enter-IsSearching, leave-IsSearching,
  or_else-Outcome, set_parent-IsSearching,
}
use sistem_paralel_terdistri.Locks.Search.{
  Color, Search, Verdict, black, clear, color_of, detect_cycle, dfs, found, gray, mentioned,
  out_of_fuel, paint, scan, search_from, white,
}
use sistem_paralel_terdistri.Locks.Trace.{Edge, IsCycle, Linked, Walk, make_cycle-IsCycle}

member-mentioned : (g : Dict (List ℕ)) (u v : ℕ) → Edge g u v → member v (mentioned g) ≡ true
member-mentioned [] u v e = absurd (ground arith)
member-mentioned ((w, vs) ∷ g) u v e = elim (Bool-cases (w == u)) [
  | inl q ↦ ground (arith, member-append v vs (mentioned g), e)
  | inr q ↦ ground (arith, member-append v vs (mentioned g), member-mentioned g u v, e)
]

key-mentioned :
    (g : Dict (List ℕ)) (u : ℕ) → member u (keys g) ≡ true → member u (mentioned g) ≡ true
key-mentioned [] u e = absurd (ground arith)
key-mentioned ((w, vs) ∷ g) u e =
    ground (arith, member-append u vs (mentioned g), key-mentioned g u)

-- A client that waits for another is a key of the graph.
Edge-key : (g : Dict (List ℕ)) (u v : ℕ) → Edge g u v → member u (keys g) ≡ true
Edge-key [] u v e = absurd (ground arith)
Edge-key ((w, vs) ∷ g) u v e = ground (arith, Edge-key g u v, e)

Walk-key :
    (g : Dict (List ℕ)) (u : ℕ) (body : List ℕ) (v : ℕ) → Walk g u body v → member u (keys g) ≡ true
Walk-key g u [] v e = Edge-key g u v e
Walk-key g u (x ∷ xs) v (e, w) = Edge-key g u x e

-- The path has no more clients than the graph names.
path-short :
    (g : Dict (List ℕ)) (path : List ℕ) (s : Search)
    → IsSearching g path s
    → length path ≤ length (mentioned g)
path-short g path s i = length-subset path (mentioned g) i.distinct i.named

Color-cases : (c : Color) → (c ≡ white) ⊎ (c ≡ gray) ⊎ (c ≡ black)
Color-cases white = inl refl
Color-cases gray = inr (inl refl)
Color-cases black = inr (inr refl)

-- One more client is looked at.
then_one :
    (g : Dict (List ℕ)) (path vs : List ℕ) (v : ℕ) (s t : Search) (o : Search × Verdict)
    → ((x : ℕ) → IsBlack s x → IsBlack t x)
    → IsBlack t v
    → Outcome g path vs t o
    → Outcome g path (v ∷ vs) s o
then_one g path vs v s t (s', clear) k b d = record {
  searching = d.searching;
  kept = λ x h. d.kept x (k x h);
  visited = λ x m. elim (Bool-cases (v == x)) [
    | inl q ↦ let r : v ≡ x = ground arith in subst (IsBlack s') r (d.kept v b)
    | inr q ↦ d.visited x (ground (arith, m, q))
  ];
}
then_one g path vs v s t (s', found c) k b d = d
then_one g path vs v s t (s', out_of_fuel) k b d = d

-- What the loop needs of the call of `dfs` on a target.
abbrev Searches : Dict (List ℕ) → ℕ → List ℕ → (ℕ → Search → Search × Verdict) → Type 0
Searches g u path rec =
    (v : ℕ) (s : Search)
    → IsSearching g (u ∷ path) s
    → color_of s v ≡ white
    → lookup v s.parent ≡ some u
    → Edge g u v
    → Outcome g (u ∷ path) (v ∷ []) s (rec v s)

scan-Outcome :
    (g : Dict (List ℕ)) (rec : ℕ → Search → Search × Verdict) (u : ℕ) (path vs : List ℕ)
    (s : Search)
    → Searches g u path rec
    → IsSearching g (u ∷ path) s
    → ((v : ℕ) → member v vs ≡ true → Edge g u v)
    → Outcome g (u ∷ path) vs s (scan (length (mentioned g)) rec u vs s)
unfolding scan
scan-Outcome g rec u path [] s calls i es = record {
  searching = i;
  kept = λ x h. h;
  visited = λ x m. absurd (ground (arith, m));
}
scan-Outcome g rec u path (v ∷ vs) s calls i es =
    let e : Edge g u v = es v (ground arith) in
    let rest : (w : ℕ) → member w vs ≡ true → Edge g u w = λ w m. es w (ground (arith, m)) in
    elim (Color-cases (color_of s v)) [
      | inl q ↦
          let s' = record s { parent = insert v u s.parent } in
          rw q (
            or_else-Outcome g (u ∷ path) (v ∷ []) (u ∷ path) (v ∷ vs) s' s (rec v s')
              (scan (length (mentioned g)) rec u vs)
              (calls v s' (set_parent-IsSearching g (u ∷ path) s v u i q) q
                (lookup-insert_self v u s.parent) e)
              (λ t d.
                then_one g (u ∷ path) vs v s t _ d.kept (d.visited v (ground arith))
                  (scan-Outcome g rec u path vs t calls d.searching rest)))
      | inr (inl q) ↦ rw q (
          make_cycle-IsCycle g s.parent v (length (mentioned g)) u path i.linked
            (i.gray_on_path v q) (path-short g (u ∷ path) s i) e)
      | inr (inr q) ↦ rw q (
          then_one g (u ∷ path) vs v s s _ (λ x h. h) q
            (scan-Outcome g rec u path vs s calls i rest))
    ]

-- `dfs` from a white client that hangs on the end of the path.
dfs-Outcome :
    (g : Dict (List ℕ)) (fuel : ℕ) (path : List ℕ) (u : ℕ) (s : Search)
    → IsSearching g path s
    → color_of s u ≡ white
    → Linked g s.parent (u ∷ path)
    → member u (mentioned g) ≡ true
    → length (mentioned g) ≤ fuel + length path
    → Outcome g path (u ∷ []) s (dfs fuel (length (mentioned g)) g u s)
unfolding dfs
dfs-Outcome g zero path u s i w l m enough =
    let short = path-short g (u ∷ path) (paint u gray s) (enter-IsSearching g path s u i w l m) in
    absurd (omega (arith, short, enough))
dfs-Outcome g (suc fuel) path u s i w l m enough =
    let t = paint u gray s in
    let j = enter-IsSearching g path s u i w l m in
    or_else-Outcome g (u ∷ path) (targets g u) path (u ∷ []) t s _ (λ s'. (paint u black s', clear))
      (scan-Outcome g (dfs fuel (length (mentioned g)) g) u path (targets g u) t
        (λ v s' k q p e.
          dfs-Outcome g fuel (u ∷ path) v s' k q (p, e, k.linked) (member-mentioned g u v e)
            (omega (arith, enough)))
        j (λ v h. h))
      (λ s' d. record {
        searching = leave-IsSearching g path s' u d.searching d.visited;
        kept = λ x b.
            let c : IsBlack s' x = d.kept x (ground (arith, color_of-paint x u gray s, b, w)) in
            ground (arith, color_of-paint x u black s', c);
        visited = λ x h. ground (arith, color_of-paint x u black s', h);
      })

search_from-Outcome :
    (g : Dict (List ℕ)) (us : List ℕ) (s : Search)
    → IsSearching g [] s
    → ((u : ℕ) → member u us ≡ true → member u (keys g) ≡ true)
    → Outcome g [] us s (search_from (length (mentioned g)) g us s)
unfolding search_from
search_from-Outcome g [] s i ks = record {
  searching = i;
  kept = λ x h. h;
  visited = λ x m. absurd (ground (arith, m));
}
search_from-Outcome g (u ∷ us) s i ks =
    let rest : (w : ℕ) → member w us ≡ true → member w (keys g) ≡ true =
      λ w m. ks w (ground (arith, m)) in
    let n = length (mentioned g) in
    elim (Color-cases (color_of s u)) [
      | inl q ↦ rw q (
          or_else-Outcome g [] (u ∷ []) [] (u ∷ us) s s (dfs n n g u s) (search_from n g us)
            (dfs-Outcome g n [] u s i q tt (key-mentioned g u (ks u (ground arith))) (omega arith))
            (λ t d.
              then_one g [] us u s t _ d.kept (d.visited u (ground arith))
                (search_from-Outcome g us t d.searching rest)))
      | inr (inl q) ↦ absurd (ground (arith, i.gray_on_path u q))
      | inr (inr q) ↦
          rw q (then_one g [] us u s s _ (λ x h. h) q (search_from-Outcome g us s i rest))
    ]

start-IsSearching : (g : Dict (List ℕ)) → IsSearching g [] (record { color = []; parent = [] })
start-IsSearching g = record {
  gray_on_path = λ x h. absurd (ground (arith, h));
  path_gray = λ x h. absurd (ground (arith, h));
  linked = tt;
  distinct = tt;
  named = tt;
  closed = λ x y b e. absurd (ground (arith, b));
  acyclic = λ x body b w. ground (arith, b);
}

-- The verdict on a graph is right.
abbrev IsRight : Dict (List ℕ) → Verdict → Type 0
IsRight g v =
    ((c : List ℕ) × (v ≡ found c) × IsCycle g c)
    ⊎ ((v ≡ clear) × ((x : ℕ) (body : List ℕ) → ¬ (Walk g x body x)))

Outcome-IsRight :
    (g : Dict (List ℕ)) (s : Search) (o : Search × Verdict)
    → Outcome g [] (keys g) s o
    → IsRight g o.1
Outcome-IsRight g s (s', clear) d =
    inr (refl, λ x body w. d.searching.acyclic x body (d.visited x (Walk-key g x body x w)) w)
Outcome-IsRight g s (s', found c) h = inl (c, refl, h)
Outcome-IsRight g s (s', out_of_fuel) h = absurd h

-- `detect_cycle` terminates on every wait-for graph, within as many nested calls as the graph names
-- clients, and decides it: either it returns a list of clients in which each waits for the next and
-- the last is the first again, or it returns nothing and no client waits, over any number of others,
-- for itself.
pub detect_cycle_decides :
    (d : DeadlockDetector)
    → ((c : List ℕ) × (detect_cycle d ≡ found c) × IsCycle d.wait_for c)
      ⊎ ((detect_cycle d ≡ clear) × ((x : ℕ) (body : List ℕ) → ¬ (Walk d.wait_for x body x)))
unfolding detect_cycle
detect_cycle_decides d =
    Outcome-IsRight d.wait_for _ _
      (search_from-Outcome d.wait_for (keys d.wait_for) _ (start-IsSearching d.wait_for) (λ u m. m))
