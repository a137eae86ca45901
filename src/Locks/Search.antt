-- ===== src/Locks/Search.antt =====
-- `DeadlockDetector.detect_cycle` of tugas-3/src/nodes/lock_manager.py: a depth-first search of the
-- wait-for graph with three colors. The recursion runs on fuel, and so does the climb to the parents.
use sistem_paralel_terdistri.Common.{
  Bool, Dict, List, Option, [], false, get_or, if◌then◌else◌, insert, keys, length, lookup, none,
  some, suc, true, zero, ℕ, ◌++◌, ◌==◌, ◌∷◌,
}
use sistem_paralel_terdistri.Locks.Detector.{DeadlockDetector, targets}

pub data Color : Type 0 where
  white gray black : Color

abbrev pub is_color : Color → Color → Bool
is_color white white = true
is_color gray gray = true
is_color black black = true
is_color a b = false

-- The local variables `color` and `parent`.
pub record Search : Type 0 where
  pub color : Dict Color
  pub parent : Dict ℕ

abbrev pub color_of : Search → ℕ → Color
color_of s x = get_or (lookup x s.color) white

abbrev pub paint : ℕ → Color → Search → Search
paint x c s = record s { color = insert x c s.color }

-- What `dfs` returns, and that its fuel was not enough.
pub data Verdict : Type 0 where
  clear : Verdict
  found : List ℕ → Verdict
  out_of_fuel : Verdict

-- The `while` loop that reconstructs a cycle: from `cur` up the parents to `v`.
unfoldable pub climb : ℕ → Dict ℕ → ℕ → Option ℕ → List ℕ
climb zero parent v cur = []
climb (suc k) parent v none = []
climb (suc k) parent v (some cur) =
    let rest = climb k parent v (lookup cur parent) in if cur == v then [] else cur ∷ rest

-- `list(reversed(cycle))`, in front of a list.
abbrev pub rev_onto : List ℕ → List ℕ → List ℕ
rev_onto [] acc = acc
rev_onto (x ∷ xs) acc = rev_onto xs (x ∷ acc)

abbrev pub make_cycle : ℕ → Dict ℕ → ℕ → ℕ → List ℕ
make_cycle bound parent v u = rev_onto (v ∷ (climb bound parent v (some u) ++ v ∷ [])) []

-- The two tests of the `for` loop on a target `v` of `u`, with the rest of the loop and the call of
-- `dfs` passed in.
abbrev pub on_color :
    Color → Search × Verdict → Search × Verdict → Search × Verdict → Search × Verdict
on_color gray cycle called rest = cycle
on_color white cycle called rest = called
on_color black cycle called rest = rest

-- `if res: return res`
abbrev pub or_else : Search × Verdict → (Search → Search × Verdict) → Search × Verdict
or_else (s, clear) k = k s
or_else (s, found c) k = (s, found c)
or_else (s, out_of_fuel) k = (s, out_of_fuel)

-- The `for` loop of `dfs(u)`; `rec` is `dfs`.
unfoldable pub scan : ℕ → (ℕ → Search → Search × Verdict) → ℕ → List ℕ → Search → Search × Verdict
scan bound rec u [] s = (s, clear)
scan bound rec u (v ∷ vs) s =
    on_color (color_of s v) (s, found (make_cycle bound s.parent v u))
      (or_else (rec v (record s { parent = insert v u s.parent })) (scan bound rec u vs))
      (scan bound rec u vs s)

unfoldable pub dfs : ℕ → ℕ → Dict (List ℕ) → ℕ → Search → Search × Verdict
dfs zero bound g u s = (s, out_of_fuel)
dfs (suc fuel) bound g u s =
    or_else (scan bound (dfs fuel bound g) u (targets g u) (paint u gray s))
      (λ s'. (paint u black s', clear))

-- The outer loop over the keys.
unfoldable pub search_from : ℕ → Dict (List ℕ) → List ℕ → Search → Search × Verdict
search_from bound g [] s = (s, clear)
search_from bound g (u ∷ us) s =
    if is_color (color_of s u) white
    then or_else (dfs bound bound g u s) (search_from bound g us)
    else search_from bound g us s

-- All clients that the graph names; the fuel is their number.
abbrev pub mentioned : Dict (List ℕ) → List ℕ
mentioned [] = []
mentioned ((u, vs) ∷ g) = u ∷ (vs ++ mentioned g)

unfoldable pub detect_cycle : DeadlockDetector → Verdict
detect_cycle d =
    (search_from (length (mentioned d.wait_for)) d.wait_for (keys d.wait_for)
      (record { color = []; parent = [] })).1
