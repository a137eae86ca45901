-- ===== src/Common/IdSet.antt =====
-- A Python set of identifiers as a list without repetitions, in insertion order.
use Prim.Native.Nat.{ℕ, ◌+◌}
use mathlib.Core.Path.{◌≡◌, refl}
use mathlib.Core.Bool.{Bool, true, false}
use mathlib.Core.List.{List, [], ◌∷◌, ◌++◌}
use native.Mathlib.Omega.{arith}
use sistem_paralel_terdistri.Common.Tests.{◌==◌, if◌then◌else◌}
use sistem_paralel_terdistri.Common.Lists.{length}

-- `x in s`
abbrev pub member : ℕ → List ℕ → Bool
member x [] = false
member x (y ∷ s) = if y == x then true else member x s

-- `s.add(x)`
abbrev pub add : ℕ → List ℕ → List ℕ
add x [] = x ∷ []
add x (y ∷ s) = if y == x then y ∷ s else y ∷ add x s

-- `s.discard(x)`
abbrev pub discard : ℕ → List ℕ → List ℕ
discard x [] = []
discard x (y ∷ s) = if y == x then discard x s else y ∷ discard x s

pub member-add : (x y : ℕ) (s : List ℕ) → member x (add y s) ≡ (if y == x then true else member x s)
member-add x y [] = refl
member-add x y (z ∷ s) = ground (arith, member-add x y s)

pub member-discard :
    (x y : ℕ) (s : List ℕ) → member x (discard y s) ≡ (if y == x then false else member x s)
member-discard x y [] = ground arith
member-discard x y (z ∷ s) = ground (arith, member-discard x y s)

pub member-append :
    (x : ℕ) (s t : List ℕ) → member x (s ++ t) ≡ (if member x s then true else member x t)
member-append x [] t = refl
member-append x (z ∷ s) t = ground (arith, member-append x s t)

pub length-add :
    (x : ℕ) (s : List ℕ) → length (add x s) ≡ (if member x s then length s else length s + 1)
length-add x [] = refl
length-add x (y ∷ s) = ground (arith, length-add x s)

-- No identifier is listed twice.
abbrev pub Distinct : List ℕ → Type 0
Distinct [] = Unit {0}
Distinct (x ∷ s) = (member x s ≡ false) × Distinct s

pub add-Distinct : (x : ℕ) (s : List ℕ) → Distinct s → Distinct (add x s)
add-Distinct x [] h = (refl, tt)
add-Distinct x (y ∷ s) h = ground (arith, add-Distinct x s h.1, member-add y x s)

pub discard-Distinct : (x : ℕ) (s : List ℕ) → Distinct s → Distinct (discard x s)
discard-Distinct x [] h = tt
discard-Distinct x (y ∷ s) h = ground (arith, discard-Distinct x s h.1, member-discard y x s)
