-- ===== src/Common/Elems.antt =====
-- Membership as evidence, and counting by it: two majorities have a member in common.
use Prim.Native.Nat.{ℕ, suc, ◌+◌, ◌≤◌, ◌<◌}
use mathlib.Core.Path.{◌≡◌, refl, subst, sym}
use mathlib.Core.Logic.{◌⊎◌, inl, inr}
use mathlib.Core.Bool.{true, false}
use mathlib.Core.List.{List, [], ◌∷◌, ◌++◌}
use native.Mathlib.Omega.{arith}
use sistem_paralel_terdistri.Common.Tests.{◌==◌, Bool-cases}
use sistem_paralel_terdistri.Common.Lists.{length, length-append, All, All-append}
use sistem_paralel_terdistri.Common.Dicts.{Dict, contains, keys}
use sistem_paralel_terdistri.Common.IdSet.{
  add, member, discard, member-discard, member-append, Distinct,
}

module _ {A : Type 0} where
  -- A place of the list where the element stands.
  abbrev pub Elem : A → List A → Type 0
  Elem x [] = ⊥
  Elem x (y ∷ ys) = (x ≡ y) ⊎ Elem x ys

  pub All-Elem {κ} : (P : A → Type κ) (x : A) (ys : List A) → All P ys → Elem x ys → P x
  All-Elem P x [] h e = absurd e
  All-Elem P x (y ∷ ys) h (inl e) = subst P (sym e) h.0
  All-Elem P x (y ∷ ys) h (inr e) = All-Elem P x ys h.1 e

  pub All-map {κ μ} :
      (P : A → Type κ) (Q : A → Type μ) (xs : List A) → ((x : A) → P x → Q x) → All P xs → All Q xs
  All-map P Q [] f h = tt
  All-map P Q (x ∷ xs) f h = (f x h.0, All-map P Q xs f h.1)

pub member-All {κ} : (P : ℕ → Type κ) (x : ℕ) (ys : List ℕ) → All P ys → member x ys ≡ true → P x
member-All P x [] h e = absurd (ground arith)
member-All P x (y ∷ ys) h e = elim (Bool-cases (y == x)) [
  | inl q ↦ let p : y ≡ x = ground arith in subst P p h.0
  | inr q ↦ member-All P x ys h.1 (ground arith)
]

length-discard-le : (x : ℕ) (s : List ℕ) → length (discard x s) ≤ length s
length-discard-le x [] = omega arith
length-discard-le x (y ∷ s) = ground (arith, length-discard-le x s)

length-discard : (x : ℕ) (s : List ℕ) → member x s ≡ true → suc (length (discard x s)) ≤ length s
length-discard x [] e = absurd (ground arith)
length-discard x (y ∷ s) e = ground (arith, length-discard x s, length-discard-le x s)

-- A subset without repetitions is no longer than the set.
All-discard :
    (x : ℕ) (l m : List ℕ)
    → member x l ≡ false
    → All (λ y. member y m ≡ true) l
    → All (λ y. member y (discard x m) ≡ true) l
All-discard x [] m d h = tt
All-discard x (y ∷ l) m d h =
    (ground (arith, member-discard y x m), All-discard x l m (ground arith) h.1)

pub length-subset :
    (l m : List ℕ) → Distinct l → All (λ y. member y m ≡ true) l → length l ≤ length m
length-subset [] m d h = omega arith
length-subset (x ∷ l) m d h =
    omega
      (arith, length-subset l (discard x m) d.1 (All-discard x l m d.0 h.1), length-discard x m h.0)

-- Two lists share an element, or appending them repeats nothing.
meets :
    (l m : List ℕ)
    → Distinct l
    → Distinct m
    → ((x : ℕ) × (member x l ≡ true) × (member x m ≡ true)) ⊎ Distinct (l ++ m)
meets [] m d e = inr e
meets (x ∷ l) m d e = elim (Bool-cases (member x m)) [
  | inl p ↦ inl (x, ground arith, p)
  | inr p ↦ elim (meets l m d.1 e) [
    | inl (y, q, r) ↦ inl (y, ground arith, r)
    | inr q ↦ inr (ground (arith, member-append x l m), q)
  ]
]

-- Two subsets that together outnumber the set have a member in common.
pub quorums_meet :
    (l m all : List ℕ)
    → Distinct l
    → Distinct m
    → All (λ y. member y all ≡ true) l
    → All (λ y. member y all ≡ true) m
    → length all < length l + length m
    → (x : ℕ) × (member x l ≡ true) × (member x m ≡ true)
quorums_meet l m all d e p q h = elim (meets l m d e) [
  | inl found ↦ found
  | inr apart ↦ absurd (
      omega (
        arith,
        length-subset (l ++ m) all apart (All-append (λ y. member y all ≡ true) l m p q),
        length-append l m,
      ))
]

pub add-All {κ} : (P : ℕ → Type κ) (x : ℕ) (ws : List ℕ) → P x → All P ws → All P (add x ws)
add-All P x [] p h = (p, tt)
add-All P x (w ∷ ws) p h = elim (Bool-cases (w == x)) [
  | inl e ↦ rw e h
  | inr e ↦ rw e (h.0, add-All P x ws p h.1)
]

pub contains-keys {ℓ} : {V : Type ℓ} (k : ℕ) (d : Dict V) → contains k d ≡ member k (keys d)
contains-keys k [] = refl
contains-keys k ((j, v) ∷ d) = ground (arith, contains-keys k d)

pub All-member {κ} : (P : ℕ → Type κ) (l : List ℕ) → ((x : ℕ) → member x l ≡ true → P x) → All P l
All-member P [] f = tt
All-member P (y ∷ l) f = (f y (ground arith), All-member P l (λ x m. f x (ground (arith, m))))
