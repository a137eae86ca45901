-- ===== src/Common/Dicts.antt =====
-- A Python dict as an association list, keys in insertion order. Keys are identifiers, which
-- the program only compares for equality.
use Prim.Native.Nat.{ℕ, ◌+◌, ◌≤◌}
use mathlib.Core.Path.{◌≡◌, refl}
use mathlib.Core.Logic.{inl, inr}
use mathlib.Core.Bool.{Bool, true, false}
use mathlib.Core.Option.{Option, none, some}
use mathlib.Core.List.{List, [], ◌∷◌}
use native.Mathlib.Omega.{arith}
use sistem_paralel_terdistri.Common.Tests.{◌==◌, if◌then◌else◌, Bool-cases}
use sistem_paralel_terdistri.Common.Lists.{length}

abbrev pub Dict {ℓ} : Type ℓ → Type ℓ
Dict V = List (ℕ × V)

module _ {ℓ} {V : Type ℓ} where
  -- `d.get(k)`
  abbrev pub lookup : ℕ → Dict V → Option V
  lookup k [] = none
  lookup k ((j, v) ∷ d) = if j == k then some v else lookup k d

  -- `k in d`
  abbrev pub contains : ℕ → Dict V → Bool
  contains k [] = false
  contains k ((j, v) ∷ d) = if j == k then true else contains k d

  -- `d[k] = v`
  abbrev pub insert : ℕ → V → Dict V → Dict V
  insert k v [] = (k, v) ∷ []
  insert k v ((j, w) ∷ d) = if j == k then (k, v) ∷ d else (j, w) ∷ insert k v d

  -- `d.pop(k, None)`; a key has one entry, so every entry of `k` is that one.
  abbrev pub erase : ℕ → Dict V → Dict V
  erase k [] = []
  erase k ((j, w) ∷ d) = if j == k then erase k d else (j, w) ∷ erase k d

  -- The entries in order.
  abbrev pub values : Dict V → List V
  values [] = []
  values ((j, w) ∷ d) = w ∷ values d

  abbrev pub keys : Dict V → List ℕ
  keys [] = []
  keys ((j, w) ∷ d) = j ∷ keys d

  pub lookup-insert :
      (j k : ℕ) (v : V) (d : Dict V)
      → lookup j (insert k v d) ≡ (if k == j then some v else lookup j d)
  lookup-insert j k v [] = refl
  lookup-insert j k v ((i, w) ∷ d) = ground (arith, lookup-insert j k v d)

  pub lookup-insert_self : (k : ℕ) (v : V) (d : Dict V) → lookup k (insert k v d) ≡ some v
  lookup-insert_self k v d = ground (arith, lookup-insert k k v d)

  pub lookup-insert_ne :
      (j k : ℕ) (v : V) (d : Dict V) → ¬ (k ≡ j) → lookup j (insert k v d) ≡ lookup j d
  lookup-insert_ne j k v d h = ground (arith, lookup-insert j k v d)

  pub lookup-erase :
      (j k : ℕ) (d : Dict V) → lookup j (erase k d) ≡ (if k == j then none else lookup j d)
  lookup-erase j k [] = ground arith
  lookup-erase j k ((i, w) ∷ d) = ground (arith, lookup-erase j k d)

  pub contains-insert :
      (j k : ℕ) (v : V) (d : Dict V)
      → contains j (insert k v d) ≡ (if k == j then true else contains j d)
  contains-insert j k v [] = refl
  contains-insert j k v ((i, w) ∷ d) = ground (arith, contains-insert j k v d)

  pub contains-erase :
      (j k : ℕ) (d : Dict V) → contains j (erase k d) ≡ (if k == j then false else contains j d)
  contains-erase j k [] = ground arith
  contains-erase j k ((i, w) ∷ d) = ground (arith, contains-erase j k d)

  -- `k in d` and `d.get(k)` agree.
  pub lookup_of_contains :
      (k : ℕ) (d : Dict V) → contains k d ≡ true → (v : V) × (lookup k d ≡ some v)
  lookup_of_contains k [] h = absurd (ground arith)
  lookup_of_contains k ((i, w) ∷ d) h = elim (Bool-cases (i == k)) [
    | inl e ↦ (w, rw e)
    | inr e ↦ rw e (lookup_of_contains k d (ground arith))
  ]

  pub length-erase-le : (k : ℕ) (d : Dict V) → length (erase k d) ≤ length d
  length-erase-le k [] = omega arith
  length-erase-le k ((i, w) ∷ d) = ground (arith, length-erase-le k d)

  pub length-insert :
      (k : ℕ) (v : V) (d : Dict V)
      → length (insert k v d) ≡ (if contains k d then length d else length d + 1)
  length-insert k v [] = refl
  length-insert k v ((i, w) ∷ d) = ground (arith, length-insert k v d)

  pub erase_absent : (k : ℕ) (d : Dict V) → contains k d ≡ false → erase k d ≡ d
  erase_absent k [] h = refl
  erase_absent k ((i, w) ∷ d) h = ground (arith, erase_absent k d)

  -- A predicate of every entry.
  abbrev pub AllEntries {κ} : (ℕ → V → Type κ) → Dict V → Type κ
  AllEntries P [] = Unit
  AllEntries P ((j, w) ∷ d) = P j w × AllEntries P d

  pub AllEntries-insert {κ} :
      (P : ℕ → V → Type κ) (k : ℕ) (v : V) (d : Dict V)
      → P k v
      → AllEntries P d
      → AllEntries P (insert k v d)
  AllEntries-insert P k v [] p h = (p, tt)
  AllEntries-insert P k v ((i, w) ∷ d) p h = ground (arith, AllEntries-insert P k v d p h.1)

  pub AllEntries-erase {κ} :
      (P : ℕ → V → Type κ) (k : ℕ) (d : Dict V) → AllEntries P d → AllEntries P (erase k d)
  AllEntries-erase P k [] h = tt
  AllEntries-erase P k ((i, w) ∷ d) h = ground (arith, AllEntries-erase P k d h.1)

  pub AllEntries-lookup {κ} :
      (P : ℕ → V → Type κ) (k : ℕ) (v : V) (d : Dict V)
      → AllEntries P d
      → lookup k d ≡ some v
      → P k v
  AllEntries-lookup P k v [] h e = absurd (ground arith)
  AllEntries-lookup P k v ((i, w) ∷ d) h e = ground (arith, AllEntries-lookup P k v d h.1)
