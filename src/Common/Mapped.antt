-- ===== src/Common/Mapped.antt =====
-- A function on the values of a dict.
use Prim.Native.Nat.{ℕ}
use mathlib.Core.Path.{◌≡◌, refl, ap}
use mathlib.Core.Option.{Option, none, some}
use mathlib.Core.List.{List, [], ◌∷◌, ◌++◌, map}
use native.Mathlib.Omega.{arith}
use sistem_paralel_terdistri.Common.Lists.{is_empty}
use sistem_paralel_terdistri.Common.Dicts.{Dict, contains, lookup, insert, erase, keys}

module _ {ℓ κ} {A : Type ℓ} {B : Type κ} (f : A → B) where
  abbrev pub map_values : Dict A → Dict B
  map_values [] = []
  map_values ((k, v) ∷ d) = (k, f v) ∷ map_values d

  abbrev pub map_some : Option A → Option B
  map_some none = none
  map_some (some a) = some (f a)

  pub lookup-map_values : (k : ℕ) (d : Dict A) → lookup k (map_values d) ≡ map_some (lookup k d)
  lookup-map_values k [] = refl
  lookup-map_values k ((j, v) ∷ d) = ground (arith, lookup-map_values k d)

  pub contains-map_values : (k : ℕ) (d : Dict A) → contains k (map_values d) ≡ contains k d
  contains-map_values k [] = refl
  contains-map_values k ((j, v) ∷ d) = ground (arith, contains-map_values k d)

  pub map_values-insert :
      (k : ℕ) (v : A) (d : Dict A) → map_values (insert k v d) ≡ insert k (f v) (map_values d)
  map_values-insert k v [] = refl
  map_values-insert k v ((j, w) ∷ d) = ground (arith, map_values-insert k v d)

  pub map_values-erase : (k : ℕ) (d : Dict A) → map_values (erase k d) ≡ erase k (map_values d)
  map_values-erase k [] = refl
  map_values-erase k ((j, w) ∷ d) = ground (arith, map_values-erase k d)

  pub keys-map_values : (d : Dict A) → keys (map_values d) ≡ keys d
  keys-map_values [] = refl
  keys-map_values ((j, w) ∷ d) = ap (◌∷◌ j) (keys-map_values d)

  pub is_empty-map_values : (d : Dict A) → is_empty (map_values d) ≡ is_empty d
  is_empty-map_values [] = refl
  is_empty-map_values ((j, w) ∷ d) = refl

  pub map-append : (xs ys : List A) → map f (xs ++ ys) ≡ map f xs ++ map f ys
  map-append [] ys = refl
  map-append (x ∷ xs) ys = ap (◌∷◌ (f x)) (map-append xs ys)
