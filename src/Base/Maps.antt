-- ===== src/Base/Maps.antt =====
-- JavaScript's Map and Set, which keep the order of insertion, as lists without repeated keys.
use mathlib.Core.Path.{◌≡◌, refl}
use mathlib.Core.Bool.{Bool, false, ◌||◌}
use mathlib.Core.Option.{Option, none, some}
use mathlib.Core.List.{List, [], ◌∷◌, ◌++◌}
use native.Mathlib.Omega.{arith}
use the_dudes_daemon.Base.Tests.{Comparable, ◌==◌, if◌then◌else◌}

module _ {ℓ} {K : Type ℓ} ⦃e : Comparable K⦄ where
  -- `set.has(k)`
  abbrev pub contains : K → List K → Bool
  contains k [] = false
  contains k (x ∷ xs) = x == k || contains k xs

  -- `set.delete(k)`
  abbrev pub remove : K → List K → List K
  remove k [] = []
  remove k (x ∷ xs) = if x == k then remove k xs else x ∷ remove k xs

  -- `set.add(k)`
  abbrev pub add : K → List K → List K
  add k xs = if contains k xs then xs else xs ++ k ∷ []

  pub contains-append :
      (k : K) (xs ys : List K) → contains k (xs ++ ys) ≡ (contains k xs || contains k ys)
  contains-append k [] ys = refl
  contains-append k (x ∷ xs) ys = ground (arith, contains-append k xs ys)

  pub contains-add : (j k : K) (xs : List K) → contains j (add k xs) ≡ (k == j || contains j xs)
  contains-add j k xs =
      ground (arith, contains-append j xs (k ∷ []), e.agree_iff k j, contains-self j k xs)
    where
      contains-self : (j k : K) (xs : List K) → k ≡ j → contains j xs ≡ contains k xs
      contains-self j k xs h = ground arith

module _ {ℓ κ} {K : Type ℓ} {V : Type κ} ⦃e : Comparable K⦄ where
  -- `map.get(k)`
  abbrev pub lookup : K → List (K × V) → Option V
  lookup k [] = none
  lookup k ((j, v) ∷ m) = if j == k then some v else lookup k m

  -- `map.set(k, v)`
  abbrev pub insert : K → V → List (K × V) → List (K × V)
  insert k v [] = (k, v) ∷ []
  insert k v ((j, w) ∷ m) = if j == k then (k, v) ∷ m else (j, w) ∷ insert k v m

  -- `map.delete(k)`
  abbrev pub delete : K → List (K × V) → List (K × V)
  delete k [] = []
  delete k ((j, v) ∷ m) = if j == k then delete k m else (j, v) ∷ delete k m

  pub lookup-insert :
      (k j : K) (v : V) (m : List (K × V))
      → lookup j (insert k v m) ≡ (if k == j then some v else lookup j m)
  lookup-insert k j v [] = refl
  lookup-insert k j v ((i, w) ∷ m) =
      ground (arith, e.agree_iff k j, e.agree_iff i k, e.agree_iff i j, lookup-insert k j v m)

  pub lookup-delete :
      (k j : K) (m : List (K × V)) → lookup j (delete k m) ≡ (if k == j then none else lookup j m)
  lookup-delete k j [] = ground arith
  lookup-delete k j ((i, w) ∷ m) =
      ground (arith, e.agree_iff k j, e.agree_iff i k, e.agree_iff i j, lookup-delete k j m)
