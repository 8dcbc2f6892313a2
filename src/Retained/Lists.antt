-- ===== src/Retained/Lists.antt =====
-- Keys of items: lists of texts without repetition.
use Prim.Native.String.{String}
use the_dudes_daemon.Base.{
  ℕ, zero, suc, ◌≡◌, refl, false, List, [], ◌∷◌, ◌++◌, map, arith, contains, contains-append,
  remove, drop, comparable_string,
}

abbrev pub Distinct : List String → Type 0
Distinct [] = Unit {0}
Distinct (x ∷ xs) = (contains x xs ≡ false) × Distinct xs

remove_fresh : (k : String) (xs : List String) → contains k xs ≡ false → remove k xs ≡ xs
remove_fresh k [] h = refl
remove_fresh k (x ∷ xs) h = ground (arith, remove_fresh k xs)

pub remove_head : (k : String) (xs : List String) → contains k xs ≡ false → remove k (k ∷ xs) ≡ xs
remove_head k xs h = ground (arith, remove_fresh k xs h, comparable_string.agree_iff k k)

pub Distinct-concat :
    (xs : List String) (k : String) → Distinct xs → contains k xs ≡ false → Distinct (xs ++ k ∷ [])
Distinct-concat [] k d h = (refl, tt)
Distinct-concat (x ∷ xs) k d h = ground (
  arith,
  Distinct-concat xs k d.1,
  contains-append x xs (k ∷ []),
  comparable_string.agree_iff k x,
  comparable_string.agree_iff x k,
)

pub Distinct-drop : (n : ℕ) (xs : List String) → Distinct xs → Distinct (drop n xs)
Distinct-drop zero xs d = d
Distinct-drop (suc n) [] d = tt
Distinct-drop (suc n) (x ∷ xs) d = Distinct-drop n xs d.1

pub map-concat {ℓ} :
    {A : Type ℓ} (f : A → String) (xs : List A) (a : A)
    → map f (xs ++ a ∷ []) ≡ map f xs ++ f a ∷ []
map-concat f [] a = refl
map-concat f (x ∷ xs) a = rw (map-concat f xs a)

pub map-drop {ℓ} :
    {A : Type ℓ} (f : A → String) (n : ℕ) (xs : List A) → map f (drop n xs) ≡ drop n (map f xs)
map-drop f zero xs = refl
map-drop f (suc n) [] = refl
map-drop f (suc n) (x ∷ xs) = map-drop f n xs
