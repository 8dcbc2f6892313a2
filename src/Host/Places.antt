-- ===== src/Host/Places.antt =====
-- Where an agent's messages stand: what a change of one place does to the others.
use Prim.Native.String.{String}
use the_dudes_daemon.Base.{
  ◌≡◌, refl, true, false, Option, none, some, List, [], ◌∷◌, arith, lookup, insert, delete,
  lookup-insert, lookup-delete, comparable_string, ◌==◌, if◌then◌else◌, contains, add, remove,
  contains-add,
}
use text.Mathlib.TextEquality.{eq_iff}
use the_dudes_daemon.Host.{Entry, Host, held, put_in, put_runner}

pub eq_self : (k : String) → (k == k) ≡ true
eq_self k = (eq_iff k k).1 refl

module _ {ℓ} {V : Type ℓ} where
  pub lookup-insert_self :
      (k : String) (v : V) (m : List (String × V)) → lookup k (insert k v m) ≡ some v
  lookup-insert_self k v m = rw (lookup-insert k k v m, eq_self k)

  pub lookup-delete_self : (k : String) (m : List (String × V)) → lookup k (delete k m) ≡ none
  lookup-delete_self k m = rw (lookup-delete k k m, eq_self k)

module _ {ℓ} {A : Type ℓ} where
  pub held-insert :
      (k j : String) (xs : List A) (m : List (String × List A))
      → held j (insert k xs m) ≡ (if k == j then xs else held j m)
  held-insert k j xs m = ground (arith, lookup-insert k j xs m)

  pub held-insert_self :
      (k : String) (xs : List A) (m : List (String × List A)) → held k (insert k xs m) ≡ xs
  held-insert_self k xs m = rw (lookup-insert_self k xs m)

  pub held-delete_self : (k : String) (m : List (String × List A)) → held k (delete k m) ≡ []
  held-delete_self k m = rw (lookup-delete_self k m)

pub contains-add_self : (k : String) (xs : List String) → contains k (add k xs) ≡ true
contains-add_self k xs = rw (contains-add k k xs, eq_self k)

pub contains-remove_self : (k : String) (xs : List String) → contains k (remove k xs) ≡ false
contains-remove_self k [] = refl
contains-remove_self k (x ∷ xs) = ground (arith, contains-remove_self k xs)

module _ {R : Type 0} where
  pub put_runner-lookup :
      (agent : String) (r : R) (h : Host R) (e : Entry R)
      → lookup agent h.entries ≡ some e
      → lookup agent (put_runner agent r h).entries ≡ some (record e { runner = some r })
  put_runner-lookup agent r h e p = rw (p, lookup-insert_self agent _ h.entries)

  put_in-spooled :
      (agent : String) (r : R) (h : Host R) (o : Option (Entry R))
      → (put_in agent r h o).spooled ≡ h.spooled
  put_in-spooled agent r h none = refl
  put_in-spooled agent r h (some e) = refl

  pub put_runner-spooled :
      (agent : String) (r : R) (h : Host R) → (put_runner agent r h).spooled ≡ h.spooled
  put_runner-spooled agent r h = put_in-spooled agent r h (lookup agent h.entries)
