-- ===== src/Base/Recent.antt =====
-- What stands near the end of a list that keeps its newest items.
use Prim.Native.Nat.{ℕ, suc, ◌≤◌, ◌<◌}
use mathlib.Core.Path.{◌≡◌}
use mathlib.Core.Logic.{inl, inr}
use mathlib.Core.Bool.{true}
use mathlib.Core.List.{List, [], ◌∷◌, ◌++◌}
use native.Mathlib.Omega.{arith}
use the_dudes_daemon.Base.Tests.{Comparable, Bool-cases, ltb}
use the_dudes_daemon.Base.Lists.{length, keep_last, keep_last_more, keep_last_all}
use the_dudes_daemon.Base.Maps.{contains, contains-append}

module _ {ℓ} {K : Type ℓ} ⦃e : Comparable K⦄ where
  -- The id stands in the list, and fewer than `n` come after it.
  abbrev pub IsRecent : ℕ → K → List K → Type ℓ
  IsRecent n id xs = (older newer : List K) × (xs ≡ older ++ id ∷ newer) × (length newer < n)

  pub IsRecent-contains : (n : ℕ) (id : K) (xs : List K) → IsRecent n id xs → contains id xs ≡ true
  IsRecent-contains n id xs (older, newer, shown, h) =
      rw (shown, contains-append id older (id ∷ newer)) (ground (arith, e.agree_iff id id))

  pub keep_last-IsRecent :
      (n most : ℕ) (id : K) (older newer : List K)
      → length newer < n
      → n ≤ most
      → IsRecent n id (keep_last most (older ++ id ∷ newer))
  keep_last-IsRecent n most id [] newer h k =
      ([], newer, keep_last_all most (id ∷ newer) (omega arith), h)
  keep_last-IsRecent n most id (x ∷ older) newer h k =
      elim (Bool-cases (ltb most (suc (length (older ++ id ∷ newer))))) [
        | inl more ↦
            rw (keep_last_more most x (older ++ id ∷ newer) (ground arith))
              (keep_last-IsRecent n most id older newer h k)
        | inr all ↦
            (x ∷ older, newer, keep_last_all most (x ∷ older ++ id ∷ newer) (ground arith), h)
      ]
