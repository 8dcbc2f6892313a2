-- ===== src/Dedup/Examples.antt =====
-- Tests and witnesses of the deduper, with room for two ids.
use the_dudes_daemon.Base.{keep_last, ◌≡◌, refl, true, false, none, some, [], ◌∷◌, arith}
use the_dudes_daemon.Dedup.{
  Deduper, create, is_seen, trim, mark_new, mark_seen, accept, accept_all, snapshot,
}
use the_dudes_daemon.Dedup.Invariant.{IsValid, accept_all-IsValid, create-IsValid}
use the_dudes_daemon.Dedup.Window.{accept-accept_all}
use the_dudes_daemon.Dedup.Refine.{answers, promised_answers, answers-create}

opened : Unit {0}
unfolding create is_seen trim mark_new mark_seen accept accept_all
opened = tt

abbrev two_ids : Deduper
two_ids = accept_all (some "a" ∷ none ∷ some "b" ∷ some "a" ∷ []) (create 2)

two_ids-IsValid : IsValid two_ids
two_ids-IsValid = accept_all-IsValid _ (create 2) (create-IsValid 2)

accept_tests :
    (two_ids.order ≡ "a" ∷ "b" ∷ [])
    × ((accept (some "a") two_ids).1 ≡ false)
    × ((accept (some "c") two_ids).1 ≡ true)
    × ((accept (some "c") two_ids).0.order ≡ "b" ∷ "c" ∷ [])
    × ((accept (some "") two_ids).1 ≡ true)
unfolding opened
accept_tests = (refl, refl, refl, refl, refl)

accept-accept_all_example :
    (accept (some "c") (accept_all (some "d" ∷ []) (accept (some "c") two_ids).0)).1 ≡ false
unfolding opened
accept-accept_all_example =
    accept-accept_all two_ids "c" (some "d" ∷ []) two_ids-IsValid refl refl (omega arith)

answers-create_example :
    (answers (some "a" ∷ some "b" ∷ some "c" ∷ some "a" ∷ []) (create 2)
      ≡ (promised_answers 2 (some "a" ∷ some "b" ∷ some "c" ∷ some "a" ∷ []) []).1)
    × (snapshot (accept_all (some "a" ∷ some "b" ∷ some "c" ∷ some "a" ∷ []) (create 2))
        ≡ keep_last 2 (promised_answers 2 (some "a" ∷ some "b" ∷ some "c" ∷ some "a" ∷ []) []).0)
answers-create_example = answers-create 2 (some "a" ∷ some "b" ∷ some "c" ∷ some "a" ∷ [])
