-- ===== src/Session/Examples.antt =====
-- Tests and witnesses of the message session: a queue with one place.
use Prim.Native.String.{String, len}
use the_dudes_daemon.Base.{◌≡◌, refl, false, none, some, List, [], ◌∷◌, arith, comparable_string}
use the_dudes_daemon.Principal.{unprovenanced, same_turn_principal}
use the_dudes_daemon.Session.{
  QueuedMessage, Session, EnqueueOutcome, coalesced, dropped, create, resume, reset, bump_epoch,
  enqueue, merge, search_back, enqueue_or_coalesce, take_all_for_drain, splice,
  remove_by_delivery_id, owns, consume_first_turn_if_needed, restore_first_turn,
}
use the_dudes_daemon.Session.Coalesce.{Explains, enqueue_or_coalesce-Explains}
use the_dudes_daemon.Session.Epochs.{Call, coalesces, dequeues, resumes, run, not-owns}

opened : Unit {0}
unfolding create resume reset bump_epoch enqueue search_back enqueue_or_coalesce take_all_for_drain
    splice remove_by_delivery_id owns consume_first_turn_if_needed restore_first_turn merge
    same_turn_principal
opened = tt

abbrev message : String → QueuedMessage
message id = record {
  content = id;
  images = none;
  synthetic = none;
  delivery_id = some id;
  principal = some unprovenanced;
  coalesced_ids = none;
}

abbrev full : Session
full = (enqueue_or_coalesce len (message "m1") 1 1000 create).0

abbrev grouped : Session × EnqueueOutcome
grouped = enqueue_or_coalesce len (message "m2") 1 1000 full

coalesce_tests :
    (grouped.1 ≡ coalesced)
    × (grouped.0.queue ≡ merge (message "m1") (message "m2") ∷ [])
    × ((enqueue_or_coalesce len (message "m2") 1 10 full).1 ≡ dropped)
    × ((remove_by_delivery_id "m2" grouped.0).1 ≡ some (merge (message "m1") (message "m2")))
    × ((take_all_for_drain full).1 ≡ message "m1" ∷ [])
unfolding opened
coalesce_tests = (refl, refl, refl, refl, refl)

enqueue_or_coalesce-Explains_example : Explains len (message "m2") 1000 1 full grouped.0 grouped.1
enqueue_or_coalesce-Explains_example = enqueue_or_coalesce-Explains len (message "m2") 1000 1 full

abbrev calls : List Call
calls = resumes "s2" false false ∷ coalesces (message "m3") 1 1000 ∷ dequeues ∷ []

not-owns_example :
    (owns 0 none (run len (reset none full) calls) ≡ false)
    × (owns 0 none (run len (bump_epoch full) calls) ≡ false)
unfolding opened
not-owns_example = not-owns len full calls 0 none none (omega arith)
