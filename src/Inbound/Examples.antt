-- ===== src/Inbound/Examples.antt =====
-- Tests and witnesses of the inbound buffer, with room for two messages of an agent.
use Prim.Native.String.{String}
use the_dudes_daemon.Base.{
  ℕ, ◌+◌, filter, leb, ◌≡◌, ◌≢◌, refl, true, none, some, List, [], ◌∷◌, arith, comparable_string,
}
use the_dudes_daemon.Inbound.{
  BufferedInbound, Buffer, create, get, gc, push, drain, peek, size_of, size, splice, remove, clear,
  Event, pushes, step, run, load_delivery_seen,
}
use the_dudes_daemon.Inbound.Invariant.{IsOrderly, run-create-IsOrderly}
use the_dudes_daemon.Inbound.Delivery.{Pushed, get-push}

opened : Unit {0}
unfolding create gc push drain peek size_of size splice remove clear step run load_delivery_seen
opened = tt

abbrev message : String → ℕ → BufferedInbound
message id at = record { delivery_id = some id; content = "text"; images = none; enqueued_at = at }

abbrev events : List (ℕ × Event)
events =
    (10, pushes "ana" (message "m1" 10))
    ∷ (11, pushes "ana" (message "m1" 11))
    ∷ (12, pushes "bob" (message "m2" 0))
    ∷ (13, pushes "ana" (message "m3" 13))
    ∷ []

abbrev filled : Buffer
filled = run (create 2 100) events

buffer_tests :
    (get "ana" filled ≡ message "m1" 10 ∷ message "m3" 13 ∷ [])
    × (get "bob" filled ≡ message "m2" 12 ∷ [])
    × ((push "ana" (message "m4" 20) 20 filled).1 ≡ 1)
    × ((drain "ana" 111 filled).1 ≡ message "m3" 13 ∷ [])
    × ((remove "ana" "m3" filled).1 ≡ true)
    × (size filled ≡ 3)
unfolding opened
buffer_tests = (refl, refl, refl, refl, refl, refl)

seen_file_tests :
    (load_delivery_seen
        (some (record { saved_at = 5; ids = some (some "x" ∷ none ∷ some "" ∷ []) }))
        900005
      ≡ "x" ∷ [])
    × (load_delivery_seen (some (record { saved_at = 5; ids = some (some "x" ∷ []) })) 900006 ≡ [])
unfolding opened
seen_file_tests = (refl, refl)

run-create-IsOrderly_example : IsOrderly 2 (get "ana" filled)
run-create-IsOrderly_example = run-create-IsOrderly 2 100 events "ana"

get-push_example :
    Pushed filled.max_per_agent
      (message "m4" 20)
      20
      (filter (λ (x : BufferedInbound). leb 20 (x.enqueued_at + filled.ttl_ms)) (get "ana" filled))
      (
        get "ana" (push "ana" (message "m4" 20) 20 filled).0,
        (push "ana" (message "m4" 20) 20 filled).1,
      )
get-push_example = get-push "ana" (message "m4" 20) 20 filled

ana_not_bob : ◌≢◌ {A = String} "ana" "bob"
ana_not_bob = ground (arith, comparable_string.agree_iff "ana" "bob")
