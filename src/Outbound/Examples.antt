-- ===== src/Outbound/Examples.antt =====
-- Tests and witnesses of outbound delivery: a queue with two places.
use Prim.Native.String.{String}
use the_dudes_daemon.Base.{
  ℕ, zero, suc, ◌≡◌, ◌⊎◌, refl, true, false, some, [], ◌∷◌, ◌++◌, arith, length,
}
use the_dudes_daemon.Outbound.{
  Item, Queue, sent, thrown, Reply, refuses, accepts, is_critical_outbound,
  is_high_priority_outbound, channel_can_send, evict_one, evict_rounds, create, enqueue_critical,
  try_send_outbound, flush_outbound_queue,
}
use the_dudes_daemon.Outbound.Eviction.{semantic, try_send_outbound-semantic}
use the_dudes_daemon.Outbound.Flush.{Stops, flush_outbound_queue-Stops}

opened : Unit {0}
unfolding is_critical_outbound is_high_priority_outbound channel_can_send evict_one evict_rounds
    create enqueue_critical try_send_outbound flush_outbound_queue
opened = tt

abbrev frame : String → Item
frame type = record { type = type; json = "{}" }

abbrev full : Queue
full = record { items = frame "agent:text" ∷ frame "agent:thinking" ∷ []; max = 2 }

queue_tests :
    ((enqueue_critical (frame "agent:exit") full).items
      ≡ frame "agent:text" ∷ frame "agent:exit" ∷ [])
    × ((enqueue_critical (frame "agent:usage") full).items ≡ full.items)
    × (channel_can_send
          (some (record { ready_state = 1; open_state = 1; buffered_amount = 4194305 }))
        ≡ false)
    × (channel_can_send
          (some (record { ready_state = 1; open_state = 1; buffered_amount = 4194304 }))
        ≡ true)
unfolding opened
queue_tests = (refl, refl, refl, refl)

try_send_outbound-semantic_example :
    let (q', done) = try_send_outbound (frame "agent:exit") true thrown full in
    ((done ≡ true) × (thrown ≡ sent) × (q' ≡ full))
    ⊎ ((done ≡ false) × (semantic q'.items ≡ semantic (full.items ++ frame "agent:exit" ∷ [])))
unfolding opened
try_send_outbound-semantic_example =
    try_send_outbound-semantic (frame "agent:exit") true thrown full (omega arith)

-- The channel takes one frame and closes.
abbrev once : ℕ → Reply
once zero = accepts
once (suc n) = refuses

flush_outbound_queue-Stops_example :
    let f = flush_outbound_queue once full in
    (f.given ++ f.queue.items ≡ full.items)
    × Stops once 0 f.given f.queue.items
    × (f.count ≡ length f.given)
    × (f.queue.max ≡ 2)
flush_outbound_queue-Stops_example = flush_outbound_queue-Stops once full
