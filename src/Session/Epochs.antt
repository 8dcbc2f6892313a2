-- ===== src/Session/Epochs.antt =====
-- A turn that was reset away never owns the session again.
use Prim.Native.String.{String}
use the_dudes_daemon.Base.{ℕ, ◌≤◌, ◌≡◌, Bool, false, Option, List, [], ◌∷◌, arith}
use the_dudes_daemon.Session.{
  QueuedMessage, Session, FirstTurnSnapshot, resume, reset, reset_for_retry, bump_epoch, enqueue,
  enqueue_or_coalesce, prepend, dequeue, take_all_for_drain, remove_by_delivery_id, clear_queue,
  owns, consume_first_turn, consume_first_turn_if_needed, restore_first_turn,
}

pub data Call : Type 0 where
  resumes : String → Bool → Bool → Call
  resets retries : Option String → Call
  bumps dequeues drains clears consumes takes : Call
  enqueues : QueuedMessage → ℕ → Call
  coalesces : QueuedMessage → ℕ → ℕ → Call
  prepends : QueuedMessage → Call
  removes : String → Call
  restores : FirstTurnSnapshot → Call

module _ (byte_length : String → ℕ) where
  pub step : Session → Call → Session
  step s (resumes id prime has_prompt) = resume id prime has_prompt s
  step s (resets summary) = reset summary s
  step s (retries summary) = reset_for_retry summary s
  step s bumps = bump_epoch s
  step s dequeues = (dequeue s).0
  step s drains = (take_all_for_drain s).0
  step s clears = (clear_queue s).0
  step s consumes = (consume_first_turn_if_needed s).0
  step s takes = (consume_first_turn s).0
  step s (enqueues m size) = (enqueue m size s).0
  step s (coalesces m size bytes) = (enqueue_or_coalesce byte_length m size bytes s).0
  step s (prepends m) = prepend m s
  step s (removes id) = (remove_by_delivery_id id s).0
  step s (restores snapshot) = restore_first_turn snapshot s

  pub run : Session → List Call → Session
  run s [] = s
  run s (c ∷ cs) = run (step s c) cs

  epoch-step : (s : Session) (c : Call) → s.epoch ≤ (step s c).epoch
  unfolding step resume reset reset_for_retry bump_epoch dequeue take_all_for_drain clear_queue
      consume_first_turn_if_needed consume_first_turn enqueue_or_coalesce enqueue prepend
      remove_by_delivery_id restore_first_turn
  epoch-step s (resumes id prime has_prompt) = omega arith
  epoch-step s (enqueues m size) = ground arith
  epoch-step s (coalesces m size bytes) = ground arith
  epoch-step s (removes id) = ground arith
  epoch-step s (restores snapshot) = ground arith
  epoch-step s c = ground arith

  epoch-run : (s : Session) (cs : List Call) → s.epoch ≤ (run s cs).epoch
  unfolding run
  epoch-run s [] = omega arith
  epoch-run s (c ∷ cs) = omega (arith, epoch-step s c, epoch-run (step s c) cs)

  -- A close that arrives late cannot touch a newer turn: once the session has been reset, or its
  -- epoch bumped, a turn that started before (at an epoch up to the one then current) is not its
  -- owner, with or without a session id, whatever calls come after.
  pub not-owns :
      (s : Session) (cs : List Call) (started : ℕ) (id summary : Option String)
      → started ≤ s.epoch
      → (owns started id (run (reset summary s) cs) ≡ false)
        × (owns started id (run (bump_epoch s) cs) ≡ false)
  unfolding owns reset bump_epoch
  not-owns s cs started id summary h =
      let a = epoch-run (reset summary s) cs in
      let b = epoch-run (bump_epoch s) cs in (ground arith, ground arith)
