-- ===== src/Host/Pause/Order.antt =====
-- A pause keeps the order of the messages.
use Prim.Native.String.{String}
use the_dudes_daemon.Base.{
  ℕ, suc, ◌≡◌, refl, ap, ◌∙◌, ◌≤◌, ◌+◌, some, List, [], ◌∷◌, ◌++◌, arith, map, length,
  length-append, length-map, All, All-append, comparable_string,
}
use mathlib.Core.List.{append_assoc, append-nil, map-append}
use the_dudes_daemon.Retained.{cap_por_agente}
use the_dudes_daemon.Host.{Message, SpoolItem, RunnerApi, Host, held, runner_of, push_all}
use the_dudes_daemon.Host.Hold.{held_now}
use the_dudes_daemon.Host.Send.{send_message}
use the_dudes_daemon.Host.Pause.{pause, resume}
use the_dudes_daemon.Host.Pause.Waits.{
  OfOwner, message_of, Waits, Runs, pause-Waits, send-Waits, resume-Waits,
}

module _ {R : Type 0} (api : RunnerApi R) where
  -- The messages that are sent to the agent, each at its time.
  pub send_each : (String → String) → ℕ → String → List (ℕ × Message) → Host R → Host R
  send_each digest ttl agent [] h = h
  send_each digest ttl agent ((now, m) ∷ sends) h =
      send_each digest ttl agent sends (send_message api digest ttl now agent m h)

  abbrev timed : List (ℕ × Message) → List SpoolItem
  timed sends = map (λ (t : ℕ × Message). held_now t.0 t.1) sends

  send_each-Waits :
      (digest : String → String) (ttl : ℕ) (agent : String) (sends : List (ℕ × Message)) (r : R)
      (items : List SpoolItem) (h : Host R)
      → Waits agent r items h
      → length items + length sends ≤ cap_por_agente
      → Waits agent r (items ++ timed sends) (send_each digest ttl agent sends h)
  unfolding send_each
  send_each-Waits digest ttl agent [] r items h w le = rw (append-nil items) w
  send_each-Waits digest ttl agent ((now, m) ∷ sends) r items h w le =
      let item = held_now now m in
      let w' = send-Waits api digest ttl now agent m r items h w (omega arith) in
      let more : length (items ++ item ∷ []) ≡ suc (length items) =
        omega (arith, length-append items (item ∷ [])) in
      rw (append_assoc items (item ∷ []) (timed sends)) at
        (send_each-Waits digest ttl agent sends r (items ++ item ∷ []) _ w' (omega arith))

  timed_messages :
      (sends : List (ℕ × Message))
      → map message_of (timed sends) ≡ map (λ (t : ℕ × Message). t.1) sends
  timed_messages [] = refl
  timed_messages (t ∷ sends) = ap (λ l. t.1 ∷ l) (timed_messages sends)

  held_messages : (now : ℕ) (ms : List Message) → map message_of (map (held_now now) ms) ≡ ms
  held_messages now [] = refl
  held_messages now (m ∷ ms) = ap (λ l. m ∷ l) (held_messages now ms)

  All-held :
      (now : ℕ) (ms : List Message)
      → All OfOwner ms
      → All (λ (i : SpoolItem). OfOwner i.message) (map (held_now now) ms)
  All-held now [] o = tt
  All-held now (m ∷ ms) (o, os) = (o, All-held now ms os)

  All-timed :
      (sends : List (ℕ × Message))
      → All (λ (t : ℕ × Message). OfOwner t.1) sends
      → All (λ (i : SpoolItem). OfOwner i.message) (timed sends)
  All-timed [] o = tt
  All-timed (t ∷ sends) (o, os) = (o, All-timed sends os)

  -- An agent runs, nothing waits for it, and its runner's queue and the messages sent while it is
  -- paused, none of them a member's, are together no more than the cap. Then the resume hands the
  -- runner its queue and after it these messages, all of them once and in their order, and the queue
  -- of the pause is empty.
  pub pause-send-resume :
      (digest : String → String) (ttl now : ℕ) (agent : String) (sends : List (ℕ × Message)) (r : R)
      (h : Host R)
      → Runs agent r h
      → let (r', taken) = api.take_queued_for_drain r in
        length taken + length sends ≤ cap_por_agente
        → All OfOwner taken
        → All (λ (t : ℕ × Message). OfOwner t.1) sends
        → let h' = resume api agent (send_each digest ttl agent sends (pause api now agent h)) in
          (runner_of agent h'
            ≡ some (push_all api (taken ++ map (λ (t : ℕ × Message). t.1) sends) r'))
          × (held agent h'.pause_held ≡ [])
  pause-send-resume digest ttl now agent sends r h u le o os =
      let (r', taken) = api.take_queued_for_drain r in
      let items = map (held_now now) taken in
      let few : length items ≡ length taken = length-map (held_now now) taken in
      let w = pause-Waits api now agent r h u (omega arith) in
      let w' = send_each-Waits digest ttl agent sends r' items _ w (omega arith) in
      let all =
        All-append (λ (i : SpoolItem). OfOwner i.message) items (timed sends) (All-held now taken o)
          (All-timed sends os) in
      let (ran, left) = resume-Waits api agent r' (items ++ timed sends) _ w' all in
      let same : map message_of (items ++ timed sends)
          ≡ taken ++ map (λ (t : ℕ × Message). t.1) sends =
        map-append message_of items (timed sends)
        ∙ ap (λ l. l ++ map message_of (timed sends)) (held_messages now taken)
        ∙ ap (λ l. taken ++ l) (timed_messages sends) in
      (ran ∙ ap (λ l. some (push_all api l r')) same, left)
