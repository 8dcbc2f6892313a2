-- ===== src/Host/Pause/Waits.antt =====
-- What waits for an agent through a pause, from its start to the resume.
use Prim.Native.String.{String}
use the_dudes_daemon.Base.{
  ℕ, suc, ◌≡◌, refl, ap, ◌∙◌, ◌≤◌, ◌<◌, ◌+◌, Bool, true, false, Option, some, List, [], ◌∷◌, ◌++◌,
  arith, map, length, length-append, length-map, ltb, All, lookup, contains, add, remove, delete,
  insert, keep_last_all, if◌then◌else◌, comparable_string,
}
use mathlib.Core.List.{append-nil}
use the_dudes_daemon.Principal.{is_non_owner_turn}
use the_dudes_daemon.Retained.{cap_por_agente}
use the_dudes_daemon.Host.{
  Message, SpoolItem, RunnerApi, Entry, Host, held, has, runner_of, put_runner, push_all,
  agendar_fila_viva, runner_in,
}
use the_dudes_daemon.Host.Places.{
  held-insert_self, held-delete_self, contains-add_self, contains-remove_self, lookup-insert_self,
}
use the_dudes_daemon.Host.Hold.{held_now, segurar_na_pausa, hold_all}
use the_dudes_daemon.Host.Send.{send_message, send_message_inner}
use the_dudes_daemon.Host.Pause.{
  Release, pause, resume, release_one, release_all, released, liberar_pausa,
  tirar_do_runner_para_pausa, tirar_de, liberar_de, apt,
}

-- Not one of the messages is a member's.
abbrev pub OfOwner : Message → Type 0
OfOwner m = is_non_owner_turn m.principal ≡ false

abbrev pub message_of : SpoolItem → Message
message_of i = i.message

-- The agent is paused and can run, and these items wait.
pub record Waits {R : Type 0} (agent : String) (r : R) (items : List SpoolItem) (h : Host R)
    : Type 0 where
  pub entry : Entry R
  pub found : lookup agent h.entries ≡ some entry
  pub running : entry.runner ≡ some r
  pub started : entry.parado ≡ false
  pub no_spool : has agent h.spooled ≡ false
  pub no_drain : h.draining ≡ false
  pub paused : contains agent h.pausados ≡ true
  pub waiting : held agent h.pause_held ≡ items

-- The agent is not paused, can run, and nothing waits for it.
pub record Runs {R : Type 0} (agent : String) (r : R) (h : Host R) : Type 0 where
  pub entry : Entry R
  pub found : lookup agent h.entries ≡ some entry
  pub running : entry.runner ≡ some r
  pub started : entry.parado ≡ false
  pub no_spool : has agent h.spooled ≡ false
  pub no_drain : h.draining ≡ false
  pub unpaused : contains agent h.pausados ≡ false
  pub empty : held agent h.pause_held ≡ []

module _ {R : Type 0} (api : RunnerApi R) where
  release_one_lem :
      (agent : String) (i : SpoolItem) (l : Release R)
      → OfOwner i.message
      → release_one api agent i l
        ≡ record l { runner = (api.push i.message false l.runner).0; entregues = suc l.entregues }
  release_one_lem agent i l o = rw o refl

  release_all_lem :
      (agent : String) (items : List SpoolItem) (l : Release R)
      → All (λ (i : SpoolItem). OfOwner i.message) items
      → (release_all api agent items l).runner ≡ push_all api (map message_of items) l.runner
  unfolding release_all push_all
  release_all_lem agent [] l h = refl
  release_all_lem agent (i ∷ items) l (o, h) =
      let next : Release R = record l {
        runner = (api.push i.message false l.runner).0;
        entregues = suc l.entregues;
      } in
      ap (λ (k : Release R). (release_all api agent items k).runner) (release_one_lem agent i l o)
      ∙ release_all_lem agent items next h

  queue-Waits :
      (agent : String) (r : R) (items new : List SpoolItem) (h : Host R)
      → Waits agent r items h
      → Waits agent r new (record h { pause_held = insert agent new h.pause_held })
  queue-Waits agent r items new h w = record {
    entry = w.entry;
    found = w.found;
    running = w.running;
    started = w.started;
    no_spool = w.no_spool;
    no_drain = w.no_drain;
    paused = w.paused;
    waiting = held-insert_self agent new h.pause_held;
  }

  segurar-Waits :
      (agent : String) (r : R) (items new : List SpoolItem) (front : Bool) (h : Host R)
      → Waits agent r items h
      → length new + length items ≤ cap_por_agente
      → Waits agent r
          (if front then new ++ items else items ++ new)
          (segurar_na_pausa agent new front h)
  unfolding segurar_na_pausa
  segurar-Waits agent r items [] true h w le = w
  segurar-Waits agent r items [] false h w le = rw (append-nil items) w
  segurar-Waits agent r items (i ∷ is) true h w le =
      let short : length ((i ∷ is) ++ items) ≤ cap_por_agente =
        omega (arith, length-append (i ∷ is) items) in
      let few : ltb cap_por_agente (length ((i ∷ is) ++ items)) ≡ false = ground arith in
      rw (w.waiting, few, keep_last_all cap_por_agente ((i ∷ is) ++ items) short)
        (queue-Waits agent r items ((i ∷ is) ++ items) h w)
  segurar-Waits agent r items (i ∷ is) false h w le =
      let short : length (items ++ i ∷ is) ≤ cap_por_agente =
        omega (arith, length-append items (i ∷ is)) in
      let few : ltb cap_por_agente (length (items ++ i ∷ is)) ≡ false = ground arith in
      rw (w.waiting, few, keep_last_all cap_por_agente (items ++ i ∷ is) short)
        (queue-Waits agent r items (items ++ i ∷ is) h w)

  -- The runner hands its queue over, and the pause begins.
  begun : ℕ → String → R → Host R → Host R
  begun now agent r' h = put_runner agent r' (record h { pausados = add agent h.pausados })

  begun-Waits :
      (now : ℕ) (agent : String) (r r' : R) (h : Host R)
      → Runs agent r h
      → Waits agent r' [] (begun now agent r' h)
  unfolding begun
  begun-Waits now agent r r' h u = rw u.found (record {
    entry = record u.entry { runner = some r' };
    found = lookup-insert_self agent _ h.entries;
    running = refl;
    started = u.started;
    no_spool = u.no_spool;
    no_drain = u.no_drain;
    paused = contains-add_self agent h.pausados;
    waiting = u.empty;
  })

  alarm-Waits :
      (agent : String) (r : R) (items : List SpoolItem) (h : Host R)
      → Waits agent r items h
      → Waits agent r items (agendar_fila_viva agent h)
  alarm-Waits agent r items h w = record {
    entry = w.entry;
    found = w.found;
    running = w.running;
    started = w.started;
    no_spool = w.no_spool;
    no_drain = w.no_drain;
    paused = w.paused;
    waiting = w.waiting;
  }

  paused_lem :
      (now : ℕ) (agent : String) (r : R) (h : Host R)
      → Runs agent r h
      → pause api now agent h
        ≡ agendar_fila_viva agent (
            segurar_na_pausa agent
              (map (held_now now) (api.take_queued_for_drain r).1)
              true
              (begun now agent (api.take_queued_for_drain r).0 h))
  unfolding pause tirar_do_runner_para_pausa begun
  paused_lem now agent r h u =
      let h' : Host R = record h { pausados = add agent h.pausados } in
      ap
        (λ (b : Bool).
          if b then h else agendar_fila_viva agent (tirar_do_runner_para_pausa api now agent h'))
        u.unpaused
      ∙ ap (λ (o : Option R). agendar_fila_viva agent (tirar_de api now agent o h'))
          (ap runner_in u.found ∙ u.running)

  pub pause-Waits :
      (now : ℕ) (agent : String) (r : R) (h : Host R)
      → Runs agent r h
      → length (api.take_queued_for_drain r).1 ≤ cap_por_agente
      → Waits agent
          (api.take_queued_for_drain r).0
          (map (held_now now) (api.take_queued_for_drain r).1)
          (pause api now agent h)
  pause-Waits now agent r h u le =
      let (r', taken) = api.take_queued_for_drain r in
      let items = map (held_now now) taken in
      let w =
        segurar-Waits agent r' [] items true (begun now agent r' h) (begun-Waits now agent r r' h u)
          (omega (arith, le, length-map (held_now now) taken)) in
      rw (paused_lem now agent r h u) (alarm-Waits agent r' items _ (rw (append-nil items) at w))

  pub send-Waits :
      (digest : String → String) (ttl now : ℕ) (agent : String) (m : Message) (r : R)
      (items : List SpoolItem) (h : Host R)
      → Waits agent r items h
      → length items < cap_por_agente
      → Waits agent r (items ++ held_now now m ∷ []) (send_message api digest ttl now agent m h)
  unfolding send_message send_message_inner
  send-Waits digest ttl now agent m r items h w le = rw w.paused (
      alarm-Waits agent r _ _
        (segurar-Waits agent r items (held_now now m ∷ []) false h w (omega arith)))

  released_lem :
      (agent : String) (items : List SpoolItem) (r : R) (h : Host R) (e : Entry R)
      → lookup agent h.entries ≡ some e
      → All (λ (i : SpoolItem). OfOwner i.message) items
      → (runner_of agent (released api agent items r h)
          ≡ some (push_all api (map message_of items) r))
        × ((released api agent items r h).pause_held ≡ h.pause_held)
  released_lem agent items r h e found o =
      let start : Release R = record { runner = r; avisado = false; entregues = 0; told = [] } in
      let same = release_all_lem agent items start o in
      rw found (rw (lookup-insert_self agent _ h.entries) (ap some same), refl)

  after : String → Host R → Host R
  after agent h = record h {
    pausados = remove agent h.pausados;
    pause_held = delete agent h.pause_held;
  }

  resumed_lem :
      (agent : String) (r : R) (i : SpoolItem) (items : List SpoolItem) (h : Host R)
      → Waits agent r (i ∷ items) h
      → resume api agent h ≡ released api agent (i ∷ items) r (after agent h)
  unfolding resume liberar_pausa after
  resumed_lem agent r i items h w =
      let h' : Host R = record h { pausados = remove agent h.pausados } in
      let fit : apt agent h' ≡ some r = rw (w.found, w.started, w.no_spool) w.running in
      ap (λ (b : Bool). if b then liberar_pausa api agent h' else h) w.paused
      ∙ ap
          (λ (b : Bool).
            if b then h' else liberar_de api agent (held agent h.pause_held) (apt agent h') h')
          (contains-remove_self agent h.pausados)
      ∙ ap (λ (l : List SpoolItem). liberar_de api agent l (apt agent h') h') w.waiting
      ∙ ap (λ (o : Option R). liberar_de api agent (i ∷ items) o h') fit
      ∙ ap
          (λ (b : Bool).
            if b
            then hold_all agent (i ∷ items) (after agent h)
            else released api agent (i ∷ items) r (after agent h))
          w.no_drain

  pub resume-Waits :
      (agent : String) (r : R) (items : List SpoolItem) (h : Host R)
      → Waits agent r items h
      → All (λ (i : SpoolItem). OfOwner i.message) items
      → (runner_of agent (resume api agent h) ≡ some (push_all api (map message_of items) r))
        × (held agent (resume api agent h).pause_held ≡ [])
  unfolding resume liberar_pausa after push_all
  resume-Waits agent r [] h w o =
      rw (w.paused, contains-remove_self agent h.pausados, w.waiting, w.found)
        (w.running, w.waiting)
  resume-Waits agent r (i ∷ items) h w o =
      let (ran, left) = released_lem agent (i ∷ items) r (after agent h) w.entry w.found o in
      rw (resumed_lem agent r i items h w)
        (ran, ap (held agent) left ∙ held-delete_self agent h.pause_held)
