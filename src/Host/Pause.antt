-- ===== src/Host/Pause.antt =====
-- src/agent-host.ts: `pause` and `resume`.
pub mod Waits
pub mod Order
use Prim.Native.String.{String}
use the_dudes_daemon.Base.{
  ℕ, suc, Bool, true, false, not, ◌&&◌, ◌||◌, Option, none, some, List, [], ◌∷◌, ◌++◌, map,
  if◌then◌else◌, lookup, contains, add, remove, delete, comparable_string,
}
use the_dudes_daemon.Principal.{is_non_owner_turn}
use the_dudes_daemon.Host.{
  Message, SpoolItem, RunnerApi, Entry, Notice, paused_member_blocked, Host, held, has, runner_of,
  put_runner, agendar_fila_viva, can_accept_non_owner_turn,
}
use the_dudes_daemon.Host.Hold.{held_now, segurar_na_pausa, hold_all}

-- The variables of the loop that releases the queue.
pub record Release (R : Type 0) : Type 0 where
  pub runner : R
  pub avisado : Bool
  pub entregues : ℕ
  pub told : List Notice

-- The guard of `liberarPausa`, with the runner that it finds fit.
abbrev pub apt_entry : {R : Type 0} → Bool → Option (Entry R) → Option R
apt_entry pending none = none
apt_entry pending (some e) = if e.parado || pending then none else e.runner

abbrev pub apt : {R : Type 0} → String → Host R → Option R
apt agent h = apt_entry (has agent h.spooled) (lookup agent h.entries)

module _ {R : Type 0} (api : RunnerApi R) where
  abbrev pub tirar_de : ℕ → String → Option R → Host R → Host R
  tirar_de now agent none h = h
  tirar_de now agent (some r) h =
      let (r', taken) = api.take_queued_for_drain r in
      segurar_na_pausa agent (map (held_now now) taken) true (put_runner agent r' h)

  unfoldable pub tirar_do_runner_para_pausa : ℕ → String → Host R → Host R
  tirar_do_runner_para_pausa now agent h = tirar_de now agent (runner_of agent h) h

  unfoldable pub pause : ℕ → String → Host R → Host R
  unfolding tirar_do_runner_para_pausa
  pause now agent h =
      if contains agent h.pausados
      then h
      else agendar_fila_viva agent
          (tirar_do_runner_para_pausa now agent (record h { pausados = add agent h.pausados }))

  -- An item that the runner may not take as a member's is refused, with one notice for the queue.
  abbrev pub release_one : String → SpoolItem → Release R → Release R
  release_one agent item l =
      if is_non_owner_turn item.message.principal && not (can_accept_non_owner_turn api l.runner)
      then record l {
        avisado = true;
        told = if l.avisado then l.told else l.told ++ paused_member_blocked agent ∷ [];
      }
      else record l {
        runner = (api.push item.message false l.runner).0;
        entregues = suc l.entregues;
      }

  unfoldable pub release_all : String → List SpoolItem → Release R → Release R
  release_all agent [] l = l
  release_all agent (i ∷ itens) l = release_all agent itens (release_one agent i l)

  abbrev pub released : String → List SpoolItem → R → Host R → Host R
  released agent lista r h =
      let l =
        release_all agent lista
          (record { runner = r; avisado = false; entregues = 0; told = [] }) in
      let h' = put_runner agent l.runner h in
      agendar_fila_viva agent (record h' { notices = h'.notices ++ l.told })

  abbrev pub liberar_de : String → List SpoolItem → Option R → Host R → Host R
  liberar_de agent [] r h = h
  liberar_de agent (i ∷ itens) none h = h
  liberar_de agent (i ∷ itens) (some r) h =
      let h' = record h { pause_held = delete agent h.pause_held } in
      if h.draining then hold_all agent (i ∷ itens) h' else released agent (i ∷ itens) r h'

  unfoldable pub liberar_pausa : String → Host R → Host R
  liberar_pausa agent h =
      if contains agent h.pausados
      then h
      else liberar_de agent (held agent h.pause_held) (apt agent h) h

  unfoldable pub resume : String → Host R → Host R
  unfolding liberar_pausa
  resume agent h =
      if contains agent h.pausados
      then liberar_pausa agent (record h { pausados = remove agent h.pausados })
      else h
