-- ===== src/Host.antt =====
-- src/agent-host.ts: where the host keeps the messages of its agents. The runner is an interface,
-- what the host says in an agent's chat is a log of notices, and a Map is a list of its keys and
-- values. `Date.now()` is the argument `now`.
pub mod Places
pub mod Hold
pub mod Pause
pub mod Send
pub mod Spool
pub mod Boot
pub mod Flush
mod Toy
mod Examples
use Prim.Native.String.{String}
use Prim.Native.String
use the_dudes_daemon.Base.{
  ℕ, Bool, true, false, not, Option, none, some, List, [], ◌∷◌, ◌++◌, if◌then◌else◌, lookup, insert,
  contains, add, comparable_string,
}
use the_dudes_daemon.Principal.{Principal}
use the_dudes_daemon.Inbound.{Buffer}
use the_dudes_daemon.Retained.{Retencao}

-- A message as the runner takes it and hands it back.
pub record Message : Type 0 where
  pub content : String
  pub images : Option (List String)
  pub delivery_id : Option String
  pub principal : Option Principal

-- `pausa` and `retido` say that the item comes from the pause or from the retained queue.
pub record SpoolItem : Type 0 where
  pub message : Message
  pub enqueued_at : ℕ
  pub pausa : Bool
  pub retido : Bool

pub record SpoolRecord : Type 0 where
  pub agent_id : String
  pub project_id : String
  pub delivery_id : Option String
  pub enqueued_at : ℕ
  pub blob : String
  pub pausa : Bool
  pub retido : Bool

-- What the host calls of an `AgentRunner`. The result of `push` is whether the runner took the
-- message; its Boolean is `preserveAsOwnDelivery`.
pub record RunnerApi (R : Type 0) : Type 0 where
  pub push : Message → Bool → R → R × Bool
  pub take_queued_for_drain : R → R × List Message
  pub take_in_flight_for_shutdown : R → R × Option Message
  pub take_queue_for_retain : R → R × List Message
  pub non_owner_turn_block_reason : R → Option String
  pub stop : R → R

pub record Entry (R : Type 0) : Type 0 where
  pub runner : Option R
  pub parado : Bool
  pub project_id : Option String

pub data DrainReason : Type 0 where
  update shutdown : DrainReason

-- `agent:error` in the chat of an agent.
pub data Notice : Type 0 where
  member_blocked paused_member_blocked : String → Notice
  pause_full : String → ℕ → Notice
  held_for_restart : DrainReason → String → Notice

pub record Host (R : Type 0) : Type 0 where
  pub entries : List (String × Entry R)
  pub inbound_buffer : Buffer
  pub inbound_agent_ids : List String
  pub draining : Bool
  pub drain_reason : DrainReason
  pub drain_held : List (String × List SpoolItem)
  pub drain_notified : List String
  pub spooled : List (String × List SpoolRecord)
  pub pausados : List String
  pub pause_held : List (String × List SpoolItem)
  pub retained : Retencao
  pub retido_no_boot : List (String × String)
  pub spool_path : Bool
  pub disk : Option (List SpoolRecord)
  pub fila_viva_timers : List String
  pub notices : List Notice

-- `map.get(agentId) ?? []`
abbrev pub or_empty {ℓ} : {A : Type ℓ} → Option (List A) → List A
or_empty none = []
or_empty (some items) = items

abbrev pub held {ℓ} : {A : Type ℓ} → String → List (String × List A) → List A
held agent m = or_empty (lookup agent m)

-- `map.has(agentId)`
abbrev pub is_some {ℓ} : {A : Type ℓ} → Option A → Bool
is_some none = false
is_some (some a) = true

abbrev pub has {ℓ} : {A : Type ℓ} → String → List (String × A) → Bool
has agent m = is_some (lookup agent m)

-- `this.entries.get(agentId)?.runner`
abbrev pub runner_in : {R : Type 0} → Option (Entry R) → Option R
runner_in none = none
runner_in (some e) = e.runner

abbrev pub runner_of : {R : Type 0} → String → Host R → Option R
runner_of agent h = runner_in (lookup agent h.entries)

-- A call changes the runner of an entry.
abbrev pub put_in : {R : Type 0} → String → R → Host R → Option (Entry R) → Host R
put_in agent r h none = h
put_in agent r h (some e) = record h {
  entries = insert agent (record e { runner = some r }) h.entries;
}

abbrev pub put_runner : {R : Type 0} → String → R → Host R → Host R
put_runner agent r h = put_in agent r h (lookup agent h.entries)

abbrev pub notify : {R : Type 0} → Notice → Host R → Host R
notify n h = record h { notices = h.notices ++ n ∷ [] }

-- `agendarFilaViva`: the timer of the snapshot is set.
abbrev pub agendar_fila_viva : {R : Type 0} → String → Host R → Host R
agendar_fila_viva agent h = record h { fila_viva_timers = add agent h.fila_viva_timers }

-- `if (text)`, of a text that may be absent.
abbrev pub truthy : Option String → Bool
truthy none = false
truthy (some s) = elim s [ String.[] ↦ false | String.◌∷◌ c t ↦ true ]

-- `canAcceptNonOwnerTurn`
abbrev pub can_accept_non_owner_turn : {R : Type 0} → RunnerApi R → R → Bool
can_accept_non_owner_turn api r = not (is_some (api.non_owner_turn_block_reason r))

-- The messages go to a runner one after the other, whatever it answers.
unfoldable pub push_all : {R : Type 0} → RunnerApi R → List Message → R → R
push_all api [] r = r
push_all api (m ∷ ms) r = push_all api ms (api.push m false r).0
