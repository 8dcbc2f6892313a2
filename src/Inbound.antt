-- ===== src/Inbound.antt =====
-- src/inbound-dedup.ts, `createAgentInboundBuffer` and the file of seen ids: messages for an agent
-- whose runner does not exist yet. `Date.now()` is the argument `now`; the result of reading and
-- parsing the file is an argument of `load_delivery_seen`.
pub mod Invariant
pub mod Delivery
mod Examples
use Prim.Native.String.{String}
use the_dudes_daemon.Base.{
  ℕ, suc, ◌+◌, ◌-◌, Bool, true, false, not, ◌&&◌, Option, none, some, List, [], ◌∷◌, ◌++◌, leb, ltb,
  length, if◌then◌else◌, filter, any, keep_last, lookup, insert, delete, comparable_string,
  comparable_nat, ◌==◌,
}
use the_dudes_daemon.Dedup.{is_id}

-- The images are opaque to the buffer.
pub record BufferedInbound : Type 0 where
  pub delivery_id : Option String
  pub content : String
  pub images : Option (List String)
  pub enqueued_at : ℕ

pub record Buffer : Type 0 where
  pub max_per_agent : ℕ
  pub ttl_ms : ℕ
  pub by_agent : List (String × List BufferedInbound)

pub create : ℕ → ℕ → Buffer
create most ttl = record { max_per_agent = most; ttl_ms = ttl; by_agent = [] }

-- `byAgent.get(agentId) ?? []`
abbrev pub or_empty : Option (List BufferedInbound) → List BufferedInbound
or_empty none = []
or_empty (some list) = list

abbrev pub get : String → Buffer → List BufferedInbound
get agent b = or_empty (lookup agent b.by_agent)

abbrev pub put : String → List BufferedInbound → Buffer → Buffer
put agent list b = record b { by_agent = insert agent list b.by_agent }

abbrev pub drop_agent : String → Buffer → Buffer
drop_agent agent b = record b { by_agent = delete agent b.by_agent }

abbrev pub is_empty {ℓ} : {A : Type ℓ} → List A → Bool
is_empty [] = true
is_empty (x ∷ xs) = false

-- `enqueuedAt >= now - ttlMs`, without a negative number.
abbrev pub live : ℕ → ℕ → List BufferedInbound → List BufferedInbound
live ttl now = filter λ m. leb now (m.enqueued_at + ttl)

pub gc : String → ℕ → Buffer → Buffer
gc agent now b = elim (lookup agent b.by_agent) [
  | none ↦ b
  | some list ↦
      let next = live b.ttl_ms now list in
      if is_empty next then drop_agent agent b else put agent next b
]

abbrev pub has_delivery : Option String → BufferedInbound → Bool
has_delivery none m = false
has_delivery (some id) m = elim m.delivery_id [ none ↦ false | some other ↦ other == id ]

-- `msg.deliveryId && list.some(m => m.deliveryId === msg.deliveryId)`
abbrev pub is_repeat : BufferedInbound → List BufferedInbound → Bool
is_repeat msg list = is_id msg.delivery_id && any (has_delivery msg.delivery_id) list

-- `{ ...msg, enqueuedAt: msg.enqueuedAt || Date.now() }`
abbrev pub stamp : ℕ → BufferedInbound → BufferedInbound
stamp now msg = record msg { enqueued_at = if msg.enqueued_at == 0 then now else msg.enqueued_at }

-- The new state, and how many of the oldest messages left.
pub push : String → BufferedInbound → ℕ → Buffer → Buffer × ℕ
push agent msg now b =
    let b' = gc agent now b in
    let list = get agent b' in
    let longer = list ++ stamp now msg ∷ [] in
    if is_repeat msg list
    then (b', 0)
    else (put agent (keep_last b'.max_per_agent longer) b', length longer - b'.max_per_agent)

pub drain : String → ℕ → Buffer → Buffer × List BufferedInbound
drain agent now b = let b' = gc agent now b in (drop_agent agent b', get agent b')

pub peek : String → ℕ → Buffer → Buffer × List BufferedInbound
peek agent now b = let b' = gc agent now b in (b', get agent b')

-- `findIndex` and `splice`: the first message with the id leaves.
pub splice : String → List BufferedInbound → List BufferedInbound
splice id [] = []
splice id (m ∷ list) = if has_delivery (some id) m then list else m ∷ splice id list

pub remove : String → String → Buffer → Buffer × Bool
unfolding splice
remove agent id b = elim (lookup agent b.by_agent) [
  | none ↦ (b, false)
  | some list ↦
      let rest = splice id list in
      if any (has_delivery (some id)) list
      then ((if is_empty rest then drop_agent agent b else put agent rest b), true)
      else (b, false)
]

pub size_of : String → ℕ → Buffer → Buffer × ℕ
size_of agent now b = let b' = gc agent now b in (b', length (get agent b'))

total : List (String × List BufferedInbound) → ℕ
total [] = 0
total ((agent, list) ∷ m) = length list + total m

-- `size()` with no agent, or the empty one.
pub size : Buffer → ℕ
unfolding total
size b = total b.by_agent

pub clear : Buffer → Buffer
clear b = record b { by_agent = [] }

pub data Event : Type 0 where
  pushes : String → BufferedInbound → Event
  drains peeks sizes : String → Event
  removes : String → String → Event
  clears : Event

pub step : Buffer → ℕ × Event → Buffer
step b (now, pushes agent msg) = (push agent msg now b).0
step b (now, drains agent) = (drain agent now b).0
step b (now, peeks agent) = (peek agent now b).0
step b (now, sizes agent) = (size_of agent now b).0
step b (now, removes agent id) = (remove agent id b).0
step b (now, clears) = clear b

pub run : Buffer → List (ℕ × Event) → Buffer
run b [] = b
run b (e ∷ es) = run (step b e) es

abbrev delivery_seen_ttl_ms : ℕ
delivery_seen_ttl_ms = 900000

-- What `JSON.parse` gave: when the file was saved, 0 if it does not say, and the ids, if there is
-- an array of them; an entry that is no text is `none`.
pub record SeenFile : Type 0 where
  pub saved_at : ℕ
  pub ids : Option (List (Option String))

texts : List (Option String) → List String
texts [] = []
texts (none ∷ ids) = texts ids
texts (some id ∷ ids) = if not (id == "") then id ∷ texts ids else texts ids

-- `none` is a file that is missing or no JSON.
pub load_delivery_seen : Option SeenFile → ℕ → List String
unfolding texts
load_delivery_seen none now = []
load_delivery_seen (some d) now = elim d.ids [
  | none ↦ []
  | some ids ↦ if ltb (d.saved_at + delivery_seen_ttl_ms) now then [] else texts ids
]
