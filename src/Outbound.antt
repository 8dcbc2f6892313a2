-- ===== src/Outbound.antt =====
-- src/runners/outbound-delivery.ts: frames to the server, and the queue of the critical ones while
-- the socket is down. A frame is its type and its JSON text. What the socket does is an argument.
mod Eviction
mod Flush
mod Examples
use Prim.Native.String.{String}
use the_dudes_daemon.Base.{
  ℕ, zero, suc, ◌+◌, ◌-◌, ◌*◌, Bool, true, false, not, ◌&&◌, Option, none, some, List, [], ◌∷◌,
  ◌++◌, leb, ltb, length, if◌then◌else◌, contains, any, comparable_nat, comparable_string, ◌==◌,
}

pub record Item : Type 0 where
  pub type : String
  pub json : String

abbrev pub critical_types : List String
critical_types =
    "agent:text" ∷ "agent:error" ∷ "agent:hung" ∷ "agent:exit" ∷ "agent:thinking" ∷ "agent:tool_use"
    ∷ []

abbrev pub high_priority_types : List String
high_priority_types = "agent:text" ∷ "agent:error" ∷ "agent:hung" ∷ "agent:exit" ∷ []

pub is_critical_outbound : Item → Bool
is_critical_outbound msg = contains msg.type critical_types

pub is_high_priority_outbound : Item → Bool
is_high_priority_outbound msg = contains msg.type high_priority_types

pub record ChannelState : Type 0 where
  pub ready_state : ℕ
  pub open_state : ℕ
  pub buffered_amount : ℕ

abbrev max_buffered : ℕ
max_buffered = 4 * 1024 * 1024

pub channel_can_send : Option ChannelState → Bool
channel_can_send none = false
channel_can_send (some ch) = ch.ready_state == ch.open_state && leb ch.buffered_amount max_buffered

pub record Queue : Type 0 where
  pub items : List Item
  pub max : ℕ

pub create : ℕ → Queue
create max = record { items = []; max = max }

-- `findIndex` and `splice`; nothing, if every item is of high priority.
drop_low : List Item → Option (List Item)
drop_low [] = none
drop_low (i ∷ is) =
    if not (is_high_priority_outbound i)
    then some is
    else elim (drop_low is) [ none ↦ none | some rest ↦ some (i ∷ rest) ]

abbrev shift : List Item → List Item
shift [] = []
shift (i ∷ is) = is

evict_one : List Item → List Item
unfolding drop_low
evict_one items = elim (drop_low items) [ some rest ↦ rest | none ↦ shift items ]

-- `while (items.length > max) evictOne()`. Each round takes one item, so that there are as many
-- rounds as items too many; `length-enqueue_critical` shows that they are enough.
evict_rounds : ℕ → List Item → List Item
evict_rounds zero items = items
evict_rounds (suc n) items = evict_rounds n (evict_one items)

abbrev trim : ℕ → List Item → List Item
trim max items = evict_rounds (length items - max) items

pub enqueue_critical : Item → Queue → Queue
enqueue_critical msg q =
    if is_critical_outbound msg then record q { items = trim q.max (q.items ++ msg ∷ []) } else q

-- What `send` does with a frame: hand it to the socket, or throw.
pub data Sending : Type 0 where
  sent thrown : Sending

-- The new queue, and whether the frame was handed to the socket.
pub try_send_outbound : Item → Bool → Sending → Queue → Queue × Bool
unfolding enqueue_critical
try_send_outbound msg true sent q = (q, true)
try_send_outbound msg true thrown q = (enqueue_critical msg q, false)
try_send_outbound msg false s q = (enqueue_critical msg q, false)

-- What the channel answers in one round of the flush: `canSend()`, and then what `send` does.
pub data Reply : Type 0 where
  refuses fails accepts : Reply

-- The frames handed to the socket, in order, and those that stay. `reply n` is the answer to the
-- n-th frame.
answered : Reply → Item → List Item → List Item × List Item → List Item × List Item
answered refuses item items rest = ([], item ∷ items)
answered fails item items rest = ([], item ∷ items)
answered accepts item items (given, left) = (item ∷ given, left)

flush_from : (ℕ → Reply) → ℕ → List Item → List Item × List Item
unfolding answered
flush_from reply n [] = ([], [])
flush_from reply n (item ∷ items) = answered (reply n) item items (flush_from reply (suc n) items)

pub record Flushed : Type 0 where
  pub queue : Queue
  pub given : List Item
  pub count : ℕ

pub flush_outbound_queue : (ℕ → Reply) → Queue → Flushed
unfolding flush_from
flush_outbound_queue reply q =
    let (given, left) = flush_from reply 0 q.items in
    record { queue = record q { items = left }; given = given; count = length given }
