-- ===== src/Session.antt =====
-- src/runners/message-session.ts: the state of a runner that starts a process for each message. The
-- calls of the observer are recorded in `observed`. `Buffer.byteLength` is the parameter
-- `byte_length`.
pub mod Coalesce
mod Epochs
mod FirstTurn
mod Drain
mod Examples
use Prim.Native.String.{String}
use Prim.Native.String
use the_dudes_daemon.Base.{
  ℕ, suc, ◌+◌, Bool, true, false, not, ◌&&◌, ◌||◌, Option, none, some, List, [], ◌∷◌, ◌++◌, map,
  ltb, leb, length, if◌then◌else◌, filter, any, contains, comparable_nat, comparable_string, ◌==◌,
}
use the_dudes_daemon.Principal.{Principal, same_turn_principal, same_option}

pub record QueuedMessage : Type 0 where
  pub content : String
  pub images : Option (List String)
  pub synthetic : Option String
  pub delivery_id : Option String
  pub principal : Option Principal
  pub coalesced_ids : Option (List String)

pub data EnqueueOutcome : Type 0 where
  queued coalesced dropped : EnqueueOutcome

abbrev pub coalesce_separator : String
coalesce_separator = "\n\n--- mensagem seguinte (agrupada: a fila do agente estava no teto) ---\n\n"

pub record FirstTurnSnapshot : Type 0 where
  pub first_turn : Bool
  pub pending_summary : Option String

pub data Reason : Type 0 where
  queue_cleared drained : Reason

pub data Notice : Type 0 where
  was_reset : Notice
  was_queued : QueuedMessage → Bool → Notice
  was_discarded : QueuedMessage → Reason → Notice

pub record Session : Type 0 where
  pub session_id : Option String
  pub needs_prime : Bool
  pub busy : Bool
  pub first_turn : Bool
  pub pending_summary : Option String
  pub epoch : ℕ
  pub queue : List QueuedMessage
  pub observed : List Notice

pub create : Session
create = record {
  session_id = none;
  needs_prime = false;
  busy = false;
  first_turn = true;
  pending_summary = none;
  epoch = 0;
  queue = [];
  observed = [];
}

pub resume : String → Bool → Bool → Session → Session
resume id needs_prime already_has_system_prompt s = record s {
  session_id = some id;
  needs_prime = needs_prime;
  first_turn = if already_has_system_prompt then false else s.first_turn;
}

abbrev pub observe : Notice → Session → Session
observe n s = record s { observed = s.observed ++ n ∷ [] }

pub reset : Option String → Session → Session
reset summary s = record (observe was_reset s) {
  epoch = suc s.epoch;
  session_id = none;
  needs_prime = false;
  first_turn = true;
  pending_summary = summary;
}

pub reset_for_retry : Option String → Session → Session
reset_for_retry summary s = record s {
  session_id = none;
  first_turn = true;
  pending_summary = summary;
}

pub bump_epoch : Session → Session
bump_epoch s = record (observe was_reset s) { epoch = suc s.epoch }

pub enqueue : QueuedMessage → ℕ → Session → Session × Bool
enqueue message max_size s =
    if leb max_size (length s.queue)
    then (s, false)
    else (record (observe (was_queued message false) s) { queue = s.queue ++ message ∷ [] }, true)

-- A string that is there and not empty.
abbrev pub truthy : Option String → Bool
truthy none = false
truthy (some s) = not (s == "")

abbrev pub is_synthetic : QueuedMessage → Bool
is_synthetic m = truthy m.synthetic

abbrev pub or_empty {ℓ} : {A : Type ℓ} → Option (List A) → List A
or_empty none = []
or_empty (some xs) = xs

abbrev pub has_items {ℓ} : {A : Type ℓ} → Option (List A) → Bool
has_items none = false
has_items (some []) = false
has_items (some (x ∷ xs)) = true

abbrev pub joined : QueuedMessage → QueuedMessage → String
joined alvo message = String.◌++◌ (String.◌++◌ alvo.content coalesce_separator) message.content

abbrev more_ids : Option (List String) → Option String → Option (List String)
more_ids ids none = ids
more_ids ids (some id) = if id == "" then ids else some (or_empty ids ++ id ∷ [])

-- The message in the queue, with the new one appended to it.
pub merge : QueuedMessage → QueuedMessage → QueuedMessage
merge alvo message = record alvo {
  content = joined alvo message;
  images =
      if has_items message.images
      then some (or_empty alvo.images ++ or_empty message.images)
      else alvo.images;
  coalesced_ids = more_ids alvo.coalesced_ids message.delivery_id;
}

-- The messages that a new one is never appended to.
abbrev pub is_skipped : QueuedMessage → QueuedMessage → Bool
is_skipped message alvo =
    is_synthetic alvo || not (same_turn_principal alvo.principal message.principal)

pub data Search : Type 0 where
  missing too_long : Search
  merged : List QueuedMessage → Search

-- What the loop over a full queue leaves and answers.
abbrev pub settle : Session → Search → Session × EnqueueOutcome
settle s missing = (s, dropped)
settle s too_long = (s, dropped)
settle s (merged queue) = (record s { queue = queue }, coalesced)

module _ (byte_length : String → ℕ) where
  -- The loop from the end of the queue: what it finds in the rest comes before what it finds here.
  search_back : QueuedMessage → ℕ → List QueuedMessage → Search
  search_back message max_bytes [] = missing
  search_back message max_bytes (alvo ∷ rest) = elim (search_back message max_bytes rest) [
    | merged rest' ↦ merged (alvo ∷ rest')
    | too_long ↦ too_long
    | missing ↦
        if is_skipped message alvo
        then missing
        else if ltb max_bytes (byte_length (joined alvo message))
        then too_long
        else merged (merge alvo message ∷ rest)
  ]

  pub enqueue_or_coalesce : QueuedMessage → ℕ → ℕ → Session → Session × EnqueueOutcome
  enqueue_or_coalesce message max_size max_bytes s =
      let (s', done) = enqueue message max_size s in
      if done then (s', queued) else settle s' (search_back message max_bytes s.queue)

pub prepend : QueuedMessage → Session → Session
prepend message s = record (observe (was_queued message true) s) { queue = message ∷ s.queue }

pub dequeue : Session → Session × Option QueuedMessage
dequeue s = elim s.queue [ [] ↦ (s, none) | m ∷ rest ↦ (record s { queue = rest }, some m) ]

pub queued_count : Session → ℕ
queued_count s = length s.queue

abbrev pub of_user : QueuedMessage → Bool
of_user m = not (is_synthetic m)

abbrev pub discarded : Reason → List QueuedMessage → List Notice
discarded reason = map λ m. was_discarded m reason

pub take_all_for_drain : Session → Session × List QueuedMessage
take_all_for_drain s = (
  record s { queue = []; observed = s.observed ++ discarded drained s.queue },
  filter of_user s.queue,
)

pub peek_all : Session → List QueuedMessage
peek_all s = filter of_user s.queue

-- `m.deliveryId === deliveryId || m.coalescedIds?.includes(deliveryId)`
abbrev pub carries : String → QueuedMessage → Bool
carries id m =
    of_user m
    && (same_option (λ x y. x == y) m.delivery_id (some id)
        || contains id (or_empty m.coalesced_ids))

pub data Removal : Type 0 where
  absent : Removal
  found : QueuedMessage → List QueuedMessage → Removal

-- `findIndex` and `splice`: the first message that carries the id, and the others.
pub splice : String → List QueuedMessage → Removal
splice id [] = absent
splice id (m ∷ rest) =
    if carries id m
    then found m rest
    else elim (splice id rest) [ absent ↦ absent | found n others ↦ found n (m ∷ others) ]

pub remove_by_delivery_id : String → Session → Session × Option QueuedMessage
unfolding splice
remove_by_delivery_id id s = elim (splice id s.queue) [
  | absent ↦ (s, none)
  | found m others ↦ (record (observe (was_discarded m queue_cleared) s) { queue = others }, some m)
]

pub clear_queue : Session → Session × ℕ
clear_queue s = (
  record s { queue = []; observed = s.observed ++ discarded queue_cleared s.queue },
  length s.queue,
)

-- `sessionId === undefined || sessionId === this.sessionId`
abbrev is_session : Option String → Option String → Bool
is_session none current = true
is_session (some id) current = same_option (λ x y. x == y) (some id) current

pub owns : ℕ → Option String → Session → Bool
owns epoch id s = epoch == s.epoch && is_session id s.session_id

pub consume_first_turn : Session → Session × FirstTurnSnapshot
consume_first_turn s = (
  record s { first_turn = false; pending_summary = none },
  record { first_turn = s.first_turn; pending_summary = s.pending_summary },
)

pub consume_first_turn_if_needed : Session → Session × FirstTurnSnapshot
unfolding consume_first_turn
consume_first_turn_if_needed s =
    if s.first_turn
    then consume_first_turn s
    else (s, record { first_turn = false; pending_summary = none })

abbrev or_else {ℓ} : {A : Type ℓ} → Option A → Option A → Option A
or_else none b = b
or_else (some a) b = some a

pub restore_first_turn : FirstTurnSnapshot → Session → Session
restore_first_turn snapshot s = if not snapshot.first_turn || s.first_turn then s else record s {
  first_turn = true;
  pending_summary = or_else s.pending_summary snapshot.pending_summary;
}
