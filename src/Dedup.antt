-- ===== src/Dedup.antt =====
-- src/inbound-dedup.ts, `createDeliveryDeduper`: which delivery ids were already accepted.
-- `undefined` and the empty id are both falsy: a message without an id.
pub mod Invariant
mod Window
mod Refine
mod Examples
use Prim.Native.String.{String}
use the_dudes_daemon.Base.{
  ℕ, suc, zero, Bool, true, false, not, ◌&&◌, Option, none, some, List, [], ◌∷◌, ◌++◌, leb, ltb,
  length, if◌then◌else◌, contains, add, remove, comparable_string, ◌==◌, filter,
}

pub record Deduper : Type 0 where
  pub max_seen : ℕ
  pub seen : List String
  pub order : List String

pub create : ℕ → Deduper
create max_seen = record { max_seen = max_seen; seen = []; order = [] }

-- `!!deliveryId`
abbrev pub is_id : Option String → Bool
is_id none = false
is_id (some id) = not (id == "")

pub is_seen : Option String → Deduper → Bool
is_seen none d = false
is_seen (some id) d = not (id == "") && contains id d.seen

-- `while (order.length > maxSeen)`, over the ids that are too many. An old id is never empty where
-- the deduper is valid; the test of the source is kept.
trim : ℕ → List String → List String → Deduper
trim most seen [] = record { max_seen = most; seen = seen; order = [] }
trim most seen (old ∷ order) =
    let rest = trim most (if not (old == "") then remove old seen else seen) order in
    if ltb most (length (old ∷ order))
    then rest
    else record { max_seen = most; seen = seen; order = old ∷ order }

mark_new : String → Deduper → Deduper
unfolding trim
mark_new id d = trim d.max_seen (add id d.seen) (d.order ++ id ∷ [])

pub mark_seen : Option String → Deduper → Deduper
mark_seen none d = d
mark_seen (some id) d =
    if not (id == "") then (if contains id d.seen then d else mark_new id d) else d

-- The new state, and whether the message is to be processed.
pub accept : Option String → Deduper → Deduper × Bool
unfolding mark_seen
accept none d = (d, true)
accept (some id) d =
    if not (id == "")
    then (if contains id d.seen then (d, false) else (mark_seen (some id) d, true))
    else (d, true)

pub size : Deduper → ℕ
size d = length d.seen

pub clear : Deduper → Deduper
clear d = record d { seen = []; order = [] }

pub snapshot : Deduper → List String
snapshot d = d.order

-- A sequence of deliveries.
pub accept_all : List (Option String) → Deduper → Deduper
accept_all [] d = d
accept_all (id ∷ ids) d = accept_all ids (accept id d).0
