-- ===== src/Delivery.antt =====
-- src/runners/queue-delivery.ts: a message that comes back from the server's queue, with the payload
-- that was stored beside it. The names of an object's properties differ. The log of foreign keys is
-- left out; the length of a text in UTF-16 units is the parameter `units`.
mod Schema
mod Parts
mod Merge
mod Examples
use Prim.Native.String.{String}
use the_dudes_daemon.Base.{
  ℕ, zero, suc, Bool, true, false, not, ◌&&◌, ◌||◌, Option, none, some, List, [], ◌∷◌, leb, ltb,
  if◌then◌else◌, contains, comparable_string, ◌==◌,
}
use the_dudes_daemon.Principal.{
  Value, undefined, null, boolean, number, text, array, object, Values, empty, element, Fields, nil,
  field, own, text_of, Sender, Origin, origin_text,
}

pub record Payload : Type 0 where
  pub delivery_id : String
  pub system_prefix : Option String
  pub system_suffix : Option String
  pub parts : Option Values
  pub mem : Option Fields
  pub telegram : Option Value
  pub task_id : Option String
  pub origin : Option Origin
  pub silent : Option Bool

pub record Input : Type 0 where
  pub id : String
  pub content : String
  pub images : Option (List String)
  pub ts : Option ℕ
  pub delivery_id : Option String
  pub payload : Value
  pub from : Option Sender
  pub is_agent_owner : Option Bool

pub record Merged : Type 0 where
  pub id : String
  pub content : String
  pub images : Option (List String)
  pub ts : Option ℕ
  pub delivery_id : String
  pub payload : Option Payload
  pub from : Option Sender
  pub is_agent_owner : Option Bool

abbrev pub is_undefined : Value → Bool
is_undefined undefined = true
is_undefined _ = false

abbrev pub is_text : Value → Bool
is_text (text s) = true
is_text _ = false

abbrev pub absent_or_text : Value → Bool
absent_or_text v = is_undefined v || is_text v

-- `Object.keys(v).every(key => allowed.includes(key))`
pub keys_among : List String → Fields → Bool
keys_among allowed nil = true
keys_among allowed (field name v fields) = contains name allowed && keys_among allowed fields

texts_only : Fields → Bool
texts_only nil = true
texts_only (field name v fields) = is_text v && texts_only fields

pub mem_ok : Value → Bool
unfolding texts_only
mem_ok undefined = true
mem_ok (object fields) = texts_only fields
mem_ok _ = false

pub telegram_ok : Value → Bool
unfolding keys_among
telegram_ok undefined = true
telegram_ok null = true
telegram_ok (object fields) =
    keys_among ("botToken" ∷ "chatId" ∷ []) fields
    && is_text (own "botToken" fields)
    && is_text (own "chatId" fields)
telegram_ok _ = false

kind_ok : Option String → Fields → Bool
kind_ok none part = false
kind_ok (some kind) part =
    if kind == "plain"
    then is_undefined (own "table" part) && is_undefined (own "field" part)
    else if kind == "cipher"
    then absent_or_text (own "table" part) && absent_or_text (own "field" part)
    else false

part_ok : Value → Bool
unfolding keys_among kind_ok
part_ok (object part) =
    keys_among ("kind" ∷ "text" ∷ "table" ∷ "field" ∷ []) part
    && is_text (own "text" part)
    && kind_ok (text_of (own "kind" part)) part
part_ok _ = false

-- At most `n` parts, each of them right.
parts_within : ℕ → Values → Bool
unfolding part_ok
parts_within n empty = true
parts_within zero (element v vs) = false
parts_within (suc n) (element v vs) = part_ok v && parts_within n vs

pub parts_ok : Value → Bool
unfolding parts_within
parts_ok undefined = true
parts_ok (array vs) = parts_within 100 vs
parts_ok _ = false

abbrev is_origin_text : Option Origin → Bool
is_origin_text none = false
is_origin_text (some o) = true

pub origin_ok : Value → Bool
origin_ok undefined = true
origin_ok (text s) = is_origin_text (origin_text s)
origin_ok _ = false

pub silent_ok : Value → Bool
silent_ok undefined = true
silent_ok (boolean b) = true
silent_ok _ = false

abbrev pub origin_of : Value → Option Origin
origin_of (text s) = origin_text s
origin_of _ = none

abbrev pub boolean_of : Value → Option Bool
boolean_of (boolean b) = some b
boolean_of _ = none

abbrev pub array_of : Value → Option Values
array_of (array vs) = some vs
array_of _ = none

abbrev pub record_of : Value → Option Fields
record_of (object fields) = some fields
record_of _ = none

abbrev pub telegram_of : Value → Option Value
telegram_of null = some null
telegram_of (object fields) = some (object fields)
telegram_of _ = none

abbrev matches_outer : Option String → String → Bool
matches_outer none id = true
matches_outer (some outer) id = id == outer

-- `typeof item.deliveryId === "string" && item.deliveryId`
abbrev pub given : Option String → Option String
given none = none
given (some id) = if id == "" then none else some id

abbrev pub first_of : Option String → Option Payload → String → String
first_of (some outer) p id = outer
first_of none (some p) id = p.delivery_id
first_of none none id = id

module _ (units : String → ℕ) where
  abbrev id_ok : Option String → String → Bool
  id_ok outer id = not (id == "") && leb (units id) 120 && matches_outer outer id

  fields_ok : Fields → Bool
  unfolding mem_ok telegram_ok parts_ok origin_ok silent_ok
  fields_ok p =
      absent_or_text (own "systemPrefix" p)
      && absent_or_text (own "systemSuffix" p)
      && absent_or_text (own "taskId" p)
      && origin_ok (own "origin" p)
      && silent_ok (own "silent" p)
      && mem_ok (own "mem" p)
      && telegram_ok (own "telegram" p)
      && parts_ok (own "parts" p)

  payload_with : String → Fields → Payload
  payload_with id p = record {
    delivery_id = id;
    system_prefix = text_of (own "systemPrefix" p);
    system_suffix = text_of (own "systemSuffix" p);
    parts = array_of (own "parts" p);
    mem = record_of (own "mem" p);
    telegram = telegram_of (own "telegram" p);
    task_id = text_of (own "taskId" p);
    origin = origin_of (own "origin" p);
    silent = boolean_of (own "silent" p);
  }

  parse_id : Option String → Option String → Fields → Option Payload
  unfolding fields_ok payload_with
  parse_id outer none p = none
  parse_id outer (some id) p =
      if id_ok outer id && fields_ok p then some (payload_with id p) else none

  pub parse_payload : Value → Option String → Option Payload
  unfolding parse_id
  parse_payload (object p) outer = parse_id outer (text_of (own "deliveryId" p)) p
  parse_payload _ outer = none

  pub merge_queue_delivery_payload : Input → Merged
  merge_queue_delivery_payload item =
      let outer = given item.delivery_id in
      let payload = parse_payload item.payload outer in
      record {
        id = item.id;
        content = item.content;
        images = item.images;
        ts = item.ts;
        delivery_id = first_of outer payload item.id;
        payload = payload;
        from = item.from;
        is_agent_owner = item.is_agent_owner;
      }
