-- ===== src/Delivery/Examples.antt =====
-- Tests and witnesses of the server's queue: every text has one unit.
use Prim.Native.String.{String}
use the_dudes_daemon.Base.{ℕ, ◌≡◌, refl, true, false, Option, none, some}
use the_dudes_daemon.Principal.{
  Value, Fields, boolean, text, array, object, empty, element, nil, field,
}
use the_dudes_daemon.Delivery.{
  Payload, Input, keys_among, texts_only, mem_ok, telegram_ok, kind_ok, part_ok, parts_within,
  parts_ok, origin_ok, silent_ok, fields_ok, payload_with, parse_id, parse_payload,
  merge_queue_delivery_payload,
}
use the_dudes_daemon.Delivery.Merge.{IsAccepted, payload-merge}

opened : Unit {0}
unfolding keys_among texts_only mem_ok telegram_ok kind_ok part_ok parts_within parts_ok origin_ok
    silent_ok fields_ok payload_with parse_id parse_payload merge_queue_delivery_payload
opened = tt

abbrev one : String → ℕ
one s = 1

abbrev plain : Value
plain = object (field "kind" (text "plain") (field "text" (text "oi") nil))

abbrev stored : String → Value
stored id = object (
    field "deliveryId" (text id) (
      field "isAgentOwner" (boolean true)
        (field "parts" (array (element plain empty)) (field "taskId" (text "T-1") nil))))

abbrev delivery : Option String → Value → Input
delivery id payload = record {
  id = "q1";
  content = "oi";
  images = none;
  ts = none;
  delivery_id = id;
  payload = payload;
  from = none;
  is_agent_owner = some false;
}

abbrev accepted : Payload
accepted = record {
  delivery_id = "d1";
  system_prefix = none;
  system_suffix = none;
  parts = some (element plain empty);
  mem = none;
  telegram = none;
  task_id = some "T-1";
  origin = none;
  silent = none;
}

merge_tests :
    ((merge_queue_delivery_payload one (delivery (some "d1") (stored "d1"))).payload
      ≡ some accepted)
    × ((merge_queue_delivery_payload one (delivery (some "d2") (stored "d1"))).payload ≡ none)
    × ((merge_queue_delivery_payload one (delivery (some "") (stored "d1"))).delivery_id ≡ "d1")
    × ((merge_queue_delivery_payload one (delivery none plain)).delivery_id ≡ "q1")
unfolding opened
merge_tests = (refl, refl, refl, refl)

abbrev kept : Input
kept = delivery (some "d1") (stored "d1")

payload-merge_example :
    ("d1" ≡ (merge_queue_delivery_payload one kept).delivery_id)
    × (f : Fields) × (kept.payload ≡ object f)
    × IsAccepted one kept.delivery_id f accepted
unfolding opened
payload-merge_example = payload-merge one kept accepted refl
