-- ===== src/Delivery/Merge.antt =====
-- Which stored payloads are accepted, and for which delivery.
use Prim.Native.String.{String}
use the_dudes_daemon.Base.{
  ℕ, ◌≤◌, ◌≡◌, ◌≢◌, refl, ap, sym, ◌∙◌, subst, ◌⊎◌, inl, inr, Bool, true, false, not, ◌==◌, ◌&&◌,
  Option, none, some, arith, leb, leb→le, Bool-cases, comparable_string,
}
use the_dudes_daemon.Principal.{
  Value, undefined, null, boolean, number, text, array, object, Fields, own, text_of,
}
use the_dudes_daemon.Delivery.Schema.{
  ReadsText, ReadsFlag, ReadsOrigin, ReadsMem, ReadsTelegram, ReadsParts, text_of-ReadsText,
  boolean_of-ReadsFlag, origin_of-ReadsOrigin, record_of-ReadsMem, telegram_of-ReadsTelegram,
}
use the_dudes_daemon.Delivery.Parts.{text_of-text, array_of-ReadsParts}
use the_dudes_daemon.Delivery.{
  Payload, Input, given, absent_or_text, origin_ok, silent_ok, mem_ok, telegram_ok, parts_ok,
  matches_outer, first_of, id_ok, fields_ok, payload_with, parse_id, parse_payload,
  merge_queue_delivery_payload,
}

split_and : (a b : Bool) → (a && b) ≡ true → (a ≡ true) × (b ≡ true)
split_and true b h = (refl, h)
split_and false b h = cc

matches :
    (outer : Option String) (id other : String)
    → matches_outer outer id ≡ true
    → outer ≡ some other
    → id ≡ other
matches none id other m o = cc
matches (some x) id other m o =
    let same : id ≡ x = (comparable_string.agree_iff id x).0 m in cc (same, o)

-- The id is that of the frame, where the frame has one.
abbrev pub Agrees : Option String → String → Type 0
Agrees none id = Unit
Agrees (some outer) id = (outer ≡ "") ⊎ (id ≡ outer)

given-Agrees :
    (frame : Option String) (id : String) → matches_outer (given frame) id ≡ true → Agrees frame id
given-Agrees none id h = tt
given-Agrees (some outer) id h = elim (Bool-cases (outer == "")) [
  | inl e ↦ inl ((comparable_string.agree_iff outer "").0 e)
  | inr e ↦
      let own_id : given (some outer) ≡ some outer = rw e refl in
      inr (matches (given (some outer)) id outer h own_id)
]

first_of-Agrees :
    (frame : Option String) (p : Payload) (id : String)
    → Agrees frame p.delivery_id
    → p.delivery_id ≡ first_of (given frame) (some p) id
first_of-Agrees none p id h = refl
first_of-Agrees (some outer) p id h = elim (Bool-cases (outer == "")) [
  | inl e ↦ rw e refl
  | inr e ↦ elim h [
    | inl k ↦ let same = (comparable_string.agree_iff outer "").1 k in cc (same, e)
    | inr k ↦ rw e k
  ]
]

module _ (units : String → ℕ) where
  -- A payload is taken from an object of the right shape, which is the delivery's own; of all its
  -- properties only these are read, and none but these stands in the message.
  pub record IsAccepted (frame : Option String) (f : Fields) (p : Payload) : Type 0 where
    pub id : own "deliveryId" f ≡ text p.delivery_id
    pub given : p.delivery_id ≢ ""
    pub short : units p.delivery_id ≤ 120
    pub agrees : Agrees frame p.delivery_id
    pub prefix : ReadsText (own "systemPrefix" f) p.system_prefix
    pub suffix : ReadsText (own "systemSuffix" f) p.system_suffix
    pub task : ReadsText (own "taskId" f) p.task_id
    pub origin : ReadsOrigin (own "origin" f) p.origin
    pub silent : ReadsFlag (own "silent" f) p.silent
    pub mem : ReadsMem (own "mem" f) p.mem
    pub telegram : ReadsTelegram (own "telegram" f) p.telegram
    pub parts : ReadsParts (own "parts" f) p.parts

  id_ok_lem :
      (outer : Option String) (id : String)
      → id_ok units outer id ≡ true
      → (id ≢ "") × (units id ≤ 120) × (matches_outer outer id ≡ true)
  id_ok_lem outer id h =
      let (first, agrees) = split_and _ (matches_outer outer id) h in
      let (some_id, short) = split_and (not (id == "")) (leb (units id) 120) first in
      (ground (arith, comparable_string.agree_iff id ""), leb→le _ _ short, agrees)

  payload_with-IsAccepted :
      (frame : Option String) (id : String) (f : Fields)
      → own "deliveryId" f ≡ text id
      → id_ok units (given frame) id ≡ true
      → fields_ok units f ≡ true
      → IsAccepted frame f (payload_with units id f)
  unfolding payload_with fields_ok
  payload_with-IsAccepted frame id f named bound right =
      let (some_id, short, agrees) = id_ok_lem (given frame) id bound in
      let (r6, parts) = split_and _ (parts_ok (own "parts" f)) right in
      let (r5, telegram) = split_and _ (telegram_ok (own "telegram" f)) r6 in
      let (r4, mem) = split_and _ (mem_ok (own "mem" f)) r5 in
      let (r3, silent) = split_and _ (silent_ok (own "silent" f)) r4 in
      let (r2, origin) = split_and _ (origin_ok (own "origin" f)) r3 in
      let (r1, task) = split_and _ (absent_or_text (own "taskId" f)) r2 in
      let (prefix, suffix) =
        split_and (absent_or_text (own "systemPrefix" f)) (absent_or_text (own "systemSuffix" f))
          r1 in
      record {
        id = named;
        given = some_id;
        short = short;
        agrees = given-Agrees frame id agrees;
        prefix = text_of-ReadsText (own "systemPrefix" f) prefix;
        suffix = text_of-ReadsText (own "systemSuffix" f) suffix;
        task = text_of-ReadsText (own "taskId" f) task;
        origin = origin_of-ReadsOrigin (own "origin" f) origin;
        silent = boolean_of-ReadsFlag (own "silent" f) silent;
        mem = record_of-ReadsMem (own "mem" f) mem;
        telegram = telegram_of-ReadsTelegram (own "telegram" f) telegram;
        parts = array_of-ReadsParts (own "parts" f) parts;
      }

  parse_id-IsAccepted :
      (frame o : Option String) (f : Fields) (p : Payload)
      → text_of (own "deliveryId" f) ≡ o
      → parse_id units (given frame) o f ≡ some p
      → IsAccepted frame f p
  unfolding parse_id
  parse_id-IsAccepted frame none f p e h = cc
  parse_id-IsAccepted frame (some id) f p e h =
      elim (Bool-cases (id_ok units (given frame) id && fields_ok units f)) [
        | inr k ↦
            let shut : parse_id units (given frame) (some id) f ≡ none = rw k refl in cc (h, shut)
        | inl k ↦
            let taken : parse_id units (given frame) (some id) f ≡ some (payload_with units id f) =
              rw k refl in
            subst (IsAccepted frame f) (cc (h, taken)) (
              payload_with-IsAccepted frame id f (text_of-text (own "deliveryId" f) id e)
                (ground arith) (ground arith))
      ]

  parse_payload-IsAccepted :
      (v : Value) (frame : Option String) (p : Payload)
      → parse_payload units v (given frame) ≡ some p
      → (f : Fields) × (v ≡ object f) × IsAccepted frame f p
  unfolding parse_payload
  parse_payload-IsAccepted (object f) frame p h =
      (f, refl, parse_id-IsAccepted frame (text_of (own "deliveryId" f)) f p refl h)
  parse_payload-IsAccepted undefined frame p h = cc
  parse_payload-IsAccepted null frame p h = cc
  parse_payload-IsAccepted (boolean b) frame p h = cc
  parse_payload-IsAccepted (number n) frame p h = cc
  parse_payload-IsAccepted (text s) frame p h = cc
  parse_payload-IsAccepted (array vs) frame p h = cc

  -- A payload that is accepted comes from an object whose delivery id is that of the merged delivery,
  -- not empty and of at most 120 units; each of its properties is missing or has the type that is
  -- declared for it, with at most 100 parts, all of them well-formed, and is read as it stands. So a
  -- payload stored for another delivery is never applied, nor a malformed one.
  pub payload-merge :
      (item : Input) (p : Payload)
      → (merge_queue_delivery_payload units item).payload ≡ some p
      → (p.delivery_id ≡ (merge_queue_delivery_payload units item).delivery_id)
        × (f : Fields) × (item.payload ≡ object f)
        × IsAccepted item.delivery_id f p
  unfolding merge_queue_delivery_payload
  payload-merge item p e =
      let (f, same, accepted) = parse_payload-IsAccepted item.payload item.delivery_id p e in
      (
        first_of-Agrees item.delivery_id p item.id accepted.agrees
            ∙ sym (ap (λ q. first_of (given item.delivery_id) q item.id) e),
        f,
        same,
        accepted,
      )
