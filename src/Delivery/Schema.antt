-- ===== src/Delivery/Schema.antt =====
-- The shape of a payload that may be stored beside a message, and that the checks let nothing else pass.
use Prim.Native.String.{String}
use the_dudes_daemon.Base.{
  ℕ, suc, ◌≤◌, ◌≡◌, ◌⊎◌, inl, inr, refl, Bool, true, Option, none, some, List, [], ◌∷◌, arith,
  contains, comparable_string, ◌==◌, Bool-cases,
}
use the_dudes_daemon.Principal.{
  Value, undefined, null, boolean, number, text, array, object, Values, empty, element, Fields, nil,
  field, own, text_of, Origin,
}
use the_dudes_daemon.Delivery.{
  keys_among, texts_only, mem_ok, telegram_ok, origin_ok, silent_ok, is_text, is_undefined,
  absent_or_text, origin_of, boolean_of, record_of, telegram_of,
}

abbrev pub IsText : Value → Type 0
IsText v = (s : String) × (v ≡ text s)

-- The value of a property, and what is read from it: nothing where the property is missing.
abbrev pub ReadsText : Value → Option String → Type 0
ReadsText undefined o = o ≡ none
ReadsText (text s) o = o ≡ some s
ReadsText _ o = ⊥

abbrev pub ReadsFlag : Value → Option Bool → Type 0
ReadsFlag undefined o = o ≡ none
ReadsFlag (boolean b) o = o ≡ some b
ReadsFlag _ o = ⊥

abbrev pub ReadsOrigin : Value → Option Origin → Type 0
ReadsOrigin undefined o = o ≡ none
ReadsOrigin (text s) o =
    ((s ≡ "user") × (o ≡ some Origin.user))
    ⊎ (((s ≡ "agent") × (o ≡ some Origin.agent)) ⊎ ((s ≡ "system") × (o ≡ some Origin.system)))
ReadsOrigin _ o = ⊥

abbrev pub HasOnly : List String → Fields → Type 0
HasOnly names nil = Unit
HasOnly names (field name v fields) = (contains name names ≡ true) × HasOnly names fields

abbrev pub TextsOnly : Fields → Type 0
TextsOnly nil = Unit
TextsOnly (field name v fields) = IsText v × TextsOnly fields

abbrev pub ReadsMem : Value → Option Fields → Type 0
ReadsMem undefined o = o ≡ none
ReadsMem (object fields) o = (o ≡ some fields) × TextsOnly fields
ReadsMem _ o = ⊥

abbrev pub ReadsTelegram : Value → Option Value → Type 0
ReadsTelegram undefined o = o ≡ none
ReadsTelegram null o = o ≡ some null
ReadsTelegram (object fields) o =
    (o ≡ some (object fields))
    × HasOnly ("botToken" ∷ "chatId" ∷ []) fields
    × IsText (own "botToken" fields)
    × IsText (own "chatId" fields)
ReadsTelegram _ o = ⊥

-- A plain part names no place of a ciphertext, and one that is encrypted may.
abbrev pub IsPart : Value → Type 0
IsPart (object part) =
    HasOnly ("kind" ∷ "text" ∷ "table" ∷ "field" ∷ []) part
    × IsText (own "text" part)
    × (((own "kind" part ≡ text "plain")
          × (own "table" part ≡ undefined)
          × (own "field" part ≡ undefined))
        ⊎ ((own "kind" part ≡ text "cipher")
            × ((own "table" part ≡ undefined) ⊎ IsText (own "table" part))
            × ((own "field" part ≡ undefined) ⊎ IsText (own "field" part))))
IsPart _ = ⊥

abbrev pub size : Values → ℕ
size empty = 0
size (element v vs) = suc (size vs)

abbrev pub ArePart : Values → Type 0
ArePart empty = Unit
ArePart (element v vs) = IsPart v × ArePart vs

abbrev pub ReadsParts : Value → Option Values → Type 0
ReadsParts undefined o = o ≡ none
ReadsParts (array vs) o = (o ≡ some vs) × (size vs ≤ 100) × ArePart vs
ReadsParts _ o = ⊥

pub is_text-IsText : (v : Value) → is_text v ≡ true → IsText v
is_text-IsText (text s) h = (s, refl)
is_text-IsText undefined h = cc
is_text-IsText null h = cc
is_text-IsText (boolean b) h = cc
is_text-IsText (number n) h = cc
is_text-IsText (array vs) h = cc
is_text-IsText (object f) h = cc

pub is_undefined-undefined : (v : Value) → is_undefined v ≡ true → v ≡ undefined
is_undefined-undefined undefined h = refl
is_undefined-undefined (text s) h = cc
is_undefined-undefined null h = cc
is_undefined-undefined (boolean b) h = cc
is_undefined-undefined (number n) h = cc
is_undefined-undefined (array vs) h = cc
is_undefined-undefined (object f) h = cc

pub absent-or-IsText : (v : Value) → absent_or_text v ≡ true → (v ≡ undefined) ⊎ IsText v
absent-or-IsText v h = elim (Bool-cases (is_undefined v)) [
  | inl e ↦ inl (is_undefined-undefined v e)
  | inr e ↦ inr (is_text-IsText v (ground arith))
]

pub text_of-ReadsText : (v : Value) → absent_or_text v ≡ true → ReadsText v (text_of v)
text_of-ReadsText (text s) h = refl
text_of-ReadsText undefined h = refl
text_of-ReadsText null h = cc
text_of-ReadsText (boolean b) h = cc
text_of-ReadsText (number n) h = cc
text_of-ReadsText (array vs) h = cc
text_of-ReadsText (object f) h = cc

pub boolean_of-ReadsFlag : (v : Value) → silent_ok v ≡ true → ReadsFlag v (boolean_of v)
unfolding silent_ok
boolean_of-ReadsFlag (boolean b) h = refl
boolean_of-ReadsFlag undefined h = refl
boolean_of-ReadsFlag null h = cc
boolean_of-ReadsFlag (text s) h = cc
boolean_of-ReadsFlag (number n) h = cc
boolean_of-ReadsFlag (array vs) h = cc
boolean_of-ReadsFlag (object f) h = cc

pub origin_of-ReadsOrigin : (v : Value) → origin_ok v ≡ true → ReadsOrigin v (origin_of v)
unfolding origin_ok
origin_of-ReadsOrigin undefined h = refl
origin_of-ReadsOrigin (text s) h = elim (Bool-cases (s == "user")) [
  | inl e ↦ rw e (inl ((comparable_string.agree_iff s "user").0 e, refl))
  | inr e ↦ elim (Bool-cases (s == "agent")) [
    | inl k ↦ rw (e, k) (inr (inl ((comparable_string.agree_iff s "agent").0 k, refl)))
    | inr k ↦ elim (Bool-cases (s == "system")) [
      | inl l ↦ rw (e, k, l) (inr (inr ((comparable_string.agree_iff s "system").0 l, refl)))
      | inr l ↦ ground arith
    ]
  ]
]
origin_of-ReadsOrigin null h = cc
origin_of-ReadsOrigin (boolean b) h = cc
origin_of-ReadsOrigin (number n) h = cc
origin_of-ReadsOrigin (array vs) h = cc
origin_of-ReadsOrigin (object f) h = cc

pub keys_among-HasOnly :
    (names : List String) (fields : Fields) → keys_among names fields ≡ true → HasOnly names fields
unfolding keys_among
keys_among-HasOnly names nil h = tt
keys_among-HasOnly names (field name v fields) h =
    (ground arith, keys_among-HasOnly names fields (ground arith))

texts_only-TextsOnly : (fields : Fields) → texts_only fields ≡ true → TextsOnly fields
unfolding texts_only
texts_only-TextsOnly nil h = tt
texts_only-TextsOnly (field name v fields) h =
    (is_text-IsText v (ground arith), texts_only-TextsOnly fields (ground arith))

pub record_of-ReadsMem : (v : Value) → mem_ok v ≡ true → ReadsMem v (record_of v)
unfolding mem_ok
record_of-ReadsMem undefined h = refl
record_of-ReadsMem (object fields) h = (refl, texts_only-TextsOnly fields h)
record_of-ReadsMem null h = cc
record_of-ReadsMem (boolean b) h = cc
record_of-ReadsMem (number n) h = cc
record_of-ReadsMem (text s) h = cc
record_of-ReadsMem (array vs) h = cc

pub telegram_of-ReadsTelegram : (v : Value) → telegram_ok v ≡ true → ReadsTelegram v (telegram_of v)
unfolding telegram_ok
telegram_of-ReadsTelegram undefined h = refl
telegram_of-ReadsTelegram null h = refl
telegram_of-ReadsTelegram (object fields) h = (
  refl,
  keys_among-HasOnly ("botToken" ∷ "chatId" ∷ []) fields (ground arith),
  is_text-IsText (own "botToken" fields) (ground arith),
  is_text-IsText (own "chatId" fields) (ground arith),
)
telegram_of-ReadsTelegram (boolean b) h = cc
telegram_of-ReadsTelegram (number n) h = cc
telegram_of-ReadsTelegram (text s) h = cc
telegram_of-ReadsTelegram (array vs) h = cc
