-- ===== src/Delivery/Parts.antt =====
-- The parts of a payload that passes the checks.
use Prim.Native.String.{String}
use the_dudes_daemon.Base.{
  ℕ, zero, suc, ◌≤◌, ◌≡◌, ◌⊎◌, inl, inr, refl, ap, ◌∙◌, true, Option, none, some, [], ◌∷◌, arith,
  comparable_string, ◌==◌, Bool-cases,
}
use the_dudes_daemon.Principal.{
  Value, undefined, null, boolean, number, text, array, object, Values, empty, element, Fields, own,
  text_of,
}
use the_dudes_daemon.Delivery.{kind_ok, part_ok, parts_within, parts_ok, array_of}
use the_dudes_daemon.Delivery.Schema.{
  IsText, IsPart, ArePart, ReadsParts, size, is_text-IsText, is_undefined-undefined,
  absent-or-IsText, keys_among-HasOnly,
}

pub text_of-text : (v : Value) (s : String) → text_of v ≡ some s → v ≡ text s
text_of-text (text t) s h = cc
text_of-text undefined s h = cc
text_of-text null s h = cc
text_of-text (boolean b) s h = cc
text_of-text (number n) s h = cc
text_of-text (array vs) s h = cc
text_of-text (object f) s h = cc

abbrev Kinds : Fields → Type 0
Kinds part =
    ((own "kind" part ≡ text "plain")
      × (own "table" part ≡ undefined)
      × (own "field" part ≡ undefined))
    ⊎ ((own "kind" part ≡ text "cipher")
        × ((own "table" part ≡ undefined) ⊎ IsText (own "table" part))
        × ((own "field" part ≡ undefined) ⊎ IsText (own "field" part)))

kind_ok-Kinds :
    (kind : Option String) (part : Fields)
    → text_of (own "kind" part) ≡ kind
    → kind_ok kind part ≡ true
    → Kinds part
unfolding kind_ok
kind_ok-Kinds none part e h = cc
kind_ok-Kinds (some kind) part e h = elim (Bool-cases (kind == "plain")) [
  | inl k ↦
      let same : kind ≡ "plain" = (comparable_string.agree_iff kind "plain").0 k in
      inl (
        text_of-text (own "kind" part) "plain" (e ∙ ap (λ s. some s) same),
        is_undefined-undefined (own "table" part) (ground arith),
        is_undefined-undefined (own "field" part) (ground arith),
      )
  | inr k ↦ elim (Bool-cases (kind == "cipher")) [
    | inl l ↦
        let same : kind ≡ "cipher" = (comparable_string.agree_iff kind "cipher").0 l in
        inr (
          text_of-text (own "kind" part) "cipher" (e ∙ ap (λ s. some s) same),
          absent-or-IsText (own "table" part) (ground arith),
          absent-or-IsText (own "field" part) (ground arith),
        )
    | inr l ↦ ground arith
  ]
]

part_ok-IsPart : (v : Value) → part_ok v ≡ true → IsPart v
unfolding part_ok
part_ok-IsPart (object part) h = (
  keys_among-HasOnly ("kind" ∷ "text" ∷ "table" ∷ "field" ∷ []) part (ground arith),
  is_text-IsText (own "text" part) (ground arith),
  kind_ok-Kinds (text_of (own "kind" part)) part refl (ground arith),
)
part_ok-IsPart undefined h = cc
part_ok-IsPart null h = cc
part_ok-IsPart (boolean b) h = cc
part_ok-IsPart (number n) h = cc
part_ok-IsPart (text s) h = cc
part_ok-IsPart (array vs) h = cc

parts_within-ArePart : (n : ℕ) (vs : Values) → parts_within n vs ≡ true → (size vs ≤ n) × ArePart vs
unfolding parts_within
parts_within-ArePart n empty h = (omega arith, tt)
parts_within-ArePart zero (element v vs) h = cc
parts_within-ArePart (suc n) (element v vs) h =
    let (fits, right) = parts_within-ArePart n vs (ground arith) in
    (omega (arith, fits), (part_ok-IsPart v (ground arith), right))

pub array_of-ReadsParts : (v : Value) → parts_ok v ≡ true → ReadsParts v (array_of v)
unfolding parts_ok
array_of-ReadsParts undefined h = refl
array_of-ReadsParts (array vs) h =
    let (fits, right) = parts_within-ArePart 100 vs h in (refl, fits, right)
array_of-ReadsParts null h = cc
array_of-ReadsParts (boolean b) h = cc
array_of-ReadsParts (number n) h = cc
array_of-ReadsParts (text s) h = cc
array_of-ReadsParts (object f) h = cc
