-- ===== src/ModelPolicy/Names.antt =====
-- src/runners/model-policy.ts: the patterns on the names of models.
pub mod Shorter
use Prim.Native.Char.{code}
use Prim.Native.String.{String, [], ◌∷◌}
use text.Mathlib.Text.{starts_with}
use the_dudes_daemon.SuitePark.Command.{base_name}
use the_dudes_daemon.Base.{
  ℕ, zero, suc, ◌+◌, ◌*◌, ◌-◌, Bool, true, false, not, ◌&&◌, ◌||◌, Option, none, some,
  if◌then◌else◌, ◌==◌, comparable_string, comparable_nat, contains, leb,
}
use mathlib.Core.List.{List}

unfoldable pub chars : String → ℕ
chars [] = 0
chars (c ∷ s) = suc (chars s)

-- What EFFORT_SUFFIX_RE matches.
unfoldable pub is_effort_suffix : String → Bool
is_effort_suffix s =
    s == ":off"
    || s == ":minimal"
    || s == ":none"
    || s == ":low"
    || s == ":medium"
    || s == ":high"
    || s == ":xhigh"
    || s == ":max"

-- `s.replace(EFFORT_SUFFIX_RE, "")`
unfoldable pub strip_effort : String → String
unfolding is_effort_suffix
strip_effort [] = []
strip_effort (c ∷ s) =
    let rest = c ∷ strip_effort s in if is_effort_suffix (c ∷ s) then [] else rest

abbrev pub is_digit : ℕ → Bool
is_digit c = leb 48 c && leb c 57

-- `n` digits and no more.
digits_only : ℕ → String → Bool
digits_only zero [] = true
digits_only zero (c ∷ s) = false
digits_only (suc n) [] = false
digits_only (suc n) (c ∷ s) = is_digit (code c) && digits_only n s

is_date : String → Bool
unfolding digits_only
is_date [] = false
is_date (c ∷ s) = code c == 45 && digits_only 8 s

-- `s.replace(/-\d{8}$/, "")`
unfoldable pub undated : String → String
unfolding is_date
undated [] = []
undated (c ∷ s) = let rest = c ∷ undated s in if is_date (c ∷ s) then [] else rest

-- `s.endsWith("[1m]")`
unfoldable pub is_1m : String → Bool
is_1m [] = false
is_1m (c ∷ s) = (c ∷ s) == "[1m]" || is_1m s

-- What follows the prefix.
unfoldable pub after_prefix : String → String → Option String
after_prefix [] s = some s
after_prefix (p ∷ prefix) [] = none
after_prefix (p ∷ prefix) (c ∷ s) =
    let rest = after_prefix prefix s in if code p == code c then rest else none

all_digits : String → Bool
all_digits [] = true
all_digits (c ∷ s) = is_digit (code c) && all_digits s

some_digits : Option String → Bool
unfolding all_digits
some_digits none = false
some_digits (some []) = false
some_digits (some (c ∷ s)) = all_digits (c ∷ s)

-- `/^grok-4\.\d+$/i` or `/\/grok-4\.\d+$/i`, on the name in lower case.
unfoldable pub is_grok4 : String → Bool
unfolding base_name after_prefix some_digits
is_grok4 base = some_digits (after_prefix "grok-4." (base_name base))

split_slash : String → Option String
split_slash [] = none
split_slash (c ∷ s) = let rest = split_slash s in if code c == 47 then some s else rest

-- `base.slice(base.indexOf("/") + 1)`, where the slash is not the first character.
unfoldable pub after_slash : String → Option String
unfolding split_slash
after_slash [] = none
after_slash (c ∷ s) = if code c == 47 then none else split_slash s

number_from : ℕ → String → ℕ
number_from n [] = n
number_from n (c ∷ s) =
    let rest = number_from (n * 10 + (code c - 48)) s in if is_digit (code c) then rest else n

leading_number : Option String → Option ℕ
unfolding number_from
leading_number none = none
leading_number (some []) = none
leading_number (some (c ∷ s)) = if is_digit (code c) then some (number_from 0 (c ∷ s)) else none

-- `/^grok-4\.(\d+)/`
unfoldable pub grok4_number : String → Option ℕ
unfolding after_prefix leading_number
grok4_number bare = leading_number (after_prefix "grok-4." bare)
