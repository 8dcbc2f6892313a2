-- ===== src/OpenCode.antt =====
-- src/runners/opencode-effort.ts: which efforts a model of opencode has, and the agent's configuration. The
-- registry of variants is a map in the order of insertion; `toLowerCase` is an argument.
pub mod Registry
pub mod Config
use Prim.Native.Char.{code}
use Prim.Native.String.{String}
use text.Mathlib.Text.{starts_with}
use the_dudes_daemon.ModelPolicy.Names.{after_prefix, is_digit}
use the_dudes_daemon.Base.{
  includes, ℕ, zero, suc, ◌+◌, ◌*◌, ◌-◌, Bool, true, false, not, ◌&&◌, ◌||◌, Option, none, some,
  List, [], ◌∷◌, ◌++◌, leb, ltb, if◌then◌else◌, ◌==◌, comparable_nat, comparable_string, contains,
  lookup, insert, delete, keep_last, length,
}

abbrev pub opencode_effort_names : List String
opencode_effort_names = "minimal" ∷ "low" ∷ "medium" ∷ "high" ∷ "xhigh" ∷ "max" ∷ []

abbrev pub Variants : Type 0
Variants = List (String × List String)

pub record ScannedModel : Type 0 where
  pub id : String
  pub variants : List String

abbrev pub registry_cap : ℕ
registry_cap = 4000

-- `set` where variants were seen, `delete` where their absence was.
abbrev learn : String → List String → Variants → Variants
learn key [] reg = delete key reg
learn key (v ∷ variants) reg = insert key (v ∷ variants) reg

abbrev pub add_name : String → List String → List String
add_name name out =
    if not (contains name opencode_effort_names) || contains name out then out else out ++ name ∷ []

-- The keys of the object in their order; the loop ends once eight names are in.
pub parse_model_variants : List String → List String → List String
parse_model_variants [] out = out
parse_model_variants (key ∷ keys) out =
    let rest = parse_model_variants keys (add_name key out) in
    if not (contains key opencode_effort_names)
    then rest
    else if leb 8 (length (add_name key out))
    then add_name key out
    else rest

-- `(^|\/)` and then the test: at the start, or after a slash.
any_part : (String → Bool) → Bool → String → Bool
any_part test starts String.[] = starts && test String.[]
any_part test starts (String.◌∷◌ c s) =
    (starts && test (String.◌∷◌ c s)) || any_part test (code c == 47) s

is_o_digit : String → Bool
is_o_digit String.[] = false
is_o_digit (String.◌∷◌ c String.[]) = false
is_o_digit (String.◌∷◌ c (String.◌∷◌ d s)) = code c == 111 && is_digit (code d)

-- `/(^|\/)(gpt-|o\d)/`
is_gpt : String → Bool
unfolding any_part is_o_digit
is_gpt id = any_part (λ s. starts_with s "gpt-" || is_o_digit s) true id

-- The digits at the start, added to a number, and what follows them.
number_and_rest : ℕ → String → ℕ × String
number_and_rest n String.[] = (n, String.[])
number_and_rest n (String.◌∷◌ c s) =
    let more = number_and_rest (n * 10 + (code c - 48)) s in
    if is_digit (code c) then more else (n, String.◌∷◌ c s)

starts_digit : String → Bool
starts_digit String.[] = false
starts_digit (String.◌∷◌ c s) = is_digit (code c)

-- `(?:\.(\d+))?`, which counts as 0 where it is missing.
minor_of : String → ℕ
unfolding number_and_rest starts_digit
minor_of String.[] = 0
minor_of (String.◌∷◌ c s) = if code c == 46 && starts_digit s then (number_and_rest 0 s).0 else 0

version_of : Option String → Option (ℕ × ℕ)
unfolding minor_of
version_of none = none
version_of (some s) =
    let (major, rest) = number_and_rest 0 s in
    if starts_digit s then some (major, minor_of rest) else none

first_of : Option (ℕ × ℕ) → Option (ℕ × ℕ) → Option (ℕ × ℕ)
first_of none later = later
first_of (some v) later = some v

-- The leftmost match of `/(?:^|\/)glm-(\d+)(?:\.(\d+))?/`.
glm_version : Bool → String → Option (ℕ × ℕ)
unfolding version_of first_of
glm_version starts String.[] = none
glm_version starts (String.◌∷◌ c s) =
    let later = glm_version (code c == 47) s in
    first_of (if starts then version_of (after_prefix "glm-" (String.◌∷◌ c s)) else none) later

uses_variants : Option (ℕ × ℕ) → Bool
uses_variants none = false
uses_variants (some (major, minor)) = ltb 5 major || (major == 5 && leb 3 minor)

module _ (lower : String → String) where
  pub learn_all : List ScannedModel → Variants → Variants
  learn_all [] reg = reg
  learn_all (m ∷ models) reg = learn_all models (learn (lower m.id) m.variants reg)

  pub register_opencode_variants : List ScannedModel → Variants → Variants
  unfolding learn_all
  register_opencode_variants models reg = keep_last registry_cap (learn_all models reg)

  pub opencode_variants_for : String → Variants → Option (List String)
  opencode_variants_for model reg = lookup (lower model) reg

  pub glm_opencode_uses_variants : String → Bool
  unfolding glm_version uses_variants
  glm_opencode_uses_variants model = uses_variants (glm_version true (lower model))

  pub heuristic_efforts_for : String → List String
  unfolding is_gpt includes glm_opencode_uses_variants
  heuristic_efforts_for model =
      let id = lower model in
      if is_gpt id
      then "none" ∷ "low" ∷ "medium" ∷ "high" ∷ []
      else if includes "claude" id
      then "none" ∷ "low" ∷ "medium" ∷ "high" ∷ []
      else if glm_opencode_uses_variants model
      then "none" ∷ "low" ∷ "high" ∷ "max" ∷ []
      else if includes "glm-" id
      then "none" ∷ "high" ∷ []
      else "none" ∷ []

  real_or : Option (List String) → List String → List String
  real_or none heuristic = heuristic
  real_or (some []) heuristic = heuristic
  real_or (some (v ∷ variants)) heuristic = "none" ∷ v ∷ variants

  pub opencode_efforts_for : String → Variants → List String
  unfolding real_or opencode_variants_for heuristic_efforts_for
  opencode_efforts_for model reg =
      real_or (opencode_variants_for model reg) (heuristic_efforts_for model)
