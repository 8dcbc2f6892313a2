-- ===== src/OpenCode/Config.antt =====
-- src/runners/opencode-effort.ts, `buildOpenCodeAgentConfig`: what the agent of a model is told.
use Prim.Native.String.{String}
use the_dudes_daemon.Base.{
  includes, ℕ, ◌≡◌, inl, inr, refl, sym, subst, Bool, true, false, not, ◌&&◌, Option, none, some,
  List, [], ◌∷◌, arith, if◌then◌else◌, ◌==◌, comparable_string, contains, Bool-cases, if-holds,
}
use the_dudes_daemon.OpenCode.{
  Variants, opencode_variants_for, opencode_efforts_for, glm_opencode_uses_variants, is_gpt,
  includes, real_or, heuristic_efforts_for,
}

-- `thinking: { type: "enabled", budgetTokens }`
pub data Thinking : Type 0 where
  enabled : Option (Option ℕ) → Thinking

pub record AgentConfig : Type 0 where
  pub model : String
  pub variant : Option String
  pub reasoning_effort : Option String
  pub thinking : Option Thinking

abbrev base : String → AgentConfig
base model = record { model = model; variant = none; reasoning_effort = none; thinking = none }

-- `{ low: 4_096, medium: 16_384, high: 32_768 }[selected]`
pub budget_tokens : String → Option ℕ
budget_tokens selected =
    if selected == "low"
    then some 4096
    else if selected == "medium"
    then some 16384
    else if selected == "high"
    then some 32768
    else none

first_or_none : List String → String
first_or_none [] = "none"
first_or_none (effort ∷ efforts) = effort

selected_of : Option String → List String → String
unfolding first_or_none
selected_of none allowed = first_or_none allowed
selected_of (some effort) allowed =
    if not (effort == "") && contains effort allowed then effort else first_or_none allowed

has_variant : Option (List String) → String → Bool
has_variant none selected = false
has_variant (some variants) selected = contains selected variants

refuted {ℓ} :
    {A : Type ℓ} (allowed : List String)
    → first_or_none allowed ≡ "none"
    → (first_or_none allowed == "none") ≡ false
    → A
refuted allowed first h =
    let k = (comparable_string.agree_iff (first_or_none allowed) "none").1 first in absurd (cc)

module _ (lower : String → String) where
  config_for : String → Variants → String → AgentConfig
  unfolding has_variant budget_tokens
  config_for model reg selected =
      if selected == "none"
      then base model
      else if has_variant (opencode_variants_for lower model reg) selected
      then record (base model) { variant = some selected }
      else if is_gpt (lower model)
      then record (base model) { reasoning_effort = some selected }
      else if includes "claude" (lower model)
      then record (base model) { thinking = some (enabled (some (budget_tokens selected))) }
      else if glm_opencode_uses_variants lower model
      then record (base model) { variant = some selected }
      else if includes "glm-" (lower model)
      then record (base model) { thinking = some (enabled none) }
      else base model

  pub build_opencode_agent_config : Option String → Option String → Variants → Option AgentConfig
  unfolding config_for selected_of
  build_opencode_agent_config none effort reg = none
  build_opencode_agent_config (some model) effort reg =
      if model == ""
      then none
      else some (config_for model reg (selected_of effort (opencode_efforts_for lower model reg)))

  -- An effort that is passed on was asked for and is one of the model's.
  abbrev pub Asked : List String → Option String → Option String → Type 0
  Asked allowed effort none = Unit
  Asked allowed effort (some passed) = (effort ≡ some passed) × (contains passed allowed ≡ true)

  -- The efforts of a model begin with "none".
  abbrev FirstIsNone : List String → Type 0
  FirstIsNone efforts = first_or_none efforts ≡ "none"

  heuristic_efforts_for-FirstIsNone :
      (model : String) → FirstIsNone (heuristic_efforts_for lower model)
  unfolding heuristic_efforts_for first_or_none
  heuristic_efforts_for-FirstIsNone model =
      let id = lower model in
      if-holds FirstIsNone (is_gpt id) _ _ (λ e. refl)
        (if-holds FirstIsNone (includes "claude" id) _ _ (λ e. refl)
          (if-holds FirstIsNone (glm_opencode_uses_variants lower model) _ _ (λ e. refl)
            (if-holds FirstIsNone (includes "glm-" id) _ _ (λ e. refl) refl)))

  opencode_efforts_for-FirstIsNone :
      (model : String) (reg : Variants) → FirstIsNone (opencode_efforts_for lower model reg)
  unfolding opencode_efforts_for first_or_none
  opencode_efforts_for-FirstIsNone model reg = real (opencode_variants_for lower model reg)
    where
      real :
          (found : Option (List String))
          → FirstIsNone (real_or lower found (heuristic_efforts_for lower model))
      real none = heuristic_efforts_for-FirstIsNone model
      real (some []) = heuristic_efforts_for-FirstIsNone model
      real (some (v ∷ variants)) = refl

  -- What stands in either field is the effort selected, and that is not "none".
  abbrev Passed : String → Option String → Type 0
  Passed selected none = Unit
  Passed selected (some passed) = (passed ≡ selected) × ((selected == "none") ≡ false)

  abbrev PassesOn : String → AgentConfig → Type 0
  PassesOn selected c = Passed selected c.variant × Passed selected c.reasoning_effort

  config_for-PassesOn :
      (model : String) (reg : Variants) (selected : String)
      → PassesOn selected (config_for model reg selected)
  unfolding config_for
  config_for-PassesOn model reg selected = elim (Bool-cases (selected == "none")) [
    | inl e ↦ rw e (tt, tt)
    | inr e ↦ rw e (
        if-holds (PassesOn selected) (has_variant (opencode_variants_for lower model reg) selected)
          _ _ (λ k. ((refl, e), tt))
          (if-holds (PassesOn selected) (is_gpt (lower model)) _ _ (λ k. (tt, (refl, e)))
            (if-holds (PassesOn selected) (includes "claude" (lower model)) _ _ (λ k. (tt, tt))
              (if-holds (PassesOn selected) (glm_opencode_uses_variants lower model) _ _
                (λ k. ((refl, e), tt))
                (if-holds (PassesOn selected) (includes "glm-" (lower model)) _ _ (λ k. (tt, tt))
                  (tt, tt))))))
  ]

  selected_of-Asked :
      (effort : Option String) (allowed : List String)
      → first_or_none allowed ≡ "none"
      → (selected_of effort allowed == "none") ≡ false
      → Asked allowed effort (some (selected_of effort allowed))
  unfolding selected_of
  selected_of-Asked none allowed first = λ h. refuted allowed first h
  selected_of-Asked (some effort) allowed first =
      if-holds (λ x. (x == "none") ≡ false → Asked allowed (some effort) (some x))
        (not (effort == "") && contains effort allowed) effort (first_or_none allowed)
        (λ e h. (refl, ground arith)) (λ h. refuted allowed first h)

  field-Asked :
      (effort : Option String) (allowed : List String) (field : Option String)
      → first_or_none allowed ≡ "none"
      → Passed (selected_of effort allowed) field
      → Asked allowed effort field
  field-Asked effort allowed none first p = tt
  field-Asked effort allowed (some passed) first (same, named) =
      subst (λ x. Asked allowed effort (some x)) (sym same)
        (selected_of-Asked effort allowed first named)

  abbrev pub Tells : List String → Option String → Option AgentConfig → Type 0
  Tells allowed effort none = Unit
  Tells allowed effort (some c) =
      Asked allowed effort c.variant × Asked allowed effort c.reasoning_effort

  -- A configuration names an effort, as a variant or as the effort of reasoning, only where that very
  -- effort was asked for and is one of the model's: those learned from opencode, or those of its family.
  pub build_opencode_agent_config-Tells :
      (model : String) (effort : Option String) (reg : Variants)
      → Tells
          (opencode_efforts_for lower model reg)
          effort
          (build_opencode_agent_config (some model) effort reg)
  unfolding build_opencode_agent_config
  build_opencode_agent_config-Tells model effort reg =
      let allowed = opencode_efforts_for lower model reg in
      let first = opencode_efforts_for-FirstIsNone model reg in
      let (v, r) = config_for-PassesOn model reg (selected_of effort allowed) in
      if-holds (Tells allowed effort) (model == "") none _ (λ e. tt)
        (
          field-Asked effort allowed (config_for model reg (selected_of effort allowed)).variant
              first v,
          field-Asked effort allowed
              (config_for model reg (selected_of effort allowed)).reasoning_effort first r,
        )
