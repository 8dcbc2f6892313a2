-- ===== src/ModelPolicy/Limits.antt =====
-- src/runners/model-policy.ts: the context window of a model.
pub mod Bounds
use Prim.Native.String.{String}
use the_dudes_daemon.Base.{
  ℕ, zero, suc, Bool, true, false, not, ◌&&◌, ◌||◌, Option, none, some, List, [], ◌∷◌,
  if◌then◌else◌, ◌==◌, comparable_string, lookup, ltb, ◌>>=◌,
}
use the_dudes_daemon.ModelPolicy.Names.{strip_effort, undated, is_1m, is_grok4, after_slash, chars}

abbrev pub model_context_limits : List (String × ℕ)
model_context_limits =
    ("opus", 1000000)
    ∷ ("opusplan", 1000000)
    ∷ ("haiku", 200000)
    ∷ ("sonnet", 1000000)
    ∷ ("claude-sonnet-5", 1000000)
    ∷ ("fable", 1000000)
    ∷ ("claude-fable-5", 1000000)
    ∷ ("claude-opus-4-8", 1000000)
    ∷ ("claude-opus-4-7", 1000000)
    ∷ ("claude-opus-4-6", 1000000)
    ∷ ("claude-opus-4-5", 200000)
    ∷ ("claude-sonnet-4-6", 1000000)
    ∷ ("claude-sonnet-4-5", 200000)
    ∷ ("claude-haiku-4-5", 200000)
    ∷ ("claude-opus-4-1", 200000)
    ∷ ("claude-opus-4", 200000)
    ∷ ("claude-sonnet-4", 200000)
    ∷ ("claude-3-7-sonnet", 200000)
    ∷ ("claude-3-5-sonnet", 200000)
    ∷ ("claude-3-5-haiku", 200000)
    ∷ ("gemini-3-pro", 1000000)
    ∷ ("gemini-3-pro-preview", 1000000)
    ∷ ("gemini-3-flash", 1000000)
    ∷ ("gemini-3-flash-preview", 1000000)
    ∷ ("gemini-3.1-flash-lite", 1000000)
    ∷ ("gemini-3.1-flash-lite-preview", 1000000)
    ∷ ("gemini-2.5-flash", 1000000)
    ∷ ("gemini-2.5-flash-lite", 1000000)
    ∷ ("gemini-2.5-pro", 1000000)
    ∷ ("gpt-5.6", 272000)
    ∷ ("gpt-5.6-sol", 272000)
    ∷ ("gpt-5.6-terra", 272000)
    ∷ ("gpt-5.6-luna", 272000)
    ∷ ("gpt-5.5", 272000)
    ∷ ("gpt-5.4", 272000)
    ∷ ("gpt-5.4-mini", 272000)
    ∷ ("gpt-5.4-nano", 400000)
    ∷ ("gpt-5.3-codex", 400000)
    ∷ ("gpt-5.2-codex", 400000)
    ∷ ("gpt-5.2", 400000)
    ∷ ("gpt-5-codex", 400000)
    ∷ ("gpt-5", 400000)
    ∷ ("o4-mini", 200000)
    ∷ ("o3", 200000)
    ∷ ("gpt-4.1", 1000000)
    ∷ ("zai-coding-plan/glm-4.7", 204800)
    ∷ ("zai-coding-plan/glm-4.5-air", 131072)
    ∷ ("zai-coding-plan/glm-5-turbo", 200000)
    ∷ ("zai-coding-plan/glm-5.1", 200000)
    ∷ ("zai-coding-plan/glm-5.2", 1000000)
    ∷ ("glm-5.2", 1000000)
    ∷ ("accounts/fireworks/routers/glm-5p2-fast", 1048575)
    ∷ ("accounts/fireworks/models/glm-5p2", 1048575)
    ∷ ("deepseek/deepseek-v4-pro", 200000)
    ∷ ("deepseek/deepseek-v4-flash", 200000)
    ∷ ("deepseek/deepseek-chat", 128000)
    ∷ ("grok-4.5", 500000)
    ∷ ("grok-4.6", 500000)
    ∷ ("grok-build", 500000)
    ∷ ("grok-composer-2.5-fast", 500000)
    ∷ []

abbrev pub default_context_limit : ℕ
default_context_limit = 200000

abbrev pub or_else : Option ℕ → Option ℕ → Option ℕ
or_else none later = later
or_else (some n) later = some n

pub or_default : Option ℕ → ℕ
or_default none = default_context_limit
or_default (some n) = n

or_blank : Option String → String
or_blank none = String.[]
or_blank (some s) = s

positive : Option ℕ → Option ℕ
positive none = none
positive (some n) = if ltb 0 n then some n else none

module _ (trim lower : String → String) where
  -- The entry for the name, for the name without its date, and for the family of grok-4.
  named_limit : String → Option ℕ
  unfolding undated is_grok4
  named_limit base = or_else (lookup base model_context_limits) (
      or_else (if undated base == base then none else lookup (undated base) model_context_limits)
        (if is_grok4 (lower base) then some 500000 else none))

  -- What `none` stands for is no limit known, and, at the end of the fuel, nothing.
  pub lookup_from : ℕ → String → Option ℕ
  unfolding strip_effort is_1m after_slash named_limit
  lookup_from zero model = none
  lookup_from (suc fuel) model =
      let raw = trim model in
      let base = strip_effort raw in
      let inner = after_slash base >>= λ rest. lookup_from fuel rest in
      if raw == ""
      then none
      else if is_1m base
      then some 1000000
      else or_else (named_limit base) inner

  -- A model's name has at most as many parts as characters.
  pub lookup_context_limit : Option String → Option ℕ
  unfolding lookup_from chars
  lookup_context_limit none = none
  lookup_context_limit (some model) = lookup_from (suc (chars model)) model

  pub context_limit_for : Option String → ℕ
  unfolding or_default lookup_context_limit
  context_limit_for model = or_default (lookup_context_limit model)

  pub resolve_context_limit_known : Option String → Option String → Option ℕ → Option ℕ
  unfolding or_blank positive lookup_context_limit
  resolve_context_limit_known configured_model resolved_model catalog_limit =
      let configured = strip_effort (trim (or_blank configured_model)) in
      if is_1m configured
      then some 1000000
      else or_else (positive catalog_limit)
          (or_else (lookup_context_limit resolved_model) (lookup_context_limit (some configured)))

  pub resolve_context_limit : Option String → Option String → Option ℕ → ℕ
  unfolding or_default resolve_context_limit_known
  resolve_context_limit configured_model resolved_model catalog_limit =
      or_default (resolve_context_limit_known configured_model resolved_model catalog_limit)
