-- ===== src/ModelPolicy/Efforts/Accepted.antt =====
-- No command-line agent is given an effort that it refuses.
use Prim.Native.String.{String}
use the_dudes_daemon.Base.{
  ◌≡◌, refl, Bool, true, false, Option, none, some, List, [], ◌∷◌, arith, if◌then◌else◌, ◌==◌,
  comparable_string, contains, if-holds,
}
use the_dudes_daemon.ModelPolicy.Efforts.{
  codex_efforts, codex_effort, qwen_effort_options, qwen_reasoning_effort, grok_wire,
  grok_wire_xhigh, grok_supports_xhigh, grok_wire_efforts, normalize_grok_effort,
  grok_thinking_effort, lifted_effort,
}

-- No effort is passed, or one of those listed.
abbrev pub OneOf : List String → Option String → Type 0
OneOf efforts none = Unit
OneOf efforts (some effort) = contains effort efforts ≡ true

longer :
    (b : Bool) (effort : String)
    → contains effort grok_wire ≡ true
    → contains effort (if b then grok_wire_xhigh else grok_wire) ≡ true
longer true effort h = ground (arith, h)
longer false effort h = h

module _ (trim lower : String → String) where
  normalize_grok_effort-OneOf :
      (effort model runner : Option String)
      → OneOf
          (grok_wire_efforts trim lower model runner)
          (normalize_grok_effort trim lower effort model runner)
  unfolding normalize_grok_effort grok_wire_efforts
  normalize_grok_effort-OneOf none model runner = tt
  normalize_grok_effort-OneOf (some effort) model runner =
      let P = OneOf (if xhigh then grok_wire_xhigh else grok_wire) in
      if-holds P (effort == "") none _ (λ e. tt)
        (if-holds P (contains effort grok_wire) (some effort) _ (λ e. longer xhigh effort e)
          (if-holds P (contains effort ("none" ∷ "minimal" ∷ "off" ∷ [])) (some "low") _
            (λ e. longer xhigh "low" refl)
            (if-holds P (contains effort ("xhigh" ∷ "max" ∷ []))
              (if xhigh then some "xhigh" else some "high") (some "medium") (λ e. strong xhigh)
              (longer xhigh "medium" refl))))
    where
      xhigh : Bool
      xhigh = grok_supports_xhigh trim lower model runner

      strong :
          (b : Bool)
          → OneOf
              (if b then grok_wire_xhigh else grok_wire)
              (if b then some "xhigh" else some "high")
      strong true = refl
      strong false = refl

  codex_effort-OneOf : (level : String) → contains (codex_effort level) codex_efforts ≡ true
  unfolding codex_effort
  codex_effort-OneOf level =
      if-holds (λ e. contains e codex_efforts ≡ true) (contains level codex_efforts) level "xhigh"
        (λ e. e) refl

  qwen_reasoning_effort-OneOf :
      (level : Option String) → OneOf qwen_effort_options (qwen_reasoning_effort level)
  unfolding qwen_reasoning_effort
  qwen_reasoning_effort-OneOf none = tt
  qwen_reasoning_effort-OneOf (some level) =
      let P = OneOf qwen_effort_options in
      if-holds P (level == "") none _ (λ e. tt)
        (if-holds P (contains level ("none" ∷ "minimal" ∷ [])) (some "none") _ (λ e. refl)
          (if-holds P (contains level ("low" ∷ "medium" ∷ "high" ∷ "xhigh" ∷ "max" ∷ []))
            (some level) none (λ e. ground (arith, e)) tt))

  -- Whatever effort is asked for, and whether thinking is collected or not, Grok is given none or one
  -- that it accepts for the model and the runner; Codex one of its four; and Qwen none or one of
  -- those that it offers.
  pub efforts-OneOf :
      (effort model runner : Option String) (level : String) (collect_thinking for_compact : Bool)
      → OneOf
          (grok_wire_efforts trim lower model runner)
          (grok_thinking_effort trim lower effort collect_thinking for_compact model runner)
        × (contains (codex_effort level) codex_efforts ≡ true)
        × OneOf qwen_effort_options (qwen_reasoning_effort effort)
  unfolding grok_thinking_effort
  efforts-OneOf effort model runner level collect_thinking for_compact = (
    normalize_grok_effort-OneOf (lifted_effort effort collect_thinking for_compact) model runner,
    codex_effort-OneOf level,
    qwen_reasoning_effort-OneOf effort,
  )
