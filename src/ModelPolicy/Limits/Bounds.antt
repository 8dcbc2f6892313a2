-- ===== src/ModelPolicy/Limits/Bounds.antt =====
-- What is answered for a model lies within bounds, and every name is read to its end.
use Prim.Native.String.{String}
use mathlib.Core.List.{List}
use the_dudes_daemon.Base.{
  ℕ, zero, suc, ◌≤◌, ◌<◌, ◌≡◌, inl, inr, refl, ap, Bool, true, false, Option, none, some, arith,
  if◌then◌else◌, ◌==◌, comparable_string, comparable_nat, lookup, All, Bool-cases, ◌>>=◌,
}
use the_dudes_daemon.ModelPolicy.Names.{strip_effort, undated, is_1m, is_grok4, after_slash, chars}
use the_dudes_daemon.ModelPolicy.Limits.{
  model_context_limits, or_else, or_default, named_limit, lookup_from, lookup_context_limit,
  context_limit_for,
}
use the_dudes_daemon.ModelPolicy.Names.Shorter.{chars-strip_effort, chars-after_slash}

abbrev InRange : ℕ → Type 0
InRange n = (128000 ≤ n) × (n ≤ 1048575)

-- If it is known it lies in the range.
abbrev Ranged : Option ℕ → Type 0
Ranged none = Unit
Ranged (some n) = InRange n

lookup-Ranged :
    (k : String) (m : List (String × ℕ))
    → All (λ (e : String × ℕ). InRange e.1) m
    → Ranged (lookup k m)
lookup-Ranged k List.[] h = tt
lookup-Ranged k (List.◌∷◌ (j, n) m) h = elim (Bool-cases (j == k)) [
  | inl e ↦ rw e h.0
  | inr e ↦ rw e (lookup-Ranged k m h.1)
]

table-InRange : All (λ (e : String × ℕ). InRange e.1) model_context_limits
table-InRange = omega arith

or_else-Ranged : (a b : Option ℕ) → Ranged a → Ranged b → Ranged (or_else a b)
or_else-Ranged none b h k = k
or_else-Ranged (some n) b h k = h

if-Ranged : (b : Bool) (x y : Option ℕ) → Ranged x → Ranged y → Ranged (if b then x else y)
if-Ranged true x y h k = h
if-Ranged false x y h k = k

module _ (trim lower : String → String) where
  named_limit-Ranged : (base : String) → Ranged (named_limit trim lower base)
  unfolding named_limit
  named_limit-Ranged base =
      or_else-Ranged (lookup base model_context_limits) _
        (lookup-Ranged base model_context_limits table-InRange)
        (or_else-Ranged _ _
          (if-Ranged (undated base == base) _ _ tt
            (lookup-Ranged (undated base) model_context_limits table-InRange))
          (if-Ranged (is_grok4 (lower base)) _ _ (omega arith) tt))

  lookup_from-Ranged : (fuel : ℕ) (model : String) → Ranged (lookup_from trim lower fuel model)
  unfolding lookup_from
  lookup_from-Ranged zero model = tt
  lookup_from-Ranged (suc fuel) model =
      let base = strip_effort (trim model) in
      if-Ranged (trim model == "") _ _ tt (
        if-Ranged (is_1m base) _ _ (omega arith) (
          or_else-Ranged (named_limit trim lower base) _ (named_limit-Ranged base)
            (inner (after_slash base) (λ rest. lookup_from-Ranged fuel rest))))
    where
      inner :
          (o : Option String)
          → ((rest : String) → Ranged (lookup_from trim lower fuel rest))
          → Ranged (o >>= λ rest. lookup_from trim lower fuel rest)
      inner none h = tt
      inner (some rest) h = h rest

  -- Whatever the model, the context window answered is between 128,000 and 1,048,576 tokens.
  pub context_limit_for-InRange :
      (model : Option String)
      → (128000 ≤ context_limit_for trim lower model)
        × (context_limit_for trim lower model < 1048576)
  unfolding context_limit_for or_default lookup_context_limit
  context_limit_for-InRange none = omega arith
  context_limit_for-InRange (some model) =
      known (lookup_from trim lower (suc (chars model)) model)
        (lookup_from-Ranged (suc (chars model)) model)
    where
      known : (o : Option ℕ) → Ranged o → (128000 ≤ or_default o) × (or_default o < 1048576)
      known none h = omega arith
      known (some n) h = omega arith

  -- Where `trim` makes no name longer, steps beyond the number of characters of the name change nothing:
  -- the look-up goes through all parts of the name.
  pub lookup_from-enough :
      ((s : String) → chars (trim s) ≤ chars s)
      → (f g : ℕ) (model : String) → chars model < f
      → chars model < g
      → lookup_from trim lower f model ≡ lookup_from trim lower g model
  unfolding lookup_from
  lookup_from-enough shrinks zero g model h k = absurd (omega arith)
  lookup_from-enough shrinks (suc f) zero model h k = absurd (omega arith)
  lookup_from-enough shrinks (suc f) (suc g) model h k =
      ap
        (λ o.
          if trim model == ""
          then none
          else if is_1m (strip_effort (trim model))
          then some 1000000
          else or_else (named_limit trim lower (strip_effort (trim model))) o)
        (inner (λ rest a b. lookup_from-enough shrinks f g rest a b)
          (after_slash (strip_effort (trim model))) refl)
    where
      inner :
          ((rest : String)
            → chars rest < f
            → chars rest < g
            → lookup_from trim lower f rest ≡ lookup_from trim lower g rest)
          → (o : Option String) → after_slash (strip_effort (trim model)) ≡ o
          → (o >>= λ rest. lookup_from trim lower f rest)
            ≡ (o >>= λ rest. lookup_from trim lower g rest)
      inner step none e = refl
      inner step (some rest) e =
          let shorter = chars-after_slash (strip_effort (trim model)) rest e in
          let stripped = chars-strip_effort (trim model) in
          let trimmed = shrinks model in step rest (omega arith) (omega arith)
