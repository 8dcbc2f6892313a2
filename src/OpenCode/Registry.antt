-- ===== src/OpenCode/Registry.antt =====
-- src/runners/opencode-effort.ts: the registry grows by what a scan has seen.
use Prim.Native.String.{String}
use the_dudes_daemon.Base.{
  ◌≤◌, ◌≡◌, refl, ap, ◌∙◌, Bool, false, List, [], ◌∷◌, arith, ◌==◌, comparable_string, lookup,
  lookup-insert, lookup-delete, any, length, keep_last_all,
}
use the_dudes_daemon.OpenCode.{
  ScannedModel, Variants, registry_cap, learn, learn_all, register_opencode_variants,
  opencode_variants_for,
}

module _ (lower : String → String) where
  -- The model is among those scanned, in whatever case.
  abbrev pub scanned : String → List ScannedModel → Bool
  scanned key models = any (λ (m : ScannedModel). lower m.id == key) models

  lookup-learn :
      (key other : String) (variants : List String) (reg : Variants)
      → (key == other) ≡ false
      → lookup other (learn key variants reg) ≡ lookup other reg
  lookup-learn key other [] reg h = lookup-delete key other reg ∙ rw h refl
  lookup-learn key other (v ∷ variants) reg h =
      lookup-insert key other (v ∷ variants) reg ∙ rw h refl

  lookup-learn_all :
      (models : List ScannedModel) (reg : Variants) (key : String)
      → scanned key models ≡ false
      → lookup key (learn_all lower models reg) ≡ lookup key reg
  unfolding learn_all
  lookup-learn_all [] reg key h = refl
  lookup-learn_all (m ∷ models) reg key h =
      lookup-learn_all models (learn (lower m.id) m.variants reg) key (ground (arith, h))
      ∙ lookup-learn (lower m.id) key m.variants reg (ground (arith, h))

  -- While the registry does not exceed its cap, a scan leaves what is known of every model that it did not see.
  pub opencode_variants_for-register :
      (models : List ScannedModel) (reg : Variants) (model : String)
      → scanned (lower model) models ≡ false
      → length (learn_all lower models reg) ≤ registry_cap
      → opencode_variants_for lower model (register_opencode_variants lower models reg)
        ≡ opencode_variants_for lower model reg
  unfolding opencode_variants_for register_opencode_variants
  opencode_variants_for-register models reg model unseen small =
      ap (lookup (lower model)) (keep_last_all registry_cap (learn_all lower models reg) small)
      ∙ lookup-learn_all models reg (lower model) unseen
