-- ===== src/Base/Texts.antt =====
-- Texts.
use Prim.Native.String.{String, [], ◌∷◌}
use text.Mathlib.Text.{starts_with}
use mathlib.Core.Bool.{Bool, false, ◌||◌}

-- `s.includes(needle)`, for a needle that is not empty.
unfoldable pub includes : String → String → Bool
includes needle [] = false
includes needle (c ∷ s) = starts_with (c ∷ s) needle || includes needle s
