-- ===== src/ModelPolicy/Names/Shorter.antt =====
-- What is taken off a name makes it shorter.
use Prim.Native.Char.{code}
use Prim.Native.String.{String, [], ◌∷◌}
use the_dudes_daemon.Base.{◌≤◌, ◌<◌, ◌≡◌, inl, inr, some, arith, ◌==◌, comparable_nat, Bool-cases}
use the_dudes_daemon.ModelPolicy.Names.{
  is_effort_suffix, strip_effort, split_slash, after_slash, chars,
}

pub chars-strip_effort : (s : String) → chars (strip_effort s) ≤ chars s
unfolding chars strip_effort
chars-strip_effort [] = omega arith
chars-strip_effort (c ∷ s) = elim (Bool-cases (is_effort_suffix (c ∷ s))) [
  | inl e ↦ rw e (omega arith)
  | inr e ↦ rw e (omega (arith, chars-strip_effort s))
]

chars-split_slash : (s rest : String) → split_slash s ≡ some rest → chars rest < chars s
unfolding chars split_slash
chars-split_slash [] rest h = cc
chars-split_slash (c ∷ s) rest h = elim (Bool-cases (code c == 47)) [
  | inl e ↦ let same : s ≡ rest = ground (arith, h) in rw (← same) (omega arith)
  | inr e ↦ omega (arith, chars-split_slash s rest (ground (arith, h)))
]

pub chars-after_slash : (s rest : String) → after_slash s ≡ some rest → chars rest < chars s
unfolding after_slash chars
chars-after_slash [] rest h = cc
chars-after_slash (c ∷ s) rest h = elim (Bool-cases (code c == 47)) [
  | inl e ↦ ground (arith, h)
  | inr e ↦ omega (arith, chars-split_slash s rest (ground (arith, h)))
]
