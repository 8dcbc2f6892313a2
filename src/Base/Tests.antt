-- ===== src/Base/Tests.antt =====
-- Boolean tests on numbers and on values with a decided equality, and the conditional.
use Prim.Native.Nat.{ℕ, ◌≤◌, ◌<◌, compare, Ordering}
use Prim.Native.String.{String}
use mathlib.Core.Path.{◌≡◌, refl}
use mathlib.Core.Logic.{◌↔◌, ◌⊎◌, inl, inr}
use mathlib.Core.Bool.{Bool, true, false}
use mathlib.Core.Option.{Option, none, some}
use native.Mathlib.Omega.{arith}
use text.Mathlib.Text.{◌==◌ as str_beq}
use text.Mathlib.TextEquality.{eq_iff}

abbrev pub ltb : ℕ → ℕ → Bool
ltb a b = elim (compare a b) [ Ordering.lt ↦ true | _ ↦ false ]

abbrev pub leb : ℕ → ℕ → Bool
leb a b = elim (compare a b) [ Ordering.gt ↦ false | _ ↦ true ]

abbrev pub nat_beq : ℕ → ℕ → Bool
nat_beq a b = elim (compare a b) [ Ordering.eq ↦ true | _ ↦ false ]

infix 1 if◌then◌else◌
abbrev pub if◌then◌else◌ {ℓ} : {A : Type ℓ} → Bool → A → A → A
if true then x else y = x
if false then x else y = y

pub ltb→lt : (a b : ℕ) → ltb a b ≡ true → a < b
ltb→lt a b h = ground arith

pub lt→ltb : (a b : ℕ) → a < b → ltb a b ≡ true
lt→ltb a b h = ground arith

pub leb→le : (a b : ℕ) → leb a b ≡ true → a ≤ b
leb→le a b h = ground arith

pub le→leb : (a b : ℕ) → a ≤ b → leb a b ≡ true
le→leb a b h = ground arith

pub nat_beq_iff : (a b : ℕ) → (nat_beq a b ≡ true) ↔ (a ≡ b)
nat_beq_iff a b = ground arith

-- To split on a computed value and keep the equation.
pub Bool-cases : (b : Bool) → (b ≡ true) ⊎ (b ≡ false)
Bool-cases true = inl refl
Bool-cases false = inr refl

pub Option-cases {ℓ} : {A : Type ℓ} (o : Option A) → (o ≡ none) ⊎ ((a : A) × (o ≡ some a))
Option-cases none = inl refl
Option-cases (some a) = inr (a, refl)

-- The types whose values `===` decides.
pub record Comparable {κ} (K : Type κ) : Type κ where
  pub agree : K → K → Bool
  pub agree_iff : (j k : K) → (agree j k ≡ true) ↔ (j ≡ k)

instance abbrev pub comparable_string : Comparable String
comparable_string = record { agree = str_beq; agree_iff = eq_iff }

instance abbrev pub comparable_nat : Comparable ℕ
comparable_nat = record { agree = nat_beq; agree_iff = nat_beq_iff }

-- `j === k`
infix 50 ◌==◌
abbrev pub ◌==◌ {κ} : {K : Type κ} ⦃c : Comparable K⦄ → K → K → Bool
◌==◌ ⦃c⦄ j k = c.agree j k

-- What holds of both branches, of the first where the test succeeds.
pub if-holds {ℓ κ} :
    {A : Type ℓ} (P : A → Type κ) (b : Bool) (x y : A)
    → (b ≡ true → P x)
    → P y
    → P (if b then x else y)
if-holds P true x y h k = h refl
if-holds P false x y h k = k

module _ {ℓ} {A : Type ℓ} (b : Bool) (x y : A) where
  pub if-true : b ≡ true → (if b then x else y) ≡ x
  if-true h = rw h refl

  pub if-false : b ≡ false → (if b then x else y) ≡ y
  if-false h = rw h refl
