-- ===== src/Principal/Identity.antt =====
-- Which deliveries may share a turn.
use Prim.Native.String.{String}
use the_dudes_daemon.Base.{
  ◌≡◌, ◌↔◌, refl, ap, Bool, true, Option, none, some, arith, comparable_string, ◌==◌,
}
use the_dudes_daemon.Principal.{
  Principal, same_option, same_bool, same_sender_type, same_origin, same_sender,
  same_turn_principal,
}

-- A test that decides equality.
abbrev Decides : {A : Type 0} → (A → A → Bool) → Type 0
Decides {A} beq = (a b : A) → (beq a b ≡ true) ↔ (a ≡ b)

same_option-Decides : {A : Type 0} (beq : A → A → Bool) → Decides beq → Decides (same_option beq)
same_option-Decides beq d none none = ground arith
same_option-Decides beq d none (some b) = ground arith
same_option-Decides beq d (some a) none = ground arith
same_option-Decides beq d (some a) (some b) = (λ h. ap some ((d a b).0 h), λ e. (d a b).1 (cc))

same_bool-Decides : Decides same_bool
same_bool-Decides a b = ground arith

same_sender_type-Decides : Decides same_sender_type
same_sender_type-Decides a b = ground arith

same_origin-Decides : Decides same_origin
same_origin-Decides a b = ground arith

same_sender-Decides : Decides same_sender
same_sender-Decides s t = ground (
  arith,
  same_sender_type-Decides s.type t.type,
  comparable_string.agree_iff s.id t.id,
  same_option-Decides (λ (x : String) y. x == y) (λ x y. comparable_string.agree_iff x y) s.name
      t.name,
)

-- Two deliveries share a turn exactly when both carry provenance and it is the same in every field:
-- flag, origin, and the sender's type, id and name.
pub same_turn_principal_iff :
    (p q : Option Principal)
    → (same_turn_principal p q ≡ true) ↔ ((a : Principal) × (p ≡ some a) × (q ≡ some a))
unfolding same_turn_principal
same_turn_principal_iff none q = (λ h. cc, λ (a, p, _). cc)
same_turn_principal_iff (some a) none = (λ h. cc, λ (b, _, q). cc)
same_turn_principal_iff (some a) (some b) =
    let owner = same_option-Decides same_bool same_bool-Decides a.is_agent_owner b.is_agent_owner in
    let origin = same_option-Decides same_origin same_origin-Decides a.origin b.origin in
    let from = same_option-Decides same_sender same_sender-Decides a.from b.from in
    (
      λ h. (a, refl, ground (arith, owner, origin, from)),
      λ (c, p, q). ground (arith, owner, origin, from),
    )
