-- ===== src/SuitePark/Tree/Walk.antt =====
-- The walk below a process ends, and finds the processes below it.
use the_dudes_daemon.Base.{
  ℕ, zero, suc, ◌+◌, ◌≤◌, ◌<◌, ◌≡◌, ◌↔◌, inl, inr, refl, true, ◌||◌, some, List, [], ◌∷◌, ◌++◌,
  arith, contains, contains-append, Bool-cases, comparable_nat, nat_beq_iff, subst,
}
use the_dudes_daemon.SuitePark.Tree.{Children, kids, push_all, descend, descendants_of}

-- A child of the process, or a child of a process below it.
pub data Below (children : Children) (root : ℕ) : ℕ → Type 0 where
  child : (p : ℕ) → contains p (kids children root) ≡ true → Below children root p
  deeper :
      (q p : ℕ)
      → Below children root q
      → contains p (kids children q) ≡ true
      → Below children root p

abbrev pub weigh : (ℕ → ℕ) → List ℕ → ℕ
weigh w [] = 0
weigh w (p ∷ pids) = w p + weigh w pids

-- Each process weighs more than its children together, as it does by the number of the processes
-- below it where no process is below itself.
abbrev pub Falls : (ℕ → ℕ) → Children → Type 0
Falls w children = (p : ℕ) → weigh w (kids children p) < w p

weigh-push_all :
    (w : ℕ → ℕ) (pids stack : List ℕ) → weigh w (push_all pids stack) ≡ weigh w pids + weigh w stack
unfolding push_all
weigh-push_all w [] stack = omega arith
weigh-push_all w (p ∷ pids) stack = omega (arith, weigh-push_all w pids (p ∷ stack))

contains-push_all :
    (p : ℕ) (pids stack : List ℕ)
    → contains p (push_all pids stack) ≡ (contains p pids || contains p stack)
unfolding push_all
contains-push_all p [] stack = refl
contains-push_all p (x ∷ pids) stack = ground (arith, contains-push_all p pids (x ∷ stack))

descend-total :
    (w : ℕ → ℕ) (children : Children) (falls : Falls w children) (fuel : ℕ) (stack out : List ℕ)
    → weigh w stack ≤ fuel
    → (found : List ℕ) × (descend fuel children stack out ≡ some found)
unfolding descend
descend-total w children falls fuel [] out h = (out, refl)
descend-total w children falls zero (p ∷ stack) out h = absurd (omega (arith, falls p))
descend-total w children falls (suc fuel) (p ∷ stack) out h =
    descend-total w children falls fuel (push_all (kids children p) stack) (out ++ p ∷ [])
      (omega (arith, falls p, weigh-push_all w (kids children p) stack))

module _ (children : Children) (root : ℕ) where
  abbrev AllBelow : List ℕ → Type 0
  AllBelow pids = (p : ℕ) → contains p pids ≡ true → Below children root p

  AllBelow-append : (xs ys : List ℕ) → AllBelow xs → AllBelow ys → AllBelow (xs ++ ys)
  AllBelow-append xs ys f g p h = elim (Bool-cases (contains p xs)) [
    | inl e ↦ f p e
    | inr e ↦ g p (ground (arith, contains-append p xs ys))
  ]

  AllBelow-push_all : (xs ys : List ℕ) → AllBelow xs → AllBelow ys → AllBelow (push_all xs ys)
  AllBelow-push_all xs ys f g p h = elim (Bool-cases (contains p xs)) [
    | inl e ↦ f p e
    | inr e ↦ g p (ground (arith, contains-push_all p xs ys))
  ]

  AllBelow-one : (q : ℕ) → Below children root q → AllBelow (q ∷ [])
  AllBelow-one q b p h = subst (λ x. Below children root x) (ground (arith, nat_beq_iff q p)) b

  descend-AllBelow :
      (fuel : ℕ) (stack out found : List ℕ)
      → AllBelow stack
      → AllBelow out
      → descend fuel children stack out ≡ some found
      → AllBelow found
  unfolding descend
  descend-AllBelow fuel [] out found s o e = subst AllBelow (cc) o
  descend-AllBelow zero (p ∷ stack) out found s o e = cc
  descend-AllBelow (suc fuel) (p ∷ stack) out found s o e =
      let b : Below children root p = s p (ground (arith, nat_beq_iff p p)) in
      descend-AllBelow fuel (push_all (kids children p) stack) (out ++ p ∷ []) found
        (AllBelow-push_all (kids children p) stack (λ q h. deeper p q b h)
          (λ q h. s q (ground arith)))
        (AllBelow-append out (p ∷ []) o (AllBelow-one p b)) e

-- The children of a process that was found wait on the stack or were found.
abbrev Waiting : Children → List ℕ → List ℕ → Type 0
Waiting children stack out =
    (q p : ℕ)
    → contains q out ≡ true
    → contains p (kids children q) ≡ true
    → (contains p out || contains p stack) ≡ true

Waiting-step :
    (children : Children) (x : ℕ) (stack out : List ℕ)
    → Waiting children (x ∷ stack) out
    → Waiting children (push_all (kids children x) stack) (out ++ x ∷ [])
Waiting-step children x stack out keep q p h k = elim (Bool-cases (contains q out)) [
  | inl e ↦ ground (
    arith,
    keep q p e k,
    contains-append p out (x ∷ []),
    contains-push_all p (kids children x) stack,
  )
  | inr e ↦ ground (
    arith,
    contains-append q out (x ∷ []),
    contains-append p out (x ∷ []),
    nat_beq_iff x q,
    contains-push_all p (kids children x) stack,
  )
]

descend-keeps :
    (children : Children) (fuel : ℕ) (stack out found : List ℕ) (p : ℕ)
    → descend fuel children stack out ≡ some found
    → (contains p out || contains p stack) ≡ true
    → contains p found ≡ true
unfolding descend
descend-keeps children fuel [] out found p e h = ground arith
descend-keeps children zero (x ∷ stack) out found p e h = cc
descend-keeps children (suc fuel) (x ∷ stack) out found p e h =
    descend-keeps children fuel (push_all (kids children x) stack) (out ++ x ∷ []) found p e
      (ground (arith, contains-append p out (x ∷ []), contains-push_all p (kids children x) stack))

descend-closed :
    (children : Children) (fuel : ℕ) (stack out found : List ℕ)
    → Waiting children stack out
    → descend fuel children stack out ≡ some found
    → Waiting children [] found
unfolding descend
descend-closed children fuel [] out found keep e =
    subst (λ (l : List ℕ). Waiting children [] l) (cc) keep
descend-closed children zero (x ∷ stack) out found keep e = cc
descend-closed children (suc fuel) (x ∷ stack) out found keep e =
    descend-closed children fuel (push_all (kids children x) stack) (out ++ x ∷ []) found
      (Waiting-step children x stack out keep) e

Below-found :
    (children : Children) (root : ℕ) (found : List ℕ)
    → ((p : ℕ) → contains p (kids children root) ≡ true → contains p found ≡ true)
    → Waiting children [] found
    → (p : ℕ) → Below children root p
    → contains p found ≡ true
Below-found children root found first closed _ (child p h) = first p h
Below-found children root found first closed _ (deeper q p b h) =
    let i = Below-found children root found first closed q b in ground (arith, closed q p i h)

pub descendants_of_iff :
    (fuel root : ℕ) (children : Children) {found : List ℕ}
    → descendants_of fuel root children ≡ some found
    → (p : ℕ) → (contains p found ≡ true) ↔ Below children root p
unfolding descendants_of
descendants_of_iff fuel root children {found} e p = (
  descend-AllBelow children root fuel start [] found
      (AllBelow-push_all children root (kids children root) [] (λ q h. child q h) (λ q h. cc))
      (λ q h. cc) e p,
  Below-found children root found
      (λ q h.
        descend-keeps children fuel start [] found q e
          (ground (arith, contains-push_all q (kids children root) [])))
      (descend-closed children fuel start [] found (λ q r h k. cc) e) p,
)
  where
    start : List ℕ
    start = push_all (kids children root) []

-- Where each process weighs more than its children together, a walk below one that is given as many
-- steps as it weighs ends, and it finds exactly the processes below it.
pub descendants_of_total :
    (w : ℕ → ℕ) (children : Children) (falls : Falls w children) (fuel root : ℕ)
    → w root ≤ fuel
    → (found : List ℕ) × (descendants_of fuel root children ≡ some found)
      × ((p : ℕ) → (contains p found ≡ true) ↔ Below children root p)
unfolding descendants_of
descendants_of_total w children falls fuel root h =
    let (found, e) =
      descend-total w children falls fuel (push_all (kids children root) []) []
        (omega (arith, falls root, weigh-push_all w (kids children root) [])) in
    (found, e, descendants_of_iff fuel root children e)
