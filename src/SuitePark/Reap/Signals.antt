-- ===== src/SuitePark/Reap/Signals.antt =====
-- Whom the reaper signals.
use the_dudes_daemon.Base.{
  ℕ, ◌≡◌, refl, sym, subst, Bool, true, false, ◌&&◌, ◌||◌, List, [], ◌∷◌, arith, All, All-append,
  map, any, contains, comparable_nat, ◌==◌, nat_beq_iff,
}
use the_dudes_daemon.SuitePark.Tree.{Suite}
use the_dudes_daemon.SuitePark.Reap.{
  Signal, sigterm, sigkill, group, process, Call, ReapDeps, ReapResult, Host, kill_tree, push_if,
  living, kill_if, kill_survivors, insist, finish_off, for_each, fresh, reap_suites,
}
use the_dudes_daemon.SuitePark.Reap.Tries.{signals, asked, kill_tree-calls}

-- A property of calls that those to a suite's group, where that may be killed, and to its members
-- have.
abbrev Covers : (Call → Type 0) → Suite → Type 0
Covers P s =
    ((signal : Signal)
      → s.kill_group ≡ true
      → P (record { target = group s.pgid; signal = signal }))
    × ((p : ℕ) (signal : Signal)
        → contains p s.members ≡ true
        → P (record { target = process p; signal = signal }))

module _ {W : Type 0} (deps : ReapDeps W) where
  contains-push_if :
      (p : ℕ) (b : Bool) (x : ℕ) (pids : List ℕ)
      → contains p (push_if deps b x pids) ≡ true
      → (x == p || contains p pids) ≡ true
  contains-push_if p true x pids h = h
  contains-push_if p false x pids h = ground arith

  contains-living :
      (p : ℕ) (pids : List ℕ) (w : W)
      → contains p (living deps pids w).1 ≡ true
      → contains p pids ≡ true
  unfolding living
  contains-living p [] w e = cc
  contains-living p (x ∷ pids) w e =
      let (w1, lives) = deps.alive x w in
      ground
        (arith, contains-push_if p lives x (living deps pids w1).1 e, contains-living p pids w1)

  module _ (P : Call → Type 0) where
    signals-P :
        (s : Suite) (signal : Signal) (pids : List ℕ)
        → Covers P s
        → ((p : ℕ) → contains p pids ≡ true → contains p s.members ≡ true)
        → All P (signals signal pids)
    signals-P s signal [] c sub = tt
    signals-P s signal (x ∷ pids) c sub = (
      c.1 x signal (sub x (ground (arith, nat_beq_iff x x))),
      signals-P s signal pids c (λ p h. sub p (ground arith)),
    )

    asked-P :
        (s : Suite) (signal : Signal) (accepted by_group : Bool)
        → Covers P s
        → s.kill_group ≡ by_group
        → All P (asked by_group s signal accepted)
    asked-P s signal true true c e = (c.0 signal e, tt)
    asked-P s signal false true c e = (c.0 signal e, signals-P s signal s.members c (λ p h. h))
    asked-P s signal accepted false c e = signals-P s signal s.members c (λ p h. h)

    kill_tree-P :
        (s : Suite) (signal : Signal) (h : Host deps)
        → Covers P s
        → All P h.calls
        → All P (kill_tree deps s signal h).calls
    kill_tree-P s signal h c k =
        subst (All P) (sym (kill_tree-calls deps s signal h))
          (All-append P h.calls _ k (asked-P s signal _ s.kill_group c refl))

    kill_if-P :
        (s : Suite) (b : Bool) (p : ℕ) (h : Host deps)
        → Covers P s
        → contains p s.members ≡ true
        → All P h.calls
        → All P (kill_if deps b p h).calls
    unfolding kill_if
    kill_if-P s false p h c i k = k
    kill_if-P s true p h c i k = All-append P h.calls _ k (c.1 p sigkill i, tt)

    kill_survivors-P :
        (s : Suite) (pids : List ℕ) (h : Host deps)
        → Covers P s
        → ((p : ℕ) → contains p pids ≡ true → contains p s.members ≡ true)
        → All P h.calls
        → All P (kill_survivors deps pids h).calls
    unfolding kill_survivors
    kill_survivors-P s [] h c sub k = k
    kill_survivors-P s (x ∷ pids) h c sub k =
        kill_survivors-P s pids _ c (λ p i. sub p (ground arith))
          (kill_if-P s _ x _ c (sub x (ground (arith, nat_beq_iff x x))) k)

    insist-P :
        (s : Suite) (vivos : List ℕ) (h : Host deps)
        → Covers P s
        → ((p : ℕ) → contains p vivos ≡ true → contains p s.members ≡ true)
        → All P h.calls
        → All P (insist deps s vivos h).calls
    unfolding insist
    insist-P s [] h c sub k = k
    insist-P s (x ∷ vivos) h c sub k =
        kill_survivors-P s (x ∷ vivos) (kill_tree deps s sigkill h) c sub
          (kill_tree-P s sigkill h c k)

    finish_off-P :
        (s : Suite) (h : Host deps) → Covers P s → All P h.calls → All P (finish_off deps s h).calls
    unfolding finish_off
    finish_off-P s h c k =
        insist-P s (living deps s.members h.world).1 _ c
          (λ p i. contains-living p s.members h.world i) k

    abbrev CoversAll : List (Suite × ReapResult) → Type 0
    CoversAll list = All (λ (sr : Suite × ReapResult). Covers P sr.0) list

    for_each-P :
        (step : Suite → Host deps → Host deps)
        → ((s : Suite) (h : Host deps) → Covers P s → All P h.calls → All P (step s h).calls)
        → (list : List (Suite × ReapResult)) (w : W) (calls : List Call) → CoversAll list
        → All P calls
        → All P (for_each deps step list w calls).0.1
          × CoversAll (for_each deps step list w calls).1
    unfolding for_each
    for_each-P step keep [] w calls c k = (k, tt)
    for_each-P step keep ((s, r) ∷ list) w calls c k =
        let (done, rest) = for_each-P step keep list _ _ c.1 (keep s _ c.0 k) in (done, (c.0, rest))

    CoversAll-fresh :
        (suites : List Suite) → All (Covers P) suites → CoversAll (map (fresh deps) suites)
    CoversAll-fresh [] c = tt
    CoversAll-fresh (s ∷ suites) c = (c.0, CoversAll-fresh suites c.1)

    reap_suites-P :
        (suites : List Suite) (grace_ms : ℕ) (w : W)
        → All (Covers P) suites
        → All P (reap_suites deps suites grace_ms w).calls
    unfolding reap_suites
    reap_suites-P suites grace_ms w c =
        let (k, rest) =
          for_each-P (λ s. kill_tree deps s sigterm) (λ s h. kill_tree-P s sigterm h)
            (map (fresh deps) suites) w [] (CoversAll-fresh suites c) tt in
        (for_each-P (finish_off deps) finish_off-P _ _ _ rest k).0

-- The call is to the suite's group, where that may be killed, or to one of its members.
abbrev pub may : Call → Suite → Bool
may c s = elim c.target [
  | group pgid ↦ s.kill_group && s.pgid == pgid
  | process pid ↦ contains pid s.members
]

Covers-may :
    (all suites : List Suite)
    → ((c : Call) → any (may c) suites ≡ true → any (may c) all ≡ true)
    → All (Covers (λ c. any (may c) all ≡ true)) suites
Covers-may all [] sub = tt
Covers-may all (s ∷ suites) sub = (
  (
    λ signal e.
        sub (record { target = group s.pgid; signal = signal })
          (ground (arith, nat_beq_iff s.pgid s.pgid)),
    λ p signal e. sub (record { target = process p; signal = signal }) (ground arith),
  ),
  Covers-may all suites (λ c h. sub c (ground arith)),
)

-- Whatever the system answers, each signal that the reaper asks for is to the group of one of the
-- given suites, where that suite may be killed by its group, or to a member of one of them.
pub reap_suites-may :
    {W : Type 0} (deps : ReapDeps W) (suites : List Suite) (grace_ms : ℕ) (w : W)
    → All (λ c. any (may c) suites ≡ true) (reap_suites deps suites grace_ms w).calls
reap_suites-may deps suites grace_ms w =
    reap_suites-P deps (λ c. any (may c) suites ≡ true) suites grace_ms w
      (Covers-may suites suites (λ c h. h))
