-- ===== src/SuitePark/Reap/Tries.antt =====
-- What the reaper asks of the system to kill one suite.
use mathlib.Core.List.{append_assoc, append-nil}
use the_dudes_daemon.Base.{
  ℕ, ◌≡◌, sym, ◌∙◌, Bool, true, false, List, [], ◌∷◌, ◌++◌, if◌then◌else◌, map, comparable_nat,
}
use the_dudes_daemon.SuitePark.Tree.{Suite}
use the_dudes_daemon.SuitePark.Reap.{
  Signal, group, process, Call, ReapDeps, Host, try_kill, kill_members, unless_hit, kill_tree,
}

abbrev pub signals : Signal → List ℕ → List Call
signals signal pids =
    map (λ pid. let c : Call = record { target = process pid; signal = signal } in c) pids

-- What `kill_tree` asks the system for: the group's death, and each member's where there is no
-- group to kill or the group's is refused.
abbrev pub asked : Bool → Suite → Signal → Bool → List Call
asked by_group s signal accepted =
    if by_group
    then record { target = group s.pgid; signal = signal }
      ∷ (if accepted then [] else signals signal s.members)
    else signals signal s.members

module _ {W : Type 0} (deps : ReapDeps W) where
  kill_members-calls :
      (pids : List ℕ) (signal : Signal) (h : Host deps)
      → (kill_members deps pids signal h).calls ≡ h.calls ++ signals signal pids
  unfolding kill_members
  kill_members-calls [] signal h = sym (append-nil h.calls)
  kill_members-calls (pid ∷ pids) signal h =
      kill_members-calls pids signal (try_kill deps (process pid) signal h).0
      ∙ append_assoc h.calls (record { target = process pid; signal = signal } ∷ [])
          (signals signal pids)

  unless_hit-calls :
      (s : Suite) (signal : Signal) (h : Host deps) (hit : Bool)
      → (unless_hit deps s signal (h, hit)).calls
        ≡ h.calls ++ (if hit then [] else signals signal s.members)
  unfolding unless_hit
  unless_hit-calls s signal h true = sym (append-nil h.calls)
  unless_hit-calls s signal h false = kill_members-calls s.members signal h

  tree-calls :
      (s : Suite) (signal : Signal) (h : Host deps) (by_group : Bool)
      → (unless_hit deps s signal
          (if by_group then try_kill deps (group s.pgid) signal h else (h, false))).calls
        ≡ h.calls ++ asked by_group s signal (deps.kill (group s.pgid) signal h.world).1
  unfolding try_kill
  tree-calls s signal h true =
      unless_hit-calls s signal _ (deps.kill (group s.pgid) signal h.world).1
      ∙ append_assoc h.calls (record { target = group s.pgid; signal = signal } ∷ []) _
  tree-calls s signal h false = unless_hit-calls s signal h false

  -- The tree's death asks the system for the group's where that spares the observer, and for each
  -- member's, in order, where there is no such group or the group's is refused; a member's that is
  -- refused does not stop the next.
  pub kill_tree-calls :
      (s : Suite) (signal : Signal) (h : Host deps)
      → (kill_tree deps s signal h).calls
        ≡ h.calls ++ asked s.kill_group s signal (deps.kill (group s.pgid) signal h.world).1
  unfolding kill_tree
  kill_tree-calls s signal h = tree-calls s signal h s.kill_group
