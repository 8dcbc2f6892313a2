-- ===== src/SuitePark/Reap.antt =====
-- src/suite-park.ts: the death of a suite. The operating system is a state `W` with the calls that
-- `ReapDeps` names; `calls` records each call of `kill`, refused ones too. `reapSuitesAsync` takes
-- the same steps as `reapSuites`, each after the one before it.
pub mod Tries
pub mod Signals
use the_dudes_daemon.Base.{
  ℕ, Bool, true, false, Option, none, some, List, [], ◌∷◌, ◌++◌, ltb, min, if◌then◌else◌, map,
}
use the_dudes_daemon.SuitePark.Tree.{Suite}

pub data Signal : Type 0 where
  sigterm sigkill : Signal

-- `kill(-pgid, …)` and `kill(pid, …)`
pub data Target : Type 0 where
  group process : ℕ → Target

pub record Call : Type 0 where
  pub target : Target
  pub signal : Signal

-- `kill` answers false where it throws.
pub record ReapDeps (W : Type 0) : Type 0 where
  pub kill : Target → Signal → W → W × Bool
  pub alive : ℕ → W → W × Bool
  pub sleep : ℕ → W → W

pub record ReapResult : Type 0 where
  pub root_pid : ℕ
  pub pgid : ℕ
  pub via_grupo : Bool
  pub sinais : List Call
  pub sobreviventes : List ℕ

module _ {W : Type 0} (deps : ReapDeps W) where
  pub record Host : Type 0 where
    pub world : W
    pub calls : List Call
    pub sinais : List Call

  -- `try { deps.kill(…); sinais.push(…) } catch {}`, and whether it did not throw.
  pub try_kill : Target → Signal → Host → Host × Bool
  try_kill target signal h =
      let (world, sent) = deps.kill target signal h.world in
      let call : Call = record { target = target; signal = signal } in
      (
        record {
          world = world;
          calls = h.calls ++ call ∷ [];
          sinais = if sent then h.sinais ++ call ∷ [] else h.sinais;
        },
        sent,
      )

  pub kill_members : List ℕ → Signal → Host → Host
  unfolding try_kill
  kill_members [] signal h = h
  kill_members (pid ∷ members) signal h =
      kill_members members signal (try_kill (process pid) signal h).0

  unless_hit : Suite → Signal → Host × Bool → Host
  unfolding kill_members
  unless_hit s signal (h, true) = h
  unless_hit s signal (h, false) = kill_members s.members signal h

  pub kill_tree : Suite → Signal → Host → Host
  unfolding unless_hit
  kill_tree s signal h =
      unless_hit s signal (if s.kill_group then try_kill (group s.pgid) signal h else (h, false))

  abbrev push_if : Bool → ℕ → List ℕ → List ℕ
  push_if true pid pids = pid ∷ pids
  push_if false pid pids = pids

  -- The members of whom `alive` is true, asked in their order.
  pub living : List ℕ → W → W × List ℕ
  living [] w = (w, [])
  living (pid ∷ members) w =
      let (w1, lives) = deps.alive pid w in
      let (w2, others) = living members w1 in (w2, push_if lives pid others)

  kill_if : Bool → ℕ → Host → Host
  unfolding try_kill
  kill_if false pid h = h
  kill_if true pid h = (try_kill (process pid) sigkill h).0

  pub kill_survivors : List ℕ → Host → Host
  unfolding kill_if
  kill_survivors [] h = h
  kill_survivors (pid ∷ vivos) h =
      let (world, lives) = deps.alive pid h.world in
      kill_survivors vivos (kill_if lives pid (record h { world = world }))

  insist : Suite → List ℕ → Host → Host
  unfolding kill_tree kill_survivors
  insist s [] h = h
  insist s (pid ∷ vivos) h = kill_survivors (pid ∷ vivos) (kill_tree s sigkill h)

  pub finish_off : Suite → Host → Host
  unfolding insist living
  finish_off s h =
      let (world, vivos) = living s.members h.world in insist s vivos (record h { world = world })

  -- A step for each suite, on its own list of signals.
  pub for_each :
      (Suite → Host → Host)
      → List (Suite × ReapResult)
      → W
      → List Call
      → (W × List Call) × List (Suite × ReapResult)
  for_each step [] w calls = ((w, calls), [])
  for_each step ((s, r) ∷ rest) w calls =
      let h = step s (record { world = w; calls = calls; sinais = r.sinais }) in
      let (final, done) = for_each step rest h.world h.calls in
      (final, (s, record r { sinais = h.sinais }) ∷ done)

  pause : ℕ → W → W
  pause ms w = if ltb 0 ms then deps.sleep ms w else w

  survey : List (Suite × ReapResult) → W → W × List ReapResult
  unfolding living
  survey [] w = (w, [])
  survey ((s, r) ∷ rest) w =
      let (w1, sobreviventes) = living s.members w in
      let (w2, results) = survey rest w1 in
      (w2, record r { sobreviventes = sobreviventes } ∷ results)

  abbrev pub fresh : Suite → Suite × ReapResult
  fresh s = (
    s,
    record {
      root_pid = s.root_pid;
      pgid = s.pgid;
      via_grupo = s.kill_group;
      sinais = [];
      sobreviventes = [];
    },
  )

  pub record Reaped : Type 0 where
    pub world : W
    pub calls : List Call
    pub results : List ReapResult

  pub reap_suites : List Suite → ℕ → W → Reaped
  unfolding kill_tree finish_off for_each pause survey
  reap_suites suites grace_ms w =
      let ((w1, calls1), terminated) =
        for_each (λ s. kill_tree s sigterm) (map fresh suites) w [] in
      let ((w2, calls2), killed) = for_each finish_off terminated (pause grace_ms w1) calls1 in
      let (w3, results) = survey killed (pause (min grace_ms 1000) w2) in
      record { world = w3; calls = calls2; results = results }
