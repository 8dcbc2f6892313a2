-- ===== src/Gate/Stats.antt =====
-- `turnGateStats`: what the health report and the logs read of the gate.
use the_dudes_daemon.Base.{ℕ, length}
use the_dudes_daemon.Gate.{main, bg, Gate, PoolState}

pub record PoolView : Type 0 where
  pub ativos : ℕ
  pub fila : ℕ
  pub max : ℕ

pub record TurnGateStats : Type 0 where
  pub main_pool : PoolView
  pub bg_pool : PoolView

abbrev view : PoolState → PoolView
view p = record { ativos = p.ativos; fila = length p.fila; max = p.max }

pub turn_gate_stats : Gate → TurnGateStats
turn_gate_stats g = record { main_pool = view (g.pools main); bg_pool = view (g.pools bg) }
