-- ===== src/Limits.antt =====
-- src/runners/turn-limits.ts: the ceilings of one turn for each runner, in milliseconds, and the
-- hold time of the anti-deadlock valve that src/runners/turn-gate.ts derives from them.
mod Valve
mod Examples
use Prim.Native.String.{String}
use the_dudes_daemon.Base.{ℕ, ◌+◌, ◌*◌, List, [], ◌∷◌, ◌++◌, max}

abbrev pub qwen_turn_lifetime_ms : ℕ
qwen_turn_lifetime_ms = 30 * 60000

abbrev pub qwen_turn_lifetime_cap_ms : ℕ
qwen_turn_lifetime_cap_ms = 2 * qwen_turn_lifetime_ms

abbrev pub qwen_stream_max_lifetime_ms : ℕ
qwen_stream_max_lifetime_ms = qwen_turn_lifetime_cap_ms + 10 * 60000

abbrev pub qwen_hard_timeout_ms : ℕ
qwen_hard_timeout_ms = qwen_turn_lifetime_cap_ms + 5 * 60000

abbrev pub opencode_turn_timeout_ms : ℕ
opencode_turn_timeout_ms = 30 * 60000

abbrev pub opencode_post_cap_ms : ℕ
opencode_post_cap_ms = 120 * 60000

abbrev pub grok_turn_timeout_ms : ℕ
grok_turn_timeout_ms = 12 * 60000

abbrev pub per_msg_turn_timeout_ms : ℕ
per_msg_turn_timeout_ms = 15 * 60000

abbrev pub one_shot_timeout_ms : ℕ
one_shot_timeout_ms = 300000

abbrev pub teto_por_runner_gateado : List (String × ℕ)
teto_por_runner_gateado =
    ("opencode", opencode_post_cap_ms)
    ∷ ("qwen", qwen_hard_timeout_ms)
    ∷ ("grok", grok_turn_timeout_ms)
    ∷ ("grok-custom", grok_turn_timeout_ms)
    ∷ ("codex", per_msg_turn_timeout_ms)
    ∷ ("gemini", per_msg_turn_timeout_ms)
    ∷ ("crush", per_msg_turn_timeout_ms)
    ∷ []

abbrev pub tetos_de_turno_ms : List (String × ℕ)
tetos_de_turno_ms =
    teto_por_runner_gateado
    ++ (("qwen janela", qwen_turn_lifetime_ms)
        ∷ ("qwen cap", qwen_turn_lifetime_cap_ms)
        ∷ ("qwen stream-max", qwen_stream_max_lifetime_ms)
        ∷ ("opencode turn", opencode_turn_timeout_ms)
        ∷ ("one-shot (bg)", one_shot_timeout_ms)
        ∷ [])

-- `Math.max(...Object.values(tetos))`, over ceilings that are not negative.
pub maior_teto : List (String × ℕ) → ℕ
maior_teto [] = 0
maior_teto ((name, ms) ∷ tetos) = max ms (maior_teto tetos)

unfoldable pub maior_teto_de_turno_ms : ℕ
unfolding maior_teto
maior_teto_de_turno_ms = maior_teto tetos_de_turno_ms

abbrev pub valve_folga_ms : ℕ
valve_folga_ms = 5 * 60000

-- `MAX_HOLD_MS` of the gate.
unfoldable pub max_hold_ms : ℕ
unfolding maior_teto_de_turno_ms
max_hold_ms = maior_teto_de_turno_ms + valve_folga_ms
