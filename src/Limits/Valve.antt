-- ===== src/Limits/Valve.antt =====
-- The valve against the declared ceilings.
use Prim.Native.String.{String}
use the_dudes_daemon.Base.{ℕ, ◌≤◌, ◌<◌, ◌≡◌, List, [], ◌∷◌, some, arith, lookup, comparable_string}
use the_dudes_daemon.Limits.{tetos_de_turno_ms, maior_teto, maior_teto_de_turno_ms, max_hold_ms}

maior_teto-ge :
    (name : String) (ms : ℕ) (tetos : List (String × ℕ))
    → lookup name tetos ≡ some ms
    → ms ≤ maior_teto tetos
unfolding maior_teto
maior_teto-ge name ms [] h = ground arith
maior_teto-ge name ms ((n, t) ∷ tetos) h = ground (arith, maior_teto-ge name ms tetos)

-- A slot that is held for as long as a declared ceiling allows is not freed by the valve: the hold
-- time is above every ceiling of the table, under whichever name it stands.
pub teto-lt-max_hold :
    (name : String) (ms : ℕ) → lookup name tetos_de_turno_ms ≡ some ms → ms < max_hold_ms
unfolding max_hold_ms maior_teto_de_turno_ms
teto-lt-max_hold name ms h = let le = maior_teto-ge name ms tetos_de_turno_ms h in omega arith
