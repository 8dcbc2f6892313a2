-- ===== src/BridgeRetry/Examples.antt =====
-- Witness of the retry: two failures in passing, then an answer.
use the_dudes_daemon.Base.{ℕ, zero, suc}
use the_dudes_daemon.BridgeRetry.{Answer, ok, failed, with_bridge_retry}
use the_dudes_daemon.BridgeRetry.Tries.{EndsAt, with_bridge_retry-EndsAt}

abbrev answer : ℕ → Answer ℕ
answer zero = failed "econnrefused"
answer (suc zero) = failed "http 502"
answer (suc (suc n)) = ok 7

with_bridge_retry-EndsAt_example :
    (k : ℕ) × EndsAt answer 3 0 200 (with_bridge_retry 4 200 answer) k
with_bridge_retry-EndsAt_example = with_bridge_retry-EndsAt answer 3 200
