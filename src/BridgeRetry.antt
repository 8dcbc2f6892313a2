-- ===== src/BridgeRetry.antt =====
-- src/bridge-retry.ts: a request to the bridge is tried again after a passing failure. `answer i` is what the
-- `i`-th call gives; the pauses are recorded. An error is its text, in lower case.
pub mod Tries
mod Examples
use Prim.Native.String.{String}
use text.Mathlib.Text.{starts_with}
use the_dudes_daemon.Base.{
  includes, ℕ, zero, suc, ◌+◌, ◌*◌, ◌^◌, Bool, true, false, not, ◌&&◌, ◌||◌, List, [], ◌∷◌, any,
  if◌then◌else◌,
}

pub data Answer {ℓ} (A : Type ℓ) : Type ℓ where
  ok : A → Answer A
  failed : String → Answer A

abbrev passing : List String
passing =
    "502" ∷ "503" ∷ "econnrefused" ∷ "econnreset" ∷ "etimedout" ∷ "timeout" ∷ "socket hang"
    ∷ "enoent" ∷ "epipe" ∷ []

pub is_transient_bridge_error : String → Bool
unfolding includes
is_transient_bridge_error message = any (λ part. includes part message) passing

abbrev pub default_attempts : ℕ
default_attempts = 4

abbrev pub default_base_delay_ms : ℕ
default_base_delay_ms = 200

pub record Outcome {ℓ} (A : Type ℓ) : Type ℓ where
  pub result : Answer A
  pub calls : ℕ
  pub pauses : List ℕ

module _ {ℓ} {A : Type ℓ} where
  pub is_retried : Answer A → Bool
  unfolding is_transient_bridge_error
  is_retried (ok a) = false
  is_retried (failed e) = is_transient_bridge_error e

  -- The call `i`, with `left` calls after it.
  tries_from : ℕ → ℕ → ℕ → (ℕ → Answer A) → Outcome A
  unfolding is_retried
  tries_from zero i base answer = record { result = answer i; calls = 1; pauses = [] }
  tries_from (suc left) i base answer =
      let later = tries_from left (suc i) base answer in
      if is_retried (answer i)
      then record {
        result = later.result;
        calls = suc later.calls;
        pauses = base * 2 ^ i ∷ later.pauses;
      }
      else record { result = answer i; calls = 1; pauses = [] }

  -- With no attempt at all the source throws `undefined`.
  pub with_bridge_retry : ℕ → ℕ → (ℕ → Answer A) → Outcome A
  unfolding tries_from
  with_bridge_retry zero base answer = record { result = failed ""; calls = 0; pauses = [] }
  with_bridge_retry (suc left) base answer = tries_from left 0 base answer
