-- ===== src/BridgeRetry/Tries.antt =====
-- How often a request is made, and what comes of it.
use the_dudes_daemon.Base.{
  ℕ, zero, suc, ◌+◌, ◌*◌, ◌^◌, ◌≤◌, ◌≡◌, ◌⊎◌, inl, inr, refl, sym, ap, ◌∙◌, true, false, List, [],
  ◌∷◌, arith, Bool-cases,
}
use the_dudes_daemon.BridgeRetry.{Answer, Outcome, is_retried, tries_from, with_bridge_retry}

-- The pauses before the calls after `i`: each is twice the one before.
abbrev pub doubling : ℕ → ℕ → ℕ → List ℕ
doubling base i zero = []
doubling base i (suc k) = base * 2 ^ i ∷ doubling base (suc i) k

module _ {ℓ} {A : Type ℓ} (answer : ℕ → Answer A) where
  -- The `k` calls from `i` on fail and are such that another follows.
  abbrev pub Retried : ℕ → ℕ → Type 0
  Retried i zero = Unit
  Retried i (suc k) = (is_retried (answer i) ≡ true) × Retried (suc i) k

  -- `k` calls failed, the one after them is the last, either for what it answers or for its number.
  abbrev pub EndsAt : ℕ → ℕ → ℕ → Outcome A → ℕ → Type ℓ
  EndsAt left i base out k =
      (k ≤ left)
      × (out.calls ≡ suc k)
      × (out.result ≡ answer (k + i))
      × (out.pauses ≡ doubling base i k)
      × Retried i k
      × ((is_retried (answer (k + i)) ≡ false) ⊎ (k ≡ left))

  tries_from-EndsAt :
      (left i base : ℕ) → (k : ℕ) × EndsAt left i base (tries_from left i base answer) k
  unfolding tries_from
  tries_from-EndsAt zero i base =
      (0, (omega arith, refl, ap answer (omega arith), refl, tt, inr refl))
  tries_from-EndsAt (suc left) i base =
      let (k, (few, calls, result, pauses, retried, last)) = tries_from-EndsAt left (suc i) base in
      let shifted : k + suc i ≡ suc k + i = omega arith in
      elim (Bool-cases (is_retried (answer i))) [
        | inl e ↦ rw e (
          suc k,
          (
            omega arith,
            ap (λ n. suc n) calls,
            result ∙ ap answer shifted,
            ap (λ l. base * 2 ^ i ∷ l) pauses,
            (e, retried),
            elim last [
              | inl f ↦ inl (sym (ap (λ n. is_retried (answer n)) shifted) ∙ f)
              | inr f ↦ inr (ap (λ n. suc n) f)
            ],
          ),
        )
        | inr e ↦
            let here : i ≡ 0 + i = omega arith in
            rw e (
              0,
              (
                omega arith,
                refl,
                ap answer here,
                refl,
                tt,
                inl (sym (ap (λ n. is_retried (answer n)) here) ∙ e),
              ),
            )
      ]

  -- With at least one attempt allowed, the retry ends after at most that many calls. Its result is that of the
  -- last call; all before it failed in passing; and the last succeeded, or failed for good, or
  -- was the last allowed. Before each call but the first it waits, twice as long as the time before.
  pub with_bridge_retry-EndsAt :
      (left base : ℕ) → (k : ℕ) × EndsAt left 0 base (with_bridge_retry (suc left) base answer) k
  unfolding with_bridge_retry
  with_bridge_retry-EndsAt left base = tries_from-EndsAt left 0 base
