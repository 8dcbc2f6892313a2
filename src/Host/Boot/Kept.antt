-- ===== src/Host/Boot/Kept.antt =====
-- What the boot keeps for delivery.
use Prim.Native.String.{String}
use the_dudes_daemon.Base.{
  ℕ, ◌≡◌, refl, ap, sym, ◌∙◌, inl, inr, Bool, true, false, not, ◌&&◌, Option, none, some, List, [],
  ◌∷◌, ◌++◌, arith, if◌then◌else◌, if-true, if-false, comparable_string, ◌==◌, Bool-cases,
}
use mathlib.Core.List.{append_assoc, append-nil}
use text.Mathlib.TextEquality.{eq_iff}
use the_dudes_daemon.Host.{SpoolRecord, Host, held}
use the_dudes_daemon.Host.Places.{held-insert}
use the_dudes_daemon.Host.Spool.{
  Vault, Leitura, lido, chave, payload, is_v2, ler_registro_spool, persist_spool,
}
use the_dudes_daemon.Host.Boot.{
  Loaded, nothing_loaded, expired, retain_expired, load_one, load_all, load_reexec_spool,
}

-- A record that is delivered to the agent when it comes up.
abbrev pub is_due : ℕ → ℕ → String → SpoolRecord → Bool
is_due ttl now agent r = is_v2 r.blob && not (expired ttl now r) && r.agent_id == agent

abbrev pub due : ℕ → ℕ → String → List (Option SpoolRecord) → List SpoolRecord
due ttl now agent [] = []
due ttl now agent (none ∷ file) = due ttl now agent file
due ttl now agent (some r ∷ file) =
    if is_due ttl now agent r then r ∷ due ttl now agent file else due ttl now agent file

module _ {R : Type 0} (v : Vault) (digest : String → String) (ttl now : ℕ) where
  retain_expired-spooled :
      (r : SpoolRecord) (l : Leitura) (h : Host R) (n : Loaded)
      → (retain_expired v digest ttl now r l h n).0.spooled ≡ h.spooled
  unfolding retain_expired
  retain_expired-spooled r (lido p) h n = refl
  retain_expired-spooled r chave h n = refl
  retain_expired-spooled r payload h n = refl

  load_one-spooled :
      (agent : String) (r : SpoolRecord) (h : Host R) (n : Loaded)
      → held agent (load_one v digest ttl now (some r) h n).0.spooled
        ≡ (if is_due ttl now agent r then held agent h.spooled ++ r ∷ [] else held agent h.spooled)
  unfolding load_one
  load_one-spooled agent r h n =
      let place = λ (x : Host R × Loaded). held agent x.0.spooled in
      elim (Bool-cases (is_v2 r.blob)) [
        | inr other ↦
            let not_due : is_due ttl now agent r ≡ false = rw other refl in
            ap place (if-false _ _ _ other) ∙ sym (if-false _ _ _ not_due)
        | inl v2 ↦ elim (Bool-cases (expired ttl now r)) [
          | inl old ↦
              let not_due : is_due ttl now agent r ≡ false = rw (v2, old) refl in
              ap place (if-true _ _ _ v2 ∙ if-true _ _ _ old)
              ∙ ap (held agent) (retain_expired-spooled r (ler_registro_spool v r) h n)
              ∙ sym (if-false _ _ _ not_due)
          | inr fresh ↦
              ap place (if-true _ _ _ v2 ∙ if-false _ _ _ fresh)
              ∙ held-insert r.agent_id agent (held r.agent_id h.spooled ++ r ∷ []) h.spooled
              ∙ same_agent r h v2 fresh
        ]
      ]
    where
      same_agent :
          (r : SpoolRecord) (h : Host R)
          → is_v2 r.blob ≡ true
          → expired ttl now r ≡ false
          → (if r.agent_id == agent
              then held r.agent_id h.spooled ++ r ∷ []
              else held agent h.spooled)
            ≡ (if is_due ttl now agent r
                then held agent h.spooled ++ r ∷ []
                else held agent h.spooled)
      same_agent r h v2 fresh = elim (Bool-cases (r.agent_id == agent)) [
        | inl same ↦
            let is_due_now : is_due ttl now agent r ≡ true = rw (v2, fresh, same) refl in
            rw (is_due_now, same)
              (ap (λ (k : String). held k h.spooled ++ r ∷ []) ((eq_iff r.agent_id agent).0 same))
        | inr other ↦
            let not_due : is_due ttl now agent r ≡ false = rw (v2, fresh, other) refl in
            rw (not_due, other) refl
      ]

  -- What a file gives an agent comes behind what the agent had, in the order of the file: its records
  -- of the right format whose time is not over.
  pub load_all-due :
      (agent : String) (file : List (Option SpoolRecord)) (h : Host R) (n : Loaded)
      → held agent (load_all v digest ttl now file h n).0.spooled
        ≡ held agent h.spooled ++ due ttl now agent file
  unfolding load_all load_one
  load_all-due agent [] h n = sym (append-nil (held agent h.spooled))
  load_all-due agent (none ∷ file) h n = load_all-due agent file h n
  load_all-due agent (some r ∷ file) h n =
      let next = load_one v digest ttl now (some r) h n in
      let rest = due ttl now agent file in
      load_all-due agent file next.0 next.1
      ∙ ap (λ l. l ++ rest) (load_one-spooled agent r h n)
      ∙ elim (Bool-cases (is_due ttl now agent r)) [
        | inl now_due ↦ rw now_due (append_assoc (held agent h.spooled) (r ∷ []) rest)
        | inr not_due ↦ rw not_due refl
      ]

  persist_spool-spooled :
      (written : Bool) (h : Host R) → (persist_spool written h).spooled ≡ h.spooled
  unfolding persist_spool
  persist_spool-spooled written h = ground arith

  -- After the boot the spool of an agent is what it was, followed by the records of the file that are
  -- the agent's, have the format, and are not older than their time to live, in the file's order; also
  -- where the file cannot be written again.
  pub load_reexec_spool-due :
      (written : Bool) (agent : String) (file : List (Option SpoolRecord)) (h : Host R)
      → held agent (load_reexec_spool v digest ttl now written (some file) h).0.spooled
        ≡ held agent h.spooled ++ due ttl now agent file
  unfolding load_reexec_spool
  load_reexec_spool-due written agent file h =
      ap (held agent) (persist_spool-spooled written _)
      ∙ load_all-due agent file (record h { spool_path = true }) nothing_loaded
