-- ===== src/Host/Spool/Carried.antt =====
-- What is gathered for the spool comes back after the boot.
use Prim.Native.String.{String}
use text.Mathlib.TextEquality.{eq_iff}
use the_dudes_daemon.Base.{
  ℕ, ◌≡◌, refl, ap, sym, ◌∙◌, ◌⊎◌, subst, inl, inr, Bool, true, false, Option, none, some, List, [],
  ◌∷◌, ◌++◌, arith, map, lookup, All, if-true, if-false, comparable_string, ◌==◌, Bool-cases,
}
use mathlib.Core.List.{append-nil}
use the_dudes_daemon.Host.{SpoolItem, SpoolRecord, Host, held, or_empty}
use the_dudes_daemon.Host.Spool.{
  Vault, seal_items, Sealed, seal_held, project_of, gather, write_reexec_spool, written_out, values,
}
use the_dudes_daemon.Host.Spool.RoundTrip.{IsLawful, IsOf, restored, items-restored, items-IsOf}
use the_dudes_daemon.Host.Boot.{expired, load_reexec_spool}
use the_dudes_daemon.Host.Boot.Kept.{is_due, due, load_reexec_spool-due}
use the_dudes_daemon.Host.Spool.Gathered.{IsMap, gather-Gathers}

All-split {ℓ κ} :
    {A : Type ℓ} (P : A → Type κ) (xs ys : List A) → All P (xs ++ ys) → All P xs × All P ys
All-split P [] ys h = (tt, h)
All-split P (x ∷ xs) ys (p, h) = let (a, b) = All-split P xs ys h in ((p, a), b)

module _ (ttl now : ℕ) where
  abbrev pub IsFresh : SpoolRecord → Type 0
  IsFresh r = expired ttl now r ≡ false

  abbrev due_of : String → List SpoolRecord → List SpoolRecord
  due_of agent records = due ttl now agent (map some records)

  due-append :
      (agent : String) (xs ys : List SpoolRecord)
      → due_of agent (xs ++ ys) ≡ due_of agent xs ++ due_of agent ys
  due-append agent [] ys = refl
  due-append agent (r ∷ xs) ys = elim (Bool-cases (is_due ttl now agent r)) [
    | inl yes_due ↦
        if-true _ _ _ yes_due
        ∙ ap (λ l. r ∷ l) (due-append agent xs ys)
        ∙ sym (ap (λ l. l ++ due_of agent ys) (if-true _ _ _ yes_due))
    | inr not_due ↦
        if-false _ _ _ not_due
        ∙ due-append agent xs ys
        ∙ sym (ap (λ l. l ++ due_of agent ys) (if-false _ _ _ not_due))
  ]

  due-same :
      (agent : String) (xs : List SpoolRecord)
      → All (IsOf agent) xs
      → All IsFresh xs
      → due_of agent xs ≡ xs
  due-same agent [] h f = refl
  due-same agent (r ∷ xs) ((a, b), h) (c, f) =
      let is_due_now : is_due ttl now agent r ≡ true = rw (b, c) ((eq_iff r.agent_id agent).1 a) in
      if-true _ _ _ is_due_now ∙ ap (λ l. r ∷ l) (due-same agent xs h f)

  due-other :
      (agent other : String) (xs : List SpoolRecord)
      → (other == agent) ≡ false
      → All (IsOf other) xs
      → due_of agent xs ≡ []
  due-other agent other [] apart h = refl
  due-other agent other (r ∷ xs) apart ((a, b), h) =
      let elsewhere : (r.agent_id == agent) ≡ false = ap (λ (k : String). k == agent) a ∙ apart in
      let not_due : is_due ttl now agent r ≡ false = ground arith in
      if-false _ _ _ not_due ∙ due-other agent other xs apart h

  module _ {R : Type 0} (v : Vault) (h : Host R) where
    due-absent :
        (agent : String) (m : List (String × List SpoolItem))
        → lookup agent m ≡ none
        → due_of agent (seal_held v h m).records ≡ []
    unfolding seal_held
    due-absent agent [] e = refl
    due-absent agent ((k, items) ∷ m) e = elim (Bool-cases (k == agent)) [
      | inl same ↦ let no : some items ≡ none = rw same at e in cc
      | inr apart ↦
          let first = (seal_items v k (project_of k h) items).records in
          due-append agent first (seal_held v h m).records
          ∙ ap (λ l. l ++ due_of agent (seal_held v h m).records)
              (due-other agent k first apart (items-IsOf v k (project_of k h) items))
          ∙ due-absent agent m (sym (if-false _ _ _ apart) ∙ e)
    ]

    -- The records of the agent, of all that are held.
    due-held :
        (agent : String) (m : List (String × List SpoolItem))
        → IsMap m
        → All IsFresh (seal_held v h m).records
        → due_of agent (seal_held v h m).records
          ≡ (seal_items v agent (project_of agent h) (held agent m)).records
    unfolding seal_held seal_items
    due-held agent [] u f = refl
    due-held agent ((k, items) ∷ m) (single, u) f =
        let first = (seal_items v k (project_of k h) items).records in
        let rest = (seal_held v h m).records in
        let (fresh_first, fresh_rest) = All-split IsFresh first rest f in
        due-append agent first rest ∙ elim (Bool-cases (k == agent)) [
          | inl same ↦
              let e : k ≡ agent = (eq_iff k agent).0 same in
              let absent : lookup agent m ≡ none =
                subst (λ (x : String). lookup x m ≡ none) e single in
              ap (λ l. l ++ due_of agent rest)
                (due-same agent first
                  (subst (λ (x : String). All (IsOf x) first) e
                    (items-IsOf v k (project_of k h) items))
                  fresh_first)
              ∙ ap (λ l. first ++ l) (due-absent agent m absent)
              ∙ append-nil first
              ∙ ap (λ (x : String). (seal_items v x (project_of x h) items).records) e
              ∙ ap (λ o. (seal_items v agent (project_of agent h) (or_empty o)).records)
                  (sym (if-true _ _ _ same))
          | inr apart ↦
              ap (λ l. l ++ due_of agent rest)
                (due-other agent k first apart (items-IsOf v k (project_of k h) items))
              ∙ due-held agent m u fresh_rest
              ∙ ap (λ o. (seal_items v agent (project_of agent h) (or_empty o)).records)
                  (sym (if-false _ _ _ apart))
        ]

    lost-none :
        (agent : String) (m : List (String × List SpoolItem))
        → (seal_held v h m).lost ≡ 0
        → (seal_items v agent (project_of agent h) (held agent m)).lost ≡ 0
    unfolding seal_held seal_items
    lost-none agent [] e = refl
    lost-none agent ((k, items) ∷ m) e = elim (Bool-cases (k == agent)) [
      | inl same ↦
          let first : (seal_items v k (project_of k h) items).lost ≡ 0 = omega (arith, e) in
          ap (λ o. (seal_items v agent (project_of agent h) (or_empty o)).lost) (if-true _ _ _ same)
          ∙ ap (λ (x : String). (seal_items v x (project_of x h) items).lost)
              (sym ((eq_iff k agent).0 same))
          ∙ first
      | inr apart ↦
          ap (λ o. (seal_items v agent (project_of agent h) (or_empty o)).lost)
            (if-false _ _ _ apart)
          ∙ lost-none agent m (omega (arith, e))
    ]

    held-restored :
        (agent : String) (m : List (String × List SpoolItem))
        → IsLawful v
        → IsMap m
        → (seal_held v h m).lost ≡ 0
        → All IsFresh (seal_held v h m).records
        → map (restored v) (due_of agent (seal_held v h m).records) ≡ map some (held agent m)
    held-restored agent m law u none_lost f =
        ap (map (restored v)) (due-held agent m u f)
        ∙ items-restored v agent (project_of agent h) (held agent m) law
            (lost-none agent m none_lost)

module _ {R : Type 0} where
  written_out_lem :
      (digest : String → String) (h g : Host R) (s : Sealed) (l : List SpoolRecord) (h' : Host R)
      (s' : Sealed)
      → written_out digest true h g s l ≡ (h', some s')
      → (s ≡ s') × ((l ≡ []) ⊎ (h'.disk ≡ some l))
  written_out_lem digest h g s [] h' s' e = (cc, inl refl)
  written_out_lem digest h g s (r ∷ l) h' s' e =
      (cc, inr (ap (λ (x : Host R × Option Sealed). x.0.disk) (sym e)))

  -- The spool is written, no message is lost for want of a key, and no boot before left records. The new
  -- process, with the keys and none of the records too old, loads this file. Then the records that it
  -- has for an agent stand for exactly the items that the old process had gathered for it, with their
  -- delivery ids, senders and times, in their order. The file on the disk is this one, unless there
  -- is nothing to write.
  pub write-load :
      (v : Vault) (digest : String → String) (now : ℕ) (h h' : Host R) (s : Sealed)
      → IsLawful v
      → write_reexec_spool v digest true now h ≡ (h', some s)
      → s.lost ≡ 0
      → h.spooled ≡ []
      → IsMap h.drain_held
      → (ttl later : ℕ) (written : Bool) (fresh : Host R) → All (IsFresh ttl later) s.records
      → fresh.spooled ≡ []
      → (agent : String)
      → let (up, n) =
          load_reexec_spool v digest ttl later written (some (map some s.records)) fresh in
        (map (restored v) (held agent up.spooled) ≡ map some (held agent (gather now h).drain_held))
        × ((s.records ≡ []) ⊎ (h'.disk ≡ some s.records))
  unfolding write_reexec_spool
  write-load v digest now h h' s law e none_lost no_spool u ttl later written fresh all_fresh empty
        agent =
      let g = gather now h in
      let kept = gather-Gathers now h in
      let sealed = seal_held v g g.drain_held in
      let all = record sealed { records = sealed.records ++ values g.spooled } in
      let (same, on_disk) = written_out_lem digest h g all all.records h' s e in
      let old : values g.spooled ≡ [] = ap values (kept.spooled ∙ no_spool) in
      let records : sealed.records ≡ s.records =
        sym (append-nil sealed.records)
        ∙ sym (ap (λ l. sealed.records ++ l) old)
        ∙ ap (λ (x : Sealed). x.records) same in
      let lost : sealed.lost ≡ 0 = ap (λ (x : Sealed). x.lost) same ∙ none_lost in
      (
        ap (map (restored v)) (
              load_reexec_spool-due v digest ttl later written agent (map some s.records) fresh
              ∙ ap (λ m. held agent m ++ due ttl later agent (map some s.records)) empty
              ∙ ap (λ l. due ttl later agent (map some l)) (sym records))
            ∙ held-restored ttl later v g agent g.drain_held law (kept.held_map u) lost
                (subst (All (IsFresh ttl later)) (sym records) all_fresh),
        subst (λ l. (l ≡ []) ⊎ (h'.disk ≡ some l)) (ap (λ (x : Sealed). x.records) same) on_disk,
      )
