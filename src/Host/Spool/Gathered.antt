-- ===== src/Host/Spool/Gathered.antt =====
-- What the gathering for the spool keeps of the host.
use Prim.Native.String.{String}
use text.Mathlib.TextEquality.{eq_iff}
use the_dudes_daemon.Base.{
  ℕ, ◌≡◌, refl, sym, ◌∙◌, subst, inl, inr, Bool, false, none, List, [], ◌∷◌, ◌++◌, arith, map,
  insert, lookup, lookup-insert, if◌then◌else◌, if-true, if-false, comparable_string, ◌==◌,
  Bool-cases, if-holds,
}
use the_dudes_daemon.Host.{SpoolItem, Entry, Host, held}
use the_dudes_daemon.Inbound
use the_dudes_daemon.Retained.{listar}
use the_dudes_daemon.Host.Hold.{is_held, hold_for_drain, hold_all}
use the_dudes_daemon.Host.Spool.{
  hold_retained, hold_inbound, hold_paused, of_retained, of_buffered, of_paused, gather,
}

-- A map has a key once.
abbrev pub IsMap {ℓ} : {V : Type ℓ} → List (String × V) → Type ℓ
IsMap [] = Unit
IsMap ((k, x) ∷ m) = (lookup k m ≡ none) × IsMap m

insert-IsMap {ℓ} :
    {V : Type ℓ} (k : String) (x : V) (m : List (String × V)) → IsMap m → IsMap (insert k x m)
insert-IsMap k x [] u = (refl, tt)
insert-IsMap k x ((j, y) ∷ m) (single, u) = elim (Bool-cases (j == k)) [
  | inl same ↦
      subst IsMap (sym (if-true _ _ _ same))
        (subst (λ (i : String). lookup i m ≡ none) ((eq_iff j k).0 same) single, u)
  | inr apart ↦
      let new : lookup j (insert k x m) ≡ none =
        lookup-insert k j x m ∙ if-false _ _ _ (apart_sym j k apart) ∙ single in
      subst IsMap (sym (if-false _ _ _ apart)) (new, insert-IsMap k x m u)
]
  where
    apart_sym : (j k : String) → (j == k) ≡ false → (k == j) ≡ false
    apart_sym j k h = ground (arith, eq_iff j k, eq_iff k j)

-- What a host keeps while its messages are gathered.
pub record Gathers {R : Type 0} (h g : Host R) : Type 0 where
  pub spooled : g.spooled ≡ h.spooled
  pub held_map : IsMap h.drain_held → IsMap g.drain_held

module _ {R : Type 0} where
  same_Gathers : (h : Host R) → Gathers h h
  same_Gathers h = record { spooled = refl; held_map = λ u. u }

  then_Gathers : {h g k : Host R} → Gathers h g → Gathers g k → Gathers h k
  then_Gathers a b = record {
    spooled = b.spooled ∙ a.spooled;
    held_map = λ u. b.held_map (a.held_map u);
  }

  hold_for_drain-Gathers :
      (agent : String) (i : SpoolItem) (first : Bool) (h : Host R)
      → Gathers h (hold_for_drain agent i first h)
  unfolding hold_for_drain
  hold_for_drain-Gathers agent i first h =
      let list = held agent h.drain_held in
      let longer = if first then i ∷ list else list ++ i ∷ [] in
      let h' : Host R = record h { drain_held = insert agent longer h.drain_held } in
      if-holds (Gathers h) (is_held i list) h h' (λ _. same_Gathers h)
        (record { spooled = refl; held_map = λ u. insert-IsMap agent longer h.drain_held u })

  hold_all-Gathers :
      (agent : String) (items : List SpoolItem) (h : Host R) → Gathers h (hold_all agent items h)
  unfolding hold_all
  hold_all-Gathers agent [] h = same_Gathers h
  hold_all-Gathers agent (i ∷ items) h =
      then_Gathers (hold_for_drain-Gathers agent i false h) (hold_all-Gathers agent items _)

  retained-Gathers :
      (entries : List (String × Entry R)) (h : Host R) → Gathers h (hold_retained entries h)
  unfolding hold_retained
  retained-Gathers [] h = same_Gathers h
  retained-Gathers ((agent, e) ∷ entries) h =
      then_Gathers (hold_all-Gathers agent (map of_retained (listar agent h.retained)) h)
        (retained-Gathers entries _)

  inbound-Gathers : (now : ℕ) (ids : List String) (h : Host R) → Gathers h (hold_inbound now ids h)
  unfolding hold_inbound
  inbound-Gathers now [] h = same_Gathers h
  inbound-Gathers now (agent ∷ ids) h =
      let (left, waiting) = Inbound.drain agent now h.inbound_buffer in
      let h' : Host R = record h { inbound_buffer = left } in
      let a = hold_all-Gathers agent (map of_buffered waiting) h' in
      then_Gathers (record { spooled = a.spooled; held_map = a.held_map })
        (inbound-Gathers now ids _)

  paused-Gathers :
      (waiting : List (String × List SpoolItem)) (h : Host R) → Gathers h (hold_paused waiting h)
  unfolding hold_paused
  paused-Gathers [] h = same_Gathers h
  paused-Gathers ((agent, itens) ∷ waiting) h =
      then_Gathers (hold_all-Gathers agent (map of_paused itens) h) (paused-Gathers waiting _)

  pub gather-Gathers : (now : ℕ) (h : Host R) → Gathers h (gather now h)
  unfolding gather
  gather-Gathers now h =
      let h1 = hold_retained h.entries h in
      let b = inbound-Gathers now h1.inbound_agent_ids h1 in
      let h2 = record (hold_inbound now h1.inbound_agent_ids h1) { inbound_agent_ids = [] } in
      let c = paused-Gathers h2.pause_held h2 in
      then_Gathers (retained-Gathers h.entries h)
        (then_Gathers b (record { spooled = c.spooled; held_map = c.held_map }))
