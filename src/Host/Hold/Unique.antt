-- ===== src/Host/Hold/Unique.antt =====
-- A message with a delivery id is held once for the next process.
use Prim.Native.String.{String}
use text.Mathlib.TextEquality.{eq_iff}
use the_dudes_daemon.Base.{
  ℕ, ◌≤◌, ◌+◌, ◌≡◌, refl, ap, sym, subst, inl, inr, Bool, true, false, ◌&&◌, Option, none, some,
  List, [], ◌∷◌, ◌++◌, arith, any, count, count-append, lookup, insert, if◌then◌else◌,
  comparable_string, ◌==◌, Bool-cases, if-true, if-false,
}
use the_dudes_daemon.Host.{
  Message, SpoolItem, RunnerApi, Entry, DrainReason, Host, held, put_in, truthy,
}
use the_dudes_daemon.Host.Places.{held-insert}
use the_dudes_daemon.Host.Hold.{
  same_id, held_now, carries, is_held, hold_for_drain, hold_all, drain_entry, drain_entries,
  start_drain, shut_down_entry, hold_in_flight, shut_down_entries, hold_in_flight_for_shutdown,
}

-- How often an agent's queue of the drain holds a delivery.
abbrev pub times : Option String → String → List (String × List SpoolItem) → ℕ
times id agent m = count (carries id) (held agent m)

abbrev pub Once : List (String × List SpoolItem) → Type 0
Once m = (agent : String) (id : Option String) → truthy id ≡ true → times id agent m ≤ 1

abbrev pub HoldsOnce : {R : Type 0} → Host R → Type 0
HoldsOnce h = Once h.drain_held

abbrev drain_held : {R : Type 0} → Host R → List (String × List SpoolItem)
drain_held h = h.drain_held

pub same_place : {m n : List (String × List SpoolItem)} → n ≡ m → Once m → Once n
same_place e once = subst Once (sym e) once

same_id-eq : (a b : Option String) → same_id a b ≡ true → a ≡ b
same_id-eq none none h = refl
same_id-eq none (some b) h = cc
same_id-eq (some a) none h = cc
same_id-eq (some a) (some b) h = ap some ((eq_iff a b).0 h)

count-any :
    (id : Option String) (l : List SpoolItem)
    → any (carries id) l ≡ false
    → count (carries id) l ≡ 0
count-any id [] h = refl
count-any id (x ∷ l) h = ground (arith, count-any id l)

-- An item that is not held yet leaves each delivery at most once.
new_once :
    (id : Option String) (i : SpoolItem) (l : List SpoolItem)
    → truthy id ≡ true
    → is_held i l ≡ false
    → count (carries id) l ≤ 1
    → count (carries id) l + count (carries id) (i ∷ []) ≤ 1
new_once id i l t new once = elim (Bool-cases (carries id i)) [
  | inr other ↦ rw other (omega arith)
  | inl same ↦
      let e : i.message.delivery_id ≡ id = same_id-eq i.message.delivery_id id same in
      let held_not : (truthy id && any (carries id) l) ≡ false =
        subst (λ (k : Option String). (truthy k && any (carries k) l) ≡ false) e new in
      let free : any (carries id) l ≡ false = rw t at held_not in
      rw (same, count-any id l free) (omega arith)
]

longer_once :
    (id : Option String) (i : SpoolItem) (l : List SpoolItem) (first : Bool)
    → truthy id ≡ true
    → is_held i l ≡ false
    → count (carries id) l ≤ 1
    → count (carries id) (if first then i ∷ l else l ++ i ∷ []) ≤ 1
longer_once id i l true t new once =
    ground (arith, new_once id i l t new once, count-append (carries id) (i ∷ []) l)
longer_once id i l false t new once =
    omega (arith, new_once id i l t new once, count-append (carries id) l (i ∷ []))

insert_once :
    (agent other : String) (id : Option String) (xs : List SpoolItem)
    (m : List (String × List SpoolItem))
    → count (carries id) xs ≤ 1
    → count (carries id) (held other m) ≤ 1
    → count (carries id) (held other (insert agent xs m)) ≤ 1
insert_once agent other id xs m new old = elim (Bool-cases (agent == other)) [
  | inl same ↦ rw (held-insert agent other xs m, same) new
  | inr apart ↦ rw (held-insert agent other xs m, apart) old
]

module _ {R : Type 0} where
  added-HoldsOnce :
      (agent : String) (i : SpoolItem) (first : Bool) (h : Host R)
      → HoldsOnce h
      → is_held i (held agent h.drain_held) ≡ false
      → HoldsOnce (record h {
        drain_held =
            insert agent
              (if first then i ∷ held agent h.drain_held else held agent h.drain_held ++ i ∷ [])
              h.drain_held;
      })
  added-HoldsOnce agent i first h once new other id t =
      insert_once agent other id _ h.drain_held
        (longer_once id i (held agent h.drain_held) first t new (once agent id t)) (once other id t)

  pub hold_for_drain-HoldsOnce :
      (agent : String) (i : SpoolItem) (first : Bool) (h : Host R)
      → HoldsOnce h
      → HoldsOnce (hold_for_drain agent i first h)
  unfolding hold_for_drain
  hold_for_drain-HoldsOnce agent i first h once =
      elim (Bool-cases (is_held i (held agent h.drain_held))) [
        | inl old ↦ same_place (ap drain_held (if-true _ _ _ old)) once
        | inr new ↦
            same_place (ap drain_held (if-false _ _ _ new))
              (added-HoldsOnce agent i first h once new)
      ]

  pub hold_all-HoldsOnce :
      (agent : String) (items : List SpoolItem) (h : Host R)
      → HoldsOnce h
      → HoldsOnce (hold_all agent items h)
  unfolding hold_all
  hold_all-HoldsOnce agent [] h once = once
  hold_all-HoldsOnce agent (i ∷ items) h once =
      hold_all-HoldsOnce agent items _ (hold_for_drain-HoldsOnce agent i false h once)

  pub put_in-drain_held :
      (agent : String) (r : R) (h : Host R) (o : Option (Entry R))
      → (put_in agent r h o).drain_held ≡ h.drain_held
  put_in-drain_held agent r h none = refl
  put_in-drain_held agent r h (some e) = refl

  module _ (api : RunnerApi R) (now : ℕ) where
    drain_entry-HoldsOnce :
        (agent : String) (o : Option R) (h : Host R)
        → HoldsOnce h
        → HoldsOnce (drain_entry api now agent o h).0
    unfolding drain_entry
    drain_entry-HoldsOnce agent none h once = once
    drain_entry-HoldsOnce agent (some r) h once =
        hold_all-HoldsOnce agent _ _
          (same_place (put_in-drain_held agent _ h (lookup agent h.entries)) once)

    drain_entries-HoldsOnce :
        (entries : List (String × Entry R)) (h : Host R)
        → HoldsOnce h
        → HoldsOnce (drain_entries api now entries h).0
    unfolding drain_entries
    drain_entries-HoldsOnce [] h once = once
    drain_entries-HoldsOnce ((agent, e) ∷ entries) h once =
        drain_entries-HoldsOnce entries _ (drain_entry-HoldsOnce agent e.runner h once)

    pub start_drain-HoldsOnce :
        (reason : DrainReason) (h : Host R)
        → HoldsOnce h
        → HoldsOnce (start_drain api now reason h).0
    unfolding start_drain
    start_drain-HoldsOnce reason h once = drain_entries-HoldsOnce h.entries _ once

    in_flight-HoldsOnce :
        (agent : String) (o : Option Message) (h : Host R)
        → HoldsOnce h
        → HoldsOnce (hold_in_flight now agent o h).0
    unfolding hold_in_flight
    in_flight-HoldsOnce agent none h once = once
    in_flight-HoldsOnce agent (some m) h once =
        hold_for_drain-HoldsOnce agent (held_now now m) true h once

    shut_down_entry-HoldsOnce :
        (agent : String) (o : Option R) (h : Host R)
        → HoldsOnce h
        → HoldsOnce (shut_down_entry api now agent o h).0
    unfolding shut_down_entry
    shut_down_entry-HoldsOnce agent none h once = once
    shut_down_entry-HoldsOnce agent (some r) h once =
        in_flight-HoldsOnce agent _ _
          (same_place (put_in-drain_held agent _ h (lookup agent h.entries)) once)

    shut_down_entries-HoldsOnce :
        (entries : List (String × Entry R)) (h : Host R)
        → HoldsOnce h
        → HoldsOnce (shut_down_entries api now entries h).0
    unfolding shut_down_entries
    shut_down_entries-HoldsOnce [] h once = once
    shut_down_entries-HoldsOnce ((agent, e) ∷ entries) h once =
        shut_down_entries-HoldsOnce entries _ (shut_down_entry-HoldsOnce agent e.runner h once)

    pub shut_down-HoldsOnce :
        (h : Host R) → HoldsOnce h → HoldsOnce (hold_in_flight_for_shutdown api now h).0
    unfolding hold_in_flight_for_shutdown
    shut_down-HoldsOnce h once = shut_down_entries-HoldsOnce h.entries h once
