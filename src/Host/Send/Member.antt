-- ===== src/Host/Send/Member.antt =====
-- A member's message: it is held with its principal, goes to a runner that accepts it, or is refused.
use Prim.Native.String.{String}
use the_dudes_daemon.Base.{
  ℕ, ◌≡◌, refl, sym, ◌∙◌, ◌⊎◌, inl, inr, Bool, true, false, ◌&&◌, Option, none, some, [], ◌∷◌,
  arith, lookup, contains, comparable_string, Bool-cases, subst, if-false,
}
use the_dudes_daemon.Principal.{is_non_owner_turn}
use the_dudes_daemon.Host.{
  Message, RunnerApi, Entry, Host, member_blocked, has, runner_of, runner_in, put_runner, put_in,
  notify, truthy,
}
use the_dudes_daemon.Host.Hold.{held_now, segurar_na_pausa}
use the_dudes_daemon.Host.Send.{
  block_reason, block_runner, block_entry, send_message, send_message_inner, deliver, to_runner,
}

module _ {R : Type 0} (api : RunnerApi R) (digest : String → String) (ttl : ℕ) where
  -- A runner of which nothing blocks a member's message takes it.
  to_runner_lem :
      (now : ℕ) (agent : String) (m : Message) (h : Host R) (parado : Bool) (o : Option R)
      → truthy (block_runner api (has agent h.spooled) parado o) ≡ false
      → (r : R) × (o ≡ some r)
        × (truthy (api.non_owner_turn_block_reason r) ≡ false)
        × (to_runner api digest ttl now agent m h parado o
            ≡ put_runner agent (api.push m false r).0 h)
  unfolding to_runner
  to_runner_lem now agent m h parado none b = cc
  to_runner_lem now agent m h parado (some r) b = elim (Bool-cases (has agent h.spooled)) [
    | inl pending ↦ let k : true ≡ false = rw pending at b in cc
    | inr clear ↦ elim (Bool-cases parado) [
      | inl stopped ↦ let k : true ≡ false = rw (clear, stopped) at b in cc
      | inr started ↦ (r, refl, rw (clear, started) at b, rw (clear, started) refl)
    ]
  ]

  deliver_lem :
      (now : ℕ) (agent : String) (m : Message) (h : Host R) (o : Option (Entry R))
      → truthy (block_entry api (has agent h.spooled) o) ≡ false
      → (r : R) × (runner_in o ≡ some r)
        × (truthy (api.non_owner_turn_block_reason r) ≡ false)
        × (deliver api digest ttl now agent m h o ≡ put_runner agent (api.push m false r).0 h)
  unfolding deliver
  deliver_lem now agent m h none b = cc
  deliver_lem now agent m h (some e) b = to_runner_lem now agent m h e.parado e.runner b

  -- The three ways of a member's message.
  data Way (now : ℕ) (agent : String) (m : Message) (h : Host R) : Host R → Type 0 where
    waits :
        contains agent h.pausados ≡ true
        → Way now agent m h (segurar_na_pausa agent (held_now now m ∷ []) false h)
    blocked :
        contains agent h.pausados ≡ false
        → truthy (block_reason api agent h) ≡ true
        → Way now agent m h (notify (member_blocked agent) h)
    runs :
        (r : R)
        → contains agent h.pausados ≡ false
        → h.draining ≡ false
        → runner_of agent h ≡ some r
        → truthy (api.non_owner_turn_block_reason r) ≡ false
        → Way now agent m h (put_runner agent (api.push m false r).0 h)

  send_inner-Way :
      (now : ℕ) (agent : String) (m : Message) (h : Host R)
      → is_non_owner_turn m.principal ≡ true
      → Way now agent m h (send_message_inner api digest ttl now agent m h)
  unfolding send_message_inner
  send_inner-Way now agent m h n = elim (Bool-cases (contains agent h.pausados)) [
    | inl p ↦ rw p (waits p)
    | inr p ↦ elim (Bool-cases (truthy (block_reason api agent h))) [
      | inl b ↦ rw (p, n, b) (blocked p b)
      | inr b ↦ elim (Bool-cases h.draining) [
        | inl d ↦ let k : true ≡ false = rw d at b in cc
        | inr d ↦
            let (r, found, free, same) =
              deliver_lem now agent m h (lookup agent h.entries) (rw d at b) in
            let open_way : (is_non_owner_turn m.principal && truthy (block_reason api agent h))
                ≡ false =
              rw (n, b) refl in
            let path : send_message_inner api digest ttl now agent m h
                ≡ put_runner agent (api.push m false r).0 h =
              if-false _ _ _ p ∙ if-false _ _ _ open_way ∙ if-false _ _ _ d ∙ same in
            subst (Way now agent m h) (sym path) (runs r p d found free)
      ]
    ]
  ]

  -- What a way leaves as it was, and what it does to the runners.
  record Leaves (now : ℕ) (agent : String) (m : Message) (h h' : Host R) : Type 0 where
    pub inbound : h'.inbound_buffer ≡ h.inbound_buffer
    pub retained : h'.retained ≡ h.retained
    pub drain : h'.drain_held ≡ h.drain_held
    pub pause : contains agent h.pausados ≡ false → h'.pause_held ≡ h.pause_held
    pub runners :
        (h'.entries ≡ h.entries)
        ⊎ ((r : R) × (runner_of agent h ≡ some r)
            × (contains agent h.pausados ≡ false)
            × (truthy (api.non_owner_turn_block_reason r) ≡ false)
            × (h'.entries ≡ (put_runner agent (api.push m false r).0 h).entries))

  put_in-places :
      (agent : String) (r : R) (h : Host R) (o : Option (Entry R))
      → ((put_in agent r h o).inbound_buffer ≡ h.inbound_buffer)
        × ((put_in agent r h o).retained ≡ h.retained)
        × ((put_in agent r h o).drain_held ≡ h.drain_held)
        × ((put_in agent r h o).pause_held ≡ h.pause_held)
  put_in-places agent r h none = (refl, refl, refl, refl)
  put_in-places agent r h (some e) = (refl, refl, refl, refl)

  segurar-places :
      (now : ℕ) (agent : String) (m : Message) (h : Host R)
      → let h' = segurar_na_pausa agent (held_now now m ∷ []) false h in
        (h'.inbound_buffer ≡ h.inbound_buffer)
        × (h'.retained ≡ h.retained)
        × (h'.drain_held ≡ h.drain_held)
        × (h'.entries ≡ h.entries)
  unfolding segurar_na_pausa
  segurar-places now agent m h = ground arith

  Way-Leaves :
      (now : ℕ) (agent : String) (m : Message) (h : Host R) {h' : Host R}
      → Way now agent m h h'
      → Leaves now agent m h h'
  Way-Leaves now agent m h (waits p) =
      let (a, b, c, d) = segurar-places now agent m h in
      record { inbound = a; retained = b; drain = c; pause = λ q. cc; runners = inl d }
  Way-Leaves now agent m h (blocked p b) = record {
    inbound = refl;
    retained = refl;
    drain = refl;
    pause = λ q. refl;
    runners = inl refl;
  }
  Way-Leaves now agent m h (runs r p d found free) =
      let (a, b, c, e) = put_in-places agent (api.push m false r).0 h (lookup agent h.entries) in
      record {
        inbound = a;
        retained = b;
        drain = c;
        pause = λ q. e;
        runners = inr (r, found, p, free, refl);
      }

  -- A member's message that is sent to an agent never comes to the places that keep no principal, the
  -- buffer of those that have no runner yet and the retained queue, nor to the queue of the drain. It
  -- waits only for a paused agent. It changes no runner but that of an agent that is not paused and
  -- whose runner gives no reason against a member's turn, and this runner takes it with its principal.
  pub send_message-member :
      (now : ℕ) (agent : String) (m : Message) (h : Host R)
      → is_non_owner_turn m.principal ≡ true
      → let h' = send_message api digest ttl now agent m h in
        (h'.inbound_buffer ≡ h.inbound_buffer)
        × (h'.retained ≡ h.retained)
        × (h'.drain_held ≡ h.drain_held)
        × (contains agent h.pausados ≡ false → h'.pause_held ≡ h.pause_held)
        × ((h'.entries ≡ h.entries)
            ⊎ ((r : R) × (runner_of agent h ≡ some r)
                × (contains agent h.pausados ≡ false)
                × (truthy (api.non_owner_turn_block_reason r) ≡ false)
                × (h'.entries ≡ (put_runner agent (api.push m false r).0 h).entries)))
  unfolding send_message
  send_message-member now agent m h n =
      let l = Way-Leaves now agent m h (send_inner-Way now agent m h n) in
      (l.inbound, l.retained, l.drain, l.pause, l.runners)
