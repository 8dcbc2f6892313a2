-- ===== src/Host/Send/Once.antt =====
-- A message that is sent is held at most once for the next process.
use Prim.Native.String.{String}
use the_dudes_daemon.Base.{
  ℕ, ◌≡◌, refl, ap, ◌∙◌, inl, inr, Bool, false, ◌&&◌, Option, none, some, List, [], ◌∷◌, arith,
  lookup, contains, if-holds, if-true, if-false, Bool-cases, comparable_string,
}
use the_dudes_daemon.Principal.{is_non_owner_turn}
use the_dudes_daemon.Host.{Message, SpoolItem, RunnerApi, Entry, Host, truthy}
use the_dudes_daemon.Host.Hold.{held_now, segurar_na_pausa}
use the_dudes_daemon.Host.Hold.Unique.{
  HoldsOnce, same_place, put_in-drain_held, hold_for_drain-HoldsOnce,
}
use the_dudes_daemon.Host.Send.{
  block_reason, send_message, send_message_inner, hold_in_drain, deliver, to_runner,
}

abbrev drain_held : {R : Type 0} → Host R → List (String × List SpoolItem)
drain_held h = h.drain_held

module _ {R : Type 0} (api : RunnerApi R) (digest : String → String) (ttl : ℕ) where
  segurar-HoldsOnce :
      (agent : String) (items : List SpoolItem) (front : Bool) (h : Host R)
      → HoldsOnce h
      → HoldsOnce (segurar_na_pausa agent items front h)
  unfolding segurar_na_pausa
  segurar-HoldsOnce agent [] front h once = once
  segurar-HoldsOnce agent (i ∷ items) front h once = if-holds HoldsOnce _ _ _ (λ _. once) once

  hold_in_drain-HoldsOnce :
      (now : ℕ) (agent : String) (m : Message) (h : Host R)
      → HoldsOnce h
      → HoldsOnce (hold_in_drain api digest ttl now agent m h)
  unfolding hold_in_drain
  hold_in_drain-HoldsOnce now agent m h once =
      let kept = hold_for_drain-HoldsOnce agent (held_now now m) false h once in
      if-holds HoldsOnce _ _ _ (λ _. kept) kept

  to_runner-drain_held :
      (now : ℕ) (agent : String) (m : Message) (h : Host R) (parado : Bool) (o : Option R)
      → (to_runner api digest ttl now agent m h parado o).drain_held ≡ h.drain_held
  unfolding to_runner
  to_runner-drain_held now agent m h parado none = refl
  to_runner-drain_held now agent m h parado (some r) =
      ground (arith, put_in-drain_held agent (api.push m false r).0 h (lookup agent h.entries))

  deliver-drain_held :
      (now : ℕ) (agent : String) (m : Message) (h : Host R) (o : Option (Entry R))
      → (deliver api digest ttl now agent m h o).drain_held ≡ h.drain_held
  unfolding deliver
  deliver-drain_held now agent m h none = refl
  deliver-drain_held now agent m h (some e) = to_runner-drain_held now agent m h e.parado e.runner

  pub send_message-HoldsOnce :
      (now : ℕ) (agent : String) (m : Message) (h : Host R)
      → HoldsOnce h
      → HoldsOnce (send_message api digest ttl now agent m h)
  unfolding send_message send_message_inner
  send_message-HoldsOnce now agent m h once = elim (Bool-cases (contains agent h.pausados)) [
    | inl p ↦
        same_place (ap drain_held (if-true _ _ _ p))
          (segurar-HoldsOnce agent (held_now now m ∷ []) false h once)
    | inr p ↦
        elim (Bool-cases (is_non_owner_turn m.principal && truthy (block_reason api agent h))) [
          | inl b ↦ same_place (ap drain_held (if-false _ _ _ p ∙ if-true _ _ _ b)) once
          | inr b ↦ elim (Bool-cases h.draining) [
            | inl d ↦
                same_place (ap drain_held (if-false _ _ _ p ∙ if-false _ _ _ b ∙ if-true _ _ _ d))
                  (hold_in_drain-HoldsOnce now agent m h once)
            | inr d ↦
                same_place
                  (ap drain_held (if-false _ _ _ p ∙ if-false _ _ _ b ∙ if-false _ _ _ d)
                    ∙ deliver-drain_held now agent m h (lookup agent h.entries))
                  once
          ]
        ]
  ]
