-- ===== src/EndTurn/Once.antt =====
-- A turn ends once.
use mathlib.Core.List.{append_assoc}
use the_dudes_daemon.Base.{
  ℕ, suc, ◌+◌, ◌≤◌, ◌<◌, ◌≡◌, refl, sym, ap, ◌∙◌, subst, inl, inr, Bool, true, false, not, ◌&&◌,
  ◌||◌, Option, none, some, List, [], ◌∷◌, ◌++◌, arith, length, length-append, contains,
  comparable_nat, Bool-cases, IsRecent, IsRecent-contains, keep_last-IsRecent,
}
use the_dudes_daemon.Session.{FirstTurnSnapshot, owns}
use the_dudes_daemon.EndTurn.{
  flushes, cleans_images, EndTurnOpts, Runner, Action, ended_turn_keys_cap, act_if, remember, free,
  give_back, resume_idle, conclude, first_close, is_repeat, end_turn, end_turns,
}

-- Both fields that a repeated close is told by.
abbrev Same : Runner → Runner → Type 0
Same r s = (r.ended_turn_keys ≡ s.ended_turn_keys) × (r.stopped ≡ s.stopped)

act_if-Same : (b : Bool) (a : Action) (r : Runner) → Same (act_if b a r) r
unfolding act_if
act_if-Same true a r = (refl, refl)
act_if-Same false a r = (refl, refl)

free-Same : (b : Bool) (r : Runner) → Same (free b r) r
unfolding free
free-Same true r = (refl, refl)
free-Same false r = (refl, refl)

give_back-Same : (b : Bool) (s : Option FirstTurnSnapshot) (r : Runner) → Same (give_back b s r) r
unfolding give_back
give_back-Same b none r = (refl, refl)
give_back-Same true (some s) r = (refl, refl)
give_back-Same false (some s) r = (refl, refl)

resume_idle-Same : (b : Bool) (r : Runner) → Same (resume_idle b r) r
unfolding resume_idle
resume_idle-Same true r = (refl, refl)
resume_idle-Same false r = (refl, refl)

conclude-Same : (b owned : Bool) (o : EndTurnOpts) (r : Runner) → Same (conclude b owned o r) r
unfolding conclude
conclude-Same true owned o r = (refl, refl)
conclude-Same false owned o r =
    let (k, s) =
      resume_idle-Same owned (give_back (not o.saw_result && owned) o.first_turn_snapshot r) in
    let (l, t) = give_back-Same (not o.saw_result && owned) o.first_turn_snapshot r in
    (k ∙ l, s ∙ t)

first_close-Same :
    (owned : Bool) (o : EndTurnOpts) (r : Runner)
    → Same (first_close owned o r) (remember o.turn_key r)
unfolding first_close
first_close-Same owned o r =
    let r1 = remember o.turn_key r in
    let r2 = act_if o.before_cleanup flushes r1 in
    let r3 = act_if o.img_cleanup cleans_images r2 in
    let r4 = free (owned || r.stopped) r3 in
    let (k1, s1) = act_if-Same o.before_cleanup flushes r1 in
    let (k2, s2) = act_if-Same o.img_cleanup cleans_images r2 in
    let (k3, s3) = free-Same (owned || r.stopped) r3 in
    let (k4, s4) = conclude-Same r.stopped owned o r4 in
    (k4 ∙ (k3 ∙ (k2 ∙ k1)), s4 ∙ (s3 ∙ (s2 ∙ s1)))

-- One more key comes after at most.
remember-IsRecent :
    (n key other : ℕ) (r : Runner)
    → IsRecent n key r.ended_turn_keys
    → n < ended_turn_keys_cap
    → IsRecent (suc n) key (remember other r).ended_turn_keys
unfolding remember
remember-IsRecent n key other r (older, newer, e, h) k =
    elim (Bool-cases (contains other r.ended_turn_keys)) [
      | inl known ↦
          rw (known, e)
            (keep_last-IsRecent (suc n) ended_turn_keys_cap key older newer (omega arith) k)
      | inr new ↦
          let shown : r.ended_turn_keys ++ other ∷ [] ≡ older ++ key ∷ (newer ++ other ∷ []) =
            ap (λ (xs : List ℕ). xs ++ other ∷ []) e
            ∙ append_assoc older (key ∷ newer) (other ∷ []) in
          rw (new, shown)
            (keep_last-IsRecent (suc n) ended_turn_keys_cap key older (newer ++ other ∷ [])
              (omega (arith, length-append newer (other ∷ []))) k)
    ]

end_turn-IsRecent :
    (n key : ℕ) (o : EndTurnOpts) (r : Runner)
    → IsRecent n key r.ended_turn_keys
    → n < ended_turn_keys_cap
    → IsRecent (suc n) key (end_turn o r).ended_turn_keys × ((end_turn o r).stopped ≡ r.stopped)
unfolding end_turn
end_turn-IsRecent n key o r (older, newer, e, h) k = elim (Bool-cases (is_repeat o r)) [
  | inl known ↦ rw known ((older, newer, e, omega arith), refl)
  | inr new ↦
      let (keys, same) = first_close-Same (owns o.epoch none r.session) o r in
      rw new (
        subst (IsRecent (suc n) key) (sym keys)
            (remember-IsRecent n key o.turn_key r (older, newer, e, h) k),
        same,
      )
]

end_turns-IsRecent :
    (n key : ℕ) (closes : List EndTurnOpts) (r : Runner)
    → IsRecent n key r.ended_turn_keys
    → n + length closes ≤ ended_turn_keys_cap
    → IsRecent (n + length closes) key (end_turns closes r).ended_turn_keys
      × ((end_turns closes r).stopped ≡ r.stopped)
unfolding end_turns
end_turns-IsRecent n key [] r (older, newer, e, h) k = ((older, newer, e, omega arith), refl)
end_turns-IsRecent n key (o ∷ closes) r recent k =
    let (recent', same) = end_turn-IsRecent n key o r recent (omega arith) in
    let ((older, newer, e, h), same') =
      end_turns-IsRecent (suc n) key closes (end_turn o r) recent' (omega arith) in
    ((older, newer, e, omega arith), same' ∙ same)

remember-own :
    (key : ℕ) (r : Runner)
    → contains key r.ended_turn_keys ≡ false
    → IsRecent 1 key (remember key r).ended_turn_keys
unfolding remember
remember-own key r new =
    rw new (
      keep_last-IsRecent 1 ended_turn_keys_cap key r.ended_turn_keys [] (omega arith) (omega arith))

end_turn-new :
    (o : EndTurnOpts) (r : Runner)
    → contains o.turn_key r.ended_turn_keys ≡ false
    → end_turn o r ≡ first_close (owns o.epoch none r.session) o r
unfolding end_turn is_repeat
end_turn-new o r new = ground arith

end_turn-own :
    (o : EndTurnOpts) (r : Runner)
    → contains o.turn_key r.ended_turn_keys ≡ false
    → IsRecent 1 o.turn_key (end_turn o r).ended_turn_keys × ((end_turn o r).stopped ≡ r.stopped)
unfolding remember
end_turn-own o r new =
    let (keys, same) = first_close-Same (owns o.epoch none r.session) o r in
    let e = end_turn-new o r new in
    (
      subst (IsRecent 1 o.turn_key) (sym (ap (λ (x : Runner). x.ended_turn_keys) e ∙ keys))
          (remember-own o.turn_key r new),
      ap (λ (x : Runner). x.stopped) e ∙ same,
    )

end_turn-repeat :
    (o : EndTurnOpts) (r : Runner)
    → contains o.turn_key r.ended_turn_keys ≡ true
    → r.stopped ≡ false
    → end_turn o r ≡ r
unfolding end_turn is_repeat
end_turn-repeat o r known running = ground arith

-- On a runner that is not stopped, the first close of a turn ends it, and a later close of the same turn
-- changes nothing, as long as fewer than 512 other closes come in between, whatever these are.
pub end_turn-end_turns :
    (o late : EndTurnOpts) (others : List EndTurnOpts) (r : Runner)
    → r.stopped ≡ false
    → contains o.turn_key r.ended_turn_keys ≡ false
    → late.turn_key ≡ o.turn_key
    → length others < ended_turn_keys_cap
    → end_turn late (end_turns others (end_turn o r)) ≡ end_turns others (end_turn o r)
end_turn-end_turns o late others r running new same few =
    let (recent, s) = end_turn-own o r new in
    let (recent', s') =
      end_turns-IsRecent 1 o.turn_key others (end_turn o r) recent (omega arith) in
    end_turn-repeat late (end_turns others (end_turn o r))
      (ap (λ k. contains k (end_turns others (end_turn o r)).ended_turn_keys) same
        ∙ IsRecent-contains (1 + length others) o.turn_key _ recent')
      (s' ∙ (s ∙ running))
