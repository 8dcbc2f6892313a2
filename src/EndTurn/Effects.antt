-- ===== src/EndTurn/Effects.antt =====
-- What the close of a turn does to the runner and its session.
use mathlib.Core.List.{append_assoc, append-nil}
use the_dudes_daemon.Base.{
  ℕ, ◌≡◌, refl, sym, ap, ◌∙◌, Bool, true, false, not, ◌&&◌, ◌||◌, Option, none, some, List, [], ◌∷◌,
  ◌++◌, if◌then◌else◌,
}
use the_dudes_daemon.Session.{Session, FirstTurnSnapshot, owns, restore_first_turn}
use the_dudes_daemon.EndTurn.{
  EndTurnOpts, Runner, Action, flushes, cleans_images, releases_slot, goes_idle, drains, exits,
  act_if, remember, free, give_back, conclude, first_close, is_repeat, end_turn,
}

-- The cleanup that every first close makes.
abbrev pub cleanup : EndTurnOpts → List Action
cleanup o =
    (if o.before_cleanup then flushes ∷ [] else [])
    ++ (if o.img_cleanup then cleans_images ∷ [] else [])

-- What follows it: nothing where the turn is no longer the session's, else the slot is released, and the
-- runner goes on or, stopped, ends.
abbrev pub consequences : Bool → Bool → Option ℕ → List Action
consequences true owned code = releases_slot ∷ exits code ∷ []
consequences false true code = releases_slot ∷ goes_idle ∷ drains ∷ []
consequences false false code = []

abbrev give : Option FirstTurnSnapshot → Session → Session
give none s = s
give (some snapshot) s = restore_first_turn snapshot s

-- The session after it: untouched by a late close; free after any other, and with the first turn given
-- back where the turn of a runner that goes on saw no result.
abbrev pub session_after : Bool → Bool → EndTurnOpts → Session → Session
session_after true owned o s = record s { busy = false }
session_after false true o s =
    if o.saw_result
    then record s { busy = false }
    else give o.first_turn_snapshot (record s { busy = false })
session_after false false o s = s

cleaned : EndTurnOpts → Runner → Runner
unfolding act_if remember
cleaned o r =
    act_if o.img_cleanup cleans_images (act_if o.before_cleanup flushes (remember o.turn_key r))

act_if_lem :
    (b : Bool) (a : Action) (r : Runner)
    → ((act_if b a r).actions ≡ r.actions ++ (if b then a ∷ [] else []))
      × ((act_if b a r).session ≡ r.session)
unfolding act_if
act_if_lem true a r = (refl, refl)
act_if_lem false a r = (sym (append-nil r.actions), refl)

cleaned_lem :
    (o : EndTurnOpts) (r : Runner)
    → ((cleaned o r).actions ≡ r.actions ++ cleanup o) × ((cleaned o r).session ≡ r.session)
unfolding cleaned
cleaned_lem o r =
    let r1 = remember o.turn_key r in
    let r2 = act_if o.before_cleanup flushes r1 in
    let (a1, s1) = act_if_lem o.before_cleanup flushes r1 in
    let (a2, s2) = act_if_lem o.img_cleanup cleans_images r2 in
    (
      a2
          ∙ ap (λ (l : List Action). l ++ (if o.img_cleanup then cleans_images ∷ [] else [])) a1
          ∙ append_assoc r.actions _ _,
      s2 ∙ s1,
    )

give_back_lem :
    (b : Bool) (snapshot : Option FirstTurnSnapshot) (r : Runner)
    → ((give_back b snapshot r).actions ≡ r.actions)
      × ((give_back b snapshot r).session ≡ (if b then give snapshot r.session else r.session))
unfolding give_back
give_back_lem true none r = (refl, refl)
give_back_lem false none r = (refl, refl)
give_back_lem true (some snapshot) r = (refl, refl)
give_back_lem false (some snapshot) r = (refl, refl)

-- Two flags of one call, split.
saw : (b : Bool) (s t : Session) → (if not b && true then s else t) ≡ (if b then t else s)
saw true s t = refl
saw false s t = refl

never : (b : Bool) (s t : Session) → (if not b && false then s else t) ≡ t
never true s t = refl
never false s t = refl

concluded_lem :
    (stopped owned : Bool) (o : EndTurnOpts) (r : Runner)
    → ((conclude stopped owned o (free (owned || stopped) r)).actions
        ≡ r.actions ++ consequences stopped owned o.code)
      × ((conclude stopped owned o (free (owned || stopped) r)).session
          ≡ session_after stopped owned o r.session)
unfolding conclude free
concluded_lem true true o r = (append_assoc r.actions _ _, refl)
concluded_lem true false o r = (append_assoc r.actions _ _, refl)
concluded_lem false true o r =
    let (a, s) = give_back_lem (not o.saw_result && true) o.first_turn_snapshot (free true r) in
    (
      ap (λ (l : List Action). (l ++ goes_idle ∷ []) ++ drains ∷ []) a
          ∙ append_assoc (r.actions ++ releases_slot ∷ []) _ _
          ∙ append_assoc r.actions _ _,
      s ∙ saw o.saw_result _ _,
    )
concluded_lem false false o r =
    let (a, s) = give_back_lem (not o.saw_result && false) o.first_turn_snapshot r in
    (a ∙ sym (append-nil r.actions), s ∙ never o.saw_result _ _)

-- The first close of a turn flushes and cleans in any case. A late one, of a turn that is no longer the
-- session's, does no more and leaves the session as it was. A close of the session's own turn releases the slot,
-- frees the session, gives the first turn back where no result was seen, and goes on; on a
-- stopped runner each close, also a late or a repeated one, releases the slot and ends with the exit.
pub end_turn-effects :
    (o : EndTurnOpts) (r : Runner)
    → is_repeat o r ≡ false
    → let owned = owns o.epoch none r.session in
      ((end_turn o r).actions ≡ r.actions ++ (cleanup o ++ consequences r.stopped owned o.code))
      × ((end_turn o r).session ≡ session_after r.stopped owned o r.session)
unfolding end_turn first_close cleaned
end_turn-effects o r new =
    let owned = owns o.epoch none r.session in
    let (a, s) = concluded_lem r.stopped owned o (cleaned o r) in
    let (b, t) = cleaned_lem o r in
    let e : end_turn o r ≡ first_close owned o r = rw new refl in
    (
      ap (λ (x : Runner). x.actions) e
          ∙ a
          ∙ ap (λ (l : List Action). l ++ consequences r.stopped owned o.code) b
          ∙ append_assoc r.actions _ _,
      ap (λ (x : Runner). x.session) e ∙ s ∙ ap (session_after r.stopped owned o) t,
    )
