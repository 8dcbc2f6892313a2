-- ===== src/EndTurn/Examples.antt =====
-- Tests and witnesses of the end of a turn: two closes of one turn with another between.
use the_dudes_daemon.Base.{
  ℕ, ◌≡◌, refl, true, false, none, some, [], ◌∷◌, ◌++◌, arith, comparable_nat,
}
use the_dudes_daemon.Session
use the_dudes_daemon.EndTurn.{EndTurnOpts, Runner, is_repeat, end_turn, end_turns}
use the_dudes_daemon.EndTurn.Once.{end_turn-end_turns}
use the_dudes_daemon.EndTurn.Effects.{cleanup, consequences, session_after, end_turn-effects}

abbrev close : ℕ → EndTurnOpts
close key = record {
  epoch = 0;
  turn_key = key;
  code = some 0;
  saw_result = false;
  first_turn_snapshot = some (record { first_turn = true; pending_summary = none });
  img_cleanup = true;
  before_cleanup = true;
}

abbrev runner : Runner
runner = record {
  turn_seq = 2;
  ended_turn_keys = [];
  stopped = false;
  has_oc_active_proc = true;
  session = Session.create;
  actions = [];
}

end_turn-end_turns_example :
    end_turn (close 1) (end_turns (close 2 ∷ []) (end_turn (close 1) runner))
    ≡ end_turns (close 2 ∷ []) (end_turn (close 1) runner)
end_turn-end_turns_example =
    end_turn-end_turns (close 1) (close 1) (close 2 ∷ []) runner refl refl refl (omega arith)

opened : Unit {0}
unfolding is_repeat
opened = tt

end_turn-effects_example :
    ((end_turn (close 1) runner).actions
      ≡ []
        ++ (cleanup (close 1) ++ consequences false (Session.owns 0 none Session.create) (some 0)))
    × ((end_turn (close 1) runner).session
        ≡ session_after false (Session.owns 0 none Session.create) (close 1) Session.create)
unfolding opened
end_turn-effects_example = end_turn-effects (close 1) runner refl
