-- ===== src/EndTurn.antt =====
-- src/runners/turns/end-turn.ts: the end of a turn of a runner that starts a process for each message.
-- A turn's key `t<n>` is its number; what the runner's own methods do is a log of `actions`.
pub mod Once
pub mod Effects
mod Examples
use the_dudes_daemon.Base.{
  ℕ, suc, Bool, true, false, not, ◌&&◌, ◌||◌, Option, none, some, List, [], ◌∷◌, ◌++◌,
  if◌then◌else◌, contains, add, keep_last, comparable_nat,
}
use the_dudes_daemon.Session.{Session, FirstTurnSnapshot, owns, restore_first_turn}

abbrev pub ended_turn_keys_cap : ℕ
ended_turn_keys_cap = 512

pub data Action : Type 0 where
  flushes cleans_images releases_slot goes_idle drains : Action
  exits : Option ℕ → Action

-- What a process's close hands over; `before_cleanup` and `img_cleanup` say whether they are given.
pub record EndTurnOpts : Type 0 where
  pub epoch : ℕ
  pub turn_key : ℕ
  pub code : Option ℕ
  pub saw_result : Bool
  pub first_turn_snapshot : Option FirstTurnSnapshot
  pub img_cleanup : Bool
  pub before_cleanup : Bool

pub record Runner : Type 0 where
  pub turn_seq : ℕ
  pub ended_turn_keys : List ℕ
  pub stopped : Bool
  pub has_oc_active_proc : Bool
  pub session : Session
  pub actions : List Action

pub begin_turn : Runner → Runner × ℕ
begin_turn r = (record r { turn_seq = suc r.turn_seq }, suc r.turn_seq)

pub act : Action → Runner → Runner
act a r = record r { actions = r.actions ++ a ∷ [] }

act_if : Bool → Action → Runner → Runner
unfolding act
act_if true a r = act a r
act_if false a r = r

-- The key joins the set, which drops the oldest beyond the cap.
remember : ℕ → Runner → Runner
remember key r = record r {
  ended_turn_keys = keep_last ended_turn_keys_cap (add key r.ended_turn_keys);
}

free : Bool → Runner → Runner
unfolding act
free true r = record (act releases_slot r) {
  has_oc_active_proc = false;
  session = record r.session { busy = false };
}
free false r = r

-- `!o.sawResult && owns && o.firstTurnSnapshot`
give_back : Bool → Option FirstTurnSnapshot → Runner → Runner
give_back lacking none r = r
give_back true (some snapshot) r = record r { session = restore_first_turn snapshot r.session }
give_back false (some snapshot) r = r

resume_idle : Bool → Runner → Runner
unfolding act
resume_idle true r = act drains (act goes_idle r)
resume_idle false r = r

-- What follows the cleanup, for a runner that is stopped and for one that is not.
conclude : Bool → Bool → EndTurnOpts → Runner → Runner
unfolding act give_back resume_idle
conclude true owned o r = act (exits o.code) r
conclude false owned o r =
    resume_idle owned (give_back (not o.saw_result && owned) o.first_turn_snapshot r)

first_close : Bool → EndTurnOpts → Runner → Runner
unfolding act_if remember free conclude
first_close owned o r = conclude r.stopped owned o (
    free (owned || r.stopped) (
      act_if o.img_cleanup cleans_images (act_if o.before_cleanup flushes (remember o.turn_key r))))

pub is_repeat : EndTurnOpts → Runner → Bool
is_repeat o r = contains o.turn_key r.ended_turn_keys && not r.stopped

pub end_turn : EndTurnOpts → Runner → Runner
unfolding first_close is_repeat
end_turn o r = if is_repeat o r then r else first_close (owns o.epoch none r.session) o r

-- The closes of a series of processes.
pub end_turns : List EndTurnOpts → Runner → Runner
unfolding end_turn
end_turns [] r = r
end_turns (o ∷ closes) r = end_turns closes (end_turn o r)
