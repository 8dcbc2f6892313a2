-- ===== src/Nudge.antt =====
-- src/runners/hang-nudge.ts: the automatic message after a hard recover, and its budget.
mod Window
mod Examples
use Prim.Native.String.{String}
use the_dudes_daemon.Base.{
  ℕ, zero, suc, ◌+◌, ◌-◌, ◌*◌, Bool, true, false, Option, none, some, List, [], ◌∷◌, ◌++◌, leb, ltb,
  length, filter, if◌then◌else◌,
}
use the_dudes_daemon.Session.{QueuedMessage, Session, queued_count, enqueue}

abbrev hang_recover_nudge_text : String
hang_recover_nudge_text =
    "Última execução interrompida por falha do runner (hang detectado). Retoma o trabalho interrompido."

abbrev hang_recover_nudge_flag : String
hang_recover_nudge_flag = "hang-recover"

abbrev pub hang_recover_nudge_max : ℕ
hang_recover_nudge_max = 2

abbrev pub hang_recover_nudge_window_ms : ℕ
hang_recover_nudge_window_ms = 30 * 60000

abbrev pub hang_recover_nudge_backoff_ms : List ℕ
hang_recover_nudge_backoff_ms = 5000 ∷ 30000 ∷ []

-- `max`, `windowMs` and `backoffMs`, by default the constants above.
pub record Budget : Type 0 where
  pub max : ℕ
  pub window_ms : ℕ
  pub backoff_ms : List ℕ

abbrev pub default_budget : Budget
default_budget = record {
  max = hang_recover_nudge_max;
  window_ms = hang_recover_nudge_window_ms;
  backoff_ms = hang_recover_nudge_backoff_ms;
}

pub record HangNudgePlan : Type 0 where
  pub nudge : Bool
  pub notify : Bool
  pub sent_times : List ℕ
  pub backoff_ms : ℕ
  pub used : ℕ

-- `now - ts < windowMs`, without a negative number.
abbrev pub is_recent : ℕ → ℕ → ℕ → Bool
is_recent window_ms now ts = ltb now (ts + window_ms)

-- `backoffs[i] ?? backoffs[backoffs.length - 1] ?? 0`
backoff_at : List ℕ → ℕ → ℕ
backoff_at [] i = 0
backoff_at (b ∷ []) i = b
backoff_at (b ∷ c ∷ bs) zero = b
backoff_at (b ∷ c ∷ bs) (suc i) = backoff_at (c ∷ bs) i

pub plan_hang_recover_nudge : Budget → ℕ → ℕ → List ℕ → HangNudgePlan
unfolding backoff_at
plan_hang_recover_nudge b queue_length now sent_times =
    let kept = filter (is_recent b.window_ms now) sent_times in
    if ltb 0 queue_length
    then record {
      nudge = false;
      notify = false;
      sent_times = kept;
      backoff_ms = 0;
      used = length kept;
    }
    else if leb b.max (length kept)
    then record {
      nudge = false;
      notify = true;
      sent_times = kept;
      backoff_ms = 0;
      used = length kept;
    }
    else record {
      nudge = true;
      notify = false;
      sent_times = kept ++ now ∷ [];
      backoff_ms = backoff_at b.backoff_ms (length kept);
      used = length kept + 1;
    }

abbrev pub nudge_message : QueuedMessage
nudge_message = record {
  content = hang_recover_nudge_text;
  images = none;
  synthetic = some hang_recover_nudge_flag;
  delivery_id = none;
  principal = none;
  coalesced_ids = none;
}

-- The queue of the interface is the real session's.
pub deliver_hang_recover_nudge : ℕ → Session → Session × Bool
deliver_hang_recover_nudge max_size s =
    if ltb 0 (queued_count s) then (s, false) else enqueue nudge_message max_size s

-- A series of hard recovers, each with its time and the length of the queue then. The times of all
-- nudges that were planned are logged beside the list that the program keeps.
pub record History : Type 0 where
  pub last : ℕ
  pub sent_times : List ℕ
  pub log : List ℕ

pub start : History
start = record { last = 0; sent_times = []; log = [] }

pub recover : Budget → History → ℕ × ℕ → History
recover b h (now, queue_length) =
    let plan = plan_hang_recover_nudge b queue_length now h.sent_times in
    record {
      last = now;
      sent_times = plan.sent_times;
      log = if plan.nudge then h.log ++ now ∷ [] else h.log;
    }

pub recovers : Budget → History → List (ℕ × ℕ) → History
recovers b h [] = h
recovers b h (e ∷ es) = recovers b (recover b h e) es
