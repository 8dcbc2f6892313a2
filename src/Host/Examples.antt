-- ===== src/Host/Examples.antt =====
-- Tests and instances of the host's theorems, with a runner that has a short queue.
use Prim.Native.String.{String}
use the_dudes_daemon.Base.{
  ℕ, ◌≡◌, refl, true, false, none, some, List, [], ◌∷◌, ◌++◌, arith, length, comparable_nat, map,
  contains, comparable_string, ◌⊎◌,
}
use the_dudes_daemon.Principal.{is_non_owner_turn}
use the_dudes_daemon.Retained.{listar, vazia}
use the_dudes_daemon.Host.{
  Message, SpoolRecord, Host, held, runner_of, push_all, put_runner, truthy,
}
use the_dudes_daemon.Host.Hold.{held_now, hold_all, hold_for_drain}
use the_dudes_daemon.Host.Pause.{pause, resume}
use the_dudes_daemon.Host.Pause.Waits.{OfOwner, Runs}
use the_dudes_daemon.Host.Pause.Order.{send_each, pause-send-resume}
use the_dudes_daemon.Host.Send.{send_message}
use the_dudes_daemon.Host.Send.Member.{send_message-member}
use the_dudes_daemon.Host.Hold.Unique.{HoldsOnce}
use the_dudes_daemon.Host.Spool.{
  Sealed, gather, write_reexec_spool, seal_held, seal_items, seal, is_v2, persist_spool,
  ler_registro_spool,
}
use the_dudes_daemon.Host.Spool.Once.{gathers, sends as sends_event, run, run-HoldsOnce}
use the_dudes_daemon.Host.Spool.Carried.{write-load}
use the_dudes_daemon.Host.Boot.{load_reexec_spool}
use the_dudes_daemon.Host.Boot.Kept.{due, load_reexec_spool-due}
use the_dudes_daemon.Host.Flush.{deliver_spool_for, deliver_records}
use the_dudes_daemon.Host.Flush.Fifo.{readable, push_kept, TakesAll, Stops, deliver_spool_for-fifo}
use the_dudes_daemon.Host.Spool.RoundTrip.{restored}
use the_dudes_daemon.Host.Toy.{
  Toy, toy, says, of_member, runner, entry, host, same_text, vault, vault-IsLawful,
}

abbrev sends : List (ℕ × Message)
sends = (11, says "second" "d2") ∷ (12, says "third" "d3") ∷ []

owner_says : (text id : String) → OfOwner (says text id)
unfolding is_non_owner_turn
owner_says text id = refl

member_says : (text id : String) → is_non_owner_turn (of_member text id).principal ≡ true
unfolding is_non_owner_turn
member_says text id = refl

host-Runs : Runs "ana" runner host
host-Runs = record {
  entry = entry;
  found = refl;
  running = refl;
  started = refl;
  no_spool = refl;
  no_drain = refl;
  unpaused = refl;
  empty = refl;
}

pause-send-resume_example :
    let h' =
      resume toy "ana" (send_each toy same_text 1000 "ana" sends (pause toy 10 "ana" host)) in
    (runner_of "ana" h'
      ≡ some (
          push_all toy
            (says "first" "d1" ∷ says "second" "d2" ∷ says "third" "d3" ∷ [])
            (record runner { queue = [] })))
    × (held "ana" h'.pause_held ≡ [])
pause-send-resume_example =
    pause-send-resume toy same_text 1000 10 "ana" sends runner host host-Runs (omega arith)
      (owner_says "first" "d1", tt) (owner_says "second" "d2", (owner_says "third" "d3", tt))

send_message-member_example :
    let h' = send_message toy same_text 1000 10 "ana" (of_member "hi" "d5") host in
    (h'.inbound_buffer ≡ host.inbound_buffer)
    × (h'.retained ≡ host.retained)
    × (h'.drain_held ≡ host.drain_held)
    × (contains "ana" host.pausados ≡ false → h'.pause_held ≡ host.pause_held)
    × ((h'.entries ≡ host.entries)
        ⊎ ((r : Toy) × (runner_of "ana" host ≡ some r)
            × (contains "ana" host.pausados ≡ false)
            × (truthy (toy.non_owner_turn_block_reason r) ≡ false)
            × (h'.entries
                ≡ (put_runner "ana" (toy.push (of_member "hi" "d5") false r).0 host).entries)))
send_message-member_example =
    send_message-member toy same_text 1000 10 "ana" (of_member "hi" "d5") host
      (member_says "hi" "d5")

-- The queue of the drain holds a delivery that comes again from the queue of the pause.
abbrev draining_host : Host Toy
draining_host = record host {
  draining = true;
  drain_held = ("ana", held_now 5 (says "early" "d0") ∷ []) ∷ [];
  pause_held = ("ana", held_now 6 (says "early" "d0") ∷ []) ∷ [];
}

draining_host-HoldsOnce : HoldsOnce draining_host
draining_host-HoldsOnce agent id t = ground arith

run-HoldsOnce_example : HoldsOnce (
    run toy same_text 1000
      ((7, gathers) ∷ (8, sends_event "ana" (says "early" "d0")) ∷ [])
      draining_host)
run-HoldsOnce_example =
    run-HoldsOnce toy same_text 1000
      ((7, gathers) ∷ (8, sends_event "ana" (says "early" "d0")) ∷ []) draining_host
      draining_host-HoldsOnce

-- A host with a message that waits in the drain, and what it writes.
abbrev old_host : Host Toy
old_host = record host {
  draining = true;
  drain_held = ("ana", held_now 5 (says "early" "d0") ∷ held_now 6 (says "later" "d1") ∷ []) ∷ [];
}

abbrev saved : Sealed
saved = record {
  records =
      record {
        agent_id = "ana";
        project_id = "p";
        delivery_id = some "d0";
        enqueued_at = 5;
        blob = "e2e:v2:tearly";
        pausa = false;
        retido = false;
      }
      ∷ record {
        agent_id = "ana";
        project_id = "p";
        delivery_id = some "d1";
        enqueued_at = 6;
        blob = "e2e:v2:tlater";
        pausa = false;
        retido = false;
      }
      ∷ [];
  lost = 0;
  lost_delivery_ids = [];
}

abbrev left_host : Host Toy
left_host = (write_reexec_spool vault same_text true 20 old_host).0

saved_lem : write_reexec_spool vault same_text true 20 old_host ≡ (left_host, some saved)
unfolding write_reexec_spool gather seal_held seal_items seal is_v2 listar vazia hold_all
saved_lem = refl

abbrev new_host : Host Toy
new_host = record host { entries = [] }

write-load_example :
    let (up, n) =
      load_reexec_spool vault same_text 1000 30 true (some (map some saved.records)) new_host in
    (map (restored vault) (held "ana" up.spooled)
      ≡ map some (held "ana" (gather 20 old_host).drain_held))
    × ((saved.records ≡ []) ⊎ (left_host.disk ≡ some saved.records))
write-load_example =
    write-load vault same_text 20 old_host left_host saved vault-IsLawful saved_lem refl refl
      (refl, tt) 1000 30 true new_host (refl, (refl, tt)) refl "ana"

-- A runner with room for two more takes two of the three messages of the spool.
abbrev saved_record : String → String → SpoolRecord
saved_record id blob = record {
  agent_id = "ana";
  project_id = "p";
  delivery_id = some id;
  enqueued_at = 5;
  blob = blob;
  pausa = false;
  retido = false;
}

abbrev three : List SpoolRecord
three =
    saved_record "d2" "e2e:v2:ta"
    ∷ saved_record "d3" "e2e:v2:tb"
    ∷ saved_record "d4" "e2e:v2:tc"
    ∷ []

abbrev spooled_host : Host Toy
spooled_host = record host { spooled = ("ana", three) ∷ [] }

deliver_spool_for-fifo_example :
    let h' = (deliver_spool_for toy vault 10 "ana" true spooled_host).0 in
    (done rest : List SpoolRecord) × (after : Toy) × (held "ana" spooled_host.spooled
      ≡ done ++ rest)
    × (held "ana" h'.spooled ≡ rest)
    × (runner_of "ana" h' ≡ some after)
    × TakesAll toy (readable vault done) runner
    × Stops toy vault rest (push_kept toy (readable vault done) runner) after
deliver_spool_for-fifo_example =
    deliver_spool_for-fifo toy vault 10 "ana" true spooled_host entry runner refl refl refl refl

spool_tests :
    (length (held "ana" (deliver_spool_for toy vault 10 "ana" true spooled_host).0.spooled) ≡ 1)
    × ((deliver_spool_for toy vault 10 "ana" true
          (record spooled_host { draining = true })).0.drain_held
        ≡ (
          "ana",
          map
              (λ (s : String).
                held_now 10
                  (record { content = s; images = none; delivery_id = none; principal = none }))
              ("a" ∷ "b" ∷ "c" ∷ []),
        )
          ∷ [])
unfolding deliver_spool_for deliver_records persist_spool ler_registro_spool hold_for_drain
spool_tests = (refl, refl)

load_reexec_spool-due_example :
    held "ana"
      (load_reexec_spool vault same_text 1000 30 true
        (some (map some three))
        spooled_host).0.spooled
    ≡ held "ana" spooled_host.spooled ++ due 1000 30 "ana" (map some three)
load_reexec_spool-due_example =
    load_reexec_spool-due vault same_text 1000 30 true "ana" (map some three) spooled_host
