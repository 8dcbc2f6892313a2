-- ===== src/Session/FirstTurn.antt =====
-- The first turn's context is given out once, and can be given back.
use Prim.Native.String.{String}
use the_dudes_daemon.Base.{◌≡◌, true, false, none, some, arith}
use the_dudes_daemon.Session.{Session, consume_first_turn_if_needed, restore_first_turn}

-- Giving back what a turn took undoes the taking; a second turn in between takes nothing; and a
-- summary that was set in between is not overwritten.
pub restore-consume :
    (s : Session) (newer : String)
    → s.first_turn ≡ true
    → let (taken, snapshot) = consume_first_turn_if_needed s in
      (restore_first_turn snapshot taken ≡ s)
      × (consume_first_turn_if_needed taken
          ≡ (taken, record { first_turn = false; pending_summary = none }))
      × ((restore_first_turn snapshot
            (record taken { pending_summary = some newer })).pending_summary
          ≡ some newer)
unfolding consume_first_turn_if_needed restore_first_turn
restore-consume s newer h = (ground arith, ground arith, ground arith)
