-- ===== src/Snapshot/Examples.antt =====
-- Tests and witnesses of the live queue: an item measures 10 bytes and more for a long text.
use Prim.Native.String.{String}
use the_dudes_daemon.Base.{ℕ, ◌≡◌, refl, true, false, Option, none, some, List, [], ◌∷◌, map}
use the_dudes_daemon.Principal.{Origin}
use the_dudes_daemon.Snapshot.{
  WireRecord, QueueLiveItem, PendingItem, vazio, Tetos, empurrar, selado, interno, registrado,
  sem_registro, com_registro, por_id, por_ids, montar, montar_snapshot,
}
use the_dudes_daemon.Snapshot.Ceilings.{Fits, montar_snapshot-Fits}

opened : Unit {0}
unfolding vazio empurrar selado interno registrado sem_registro com_registro por_id por_ids montar
    montar_snapshot
opened = tt

abbrev dez : QueueLiveItem → ℕ
dez it = 10

abbrev tres : Tetos
tres = record { max_itens = 3; max_bytes = 25 }

-- No key: a text that is to be sealed is omitted.
abbrev nunca : String → Option (List String) → Option (String × Option (List String))
nunca content images = none

abbrev nome : ℕ → String
nome n = "sem-id"

abbrev registros : List (String × WireRecord)
registros =
    (
      "a",
      record {
        content = "e2e:a";
        images = none;
        enqueued_at = 1;
        origin = Origin.user;
        silent = false;
      },
    )
    ∷ (
      "b",
      record {
        content = "e2e:b";
        images = none;
        enqueued_at = 2;
        origin = Origin.user;
        silent = false;
      },
    )
    ∷ (
      "c",
      record {
        content = "e2e:c";
        images = none;
        enqueued_at = 3;
        origin = Origin.user;
        silent = false;
      },
    )
    ∷ []

abbrev pendente : Option String → List String → PendingItem
pendente id more = record {
  content = "claro";
  images = none;
  delivery_id = id;
  coalesced_ids = some more;
}

abbrev espera : List PendingItem
espera = pendente none [] ∷ pendente (some "a") ("b" ∷ "a" ∷ []) ∷ pendente (some "c") [] ∷ []

-- The item without a record is omitted, and the third one passes the bytes.
snapshot_tests :
    let s = montar_snapshot dez tres nunca nome true 7 registros espera in
    (map (λ it. QueueLiveItem.delivery_id it) s.items ≡ "a" ∷ "b" ∷ [])
    × (s.omitidos ≡ 1)
    × (s.truncated ≡ true)
unfolding opened
snapshot_tests = (refl, refl, refl)

montar_snapshot-Fits_example :
    Fits dez tres (montar_snapshot dez tres nunca nome true 7 registros espera)
montar_snapshot-Fits_example = montar_snapshot-Fits dez tres nunca nome true 7 registros espera
