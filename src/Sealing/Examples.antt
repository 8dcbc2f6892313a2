-- ===== src/Sealing/Examples.antt =====
-- Tests and witnesses of sealing: one text is the encrypted one.
use Prim.Native.String.{String}
use the_dudes_daemon.Base.{
  ◌≡◌, refl, Bool, true, false, Option, none, some, [], ◌∷◌, comparable_string, ◌==◌,
}
use the_dudes_daemon.Principal.{system}
use the_dudes_daemon.Snapshot.{WireRecord}
use the_dudes_daemon.Retained.{ItemRetido, stop}
use the_dudes_daemon.Sealing.{
  Frame, cifrar, cifrar_imagens, with_images, selar, origem_do_frame, registro, remontado,
  com_conteudo, registro_do_frame, imagens_no_fio, juntar, para_fio,
}
use the_dudes_daemon.Sealing.Secrecy.{SealedIf, registro_do_frame-sealed}

opened : Unit {0}
unfolding cifrar cifrar_imagens with_images selar origem_do_frame registro remontado com_conteudo
    registro_do_frame imagens_no_fio juntar para_fio
opened = tt

abbrev is_sealed : String → Bool
is_sealed s = s == "e2e:1"

-- The key of the project "p" is the only one.
abbrev sealed_if : Bool → Option String
sealed_if true = some "e2e:1"
sealed_if false = none

abbrev seal : String → String → Option String
seal content project = sealed_if (project == "p")

abbrev key_of : String → Bool
key_of project = project == "p"

sealed_if-SealedIf : (b : Bool) → SealedIf is_sealed (sealed_if b)
sealed_if-SealedIf true = refl
sealed_if-SealedIf false = tt

seals : (content project : String) → SealedIf is_sealed (seal content project)
seals content project = sealed_if-SealedIf (project == "p")

abbrev never : String → Bool
never prefix = false

abbrev frame : Frame
frame = record {
  content = none;
  parts = true;
  images = none;
  project_id = some "p";
  origin = none;
  silent = false;
  system_prefix = none;
}

abbrev gravado : WireRecord
gravado = record {
  content = "e2e:1";
  images = none;
  enqueued_at = 5;
  origin = system;
  silent = false;
}

frame_test : registro_do_frame is_sealed seal seal key_of never frame "claro" none 5 ≡ some gravado
unfolding opened
frame_test = refl

registro_do_frame-sealed_example : is_sealed "e2e:1" ≡ true
unfolding opened
registro_do_frame-sealed_example =
    registro_do_frame-sealed is_sealed seal seal key_of seals never frame "claro" none 5 gravado
      refl refl

abbrev item : ItemRetido
item = record {
  delivery_id = some "d1";
  content = "claro";
  images = none;
  enqueued_at = 1;
  source = stop;
  principal = none;
}

abbrev short_ack : Option String → String → String
short_ack id cipher = "ack"

unsealed_test :
    (para_fio is_sealed seal seal key_of short_ack "q" (item ∷ [])).sem_chave ≡ item ∷ []
unfolding opened
unsealed_test = refl
