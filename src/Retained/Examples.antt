-- ===== src/Retained/Examples.antt =====
-- Tests and witnesses of the retained queue: the digest of a text is the text.
use Prim.Native.String.{String}
use the_dudes_daemon.Base.{
  ◌+◌, length, ◌≡◌, ◌∷◌, refl, Bool, true, false, not, none, some, List, [], arith, filter,
  comparable_string, ◌==◌,
}
use the_dudes_daemon.Retained.{
  estado_de, stop, manual, ItemRetido, Retencao, vazia, chave_item, podar, reter_um, expirar_de,
  guardar, adicionar, tomar_estado, reter, reter_todos, tomar, devolver, expirar, listar, tamanho,
}
use the_dudes_daemon.Retained.Spawn.{Entrada, entregar, entregar_fila_retida}
use the_dudes_daemon.Retained.Agent.{itens, IsInStep, reter-IsInStep}
use the_dudes_daemon.Retained.Reversal.{guardados, reverse, entregar_fila_retida-reverse}

opened : Unit {0}
unfolding vazia listar tamanho chave_item reter reter_todos tomar devolver expirar podar reter_um
    expirar_de guardar adicionar tomar_estado entregar entregar_fila_retida
opened = tt

abbrev mesmo : String → String
mesmo s = s

abbrev item : String → ItemRetido
item id = record {
  delivery_id = some id;
  content = "oi";
  images = none;
  enqueued_at = 10;
  source = stop;
  principal = none;
}

abbrev sem_id : String → ItemRetido
sem_id content = record {
  delivery_id = none;
  content = content;
  images = none;
  enqueued_at = 10;
  source = manual;
  principal = none;
}

abbrev chegam : List ItemRetido
chegam = item "a" ∷ sem_id "x" ∷ item "a" ∷ sem_id "x" ∷ item "b" ∷ []

abbrev cheia : Retencao
cheia = (reter mesmo 1000 20 "ana" chegam vazia).0

reter_tests :
    (chave_item mesmo (item "a") ≡ "d:a")
    × (chave_item mesmo (sem_id "x") ≡ "h:manual\nx")
    × (listar "ana" cheia ≡ item "a" ∷ sem_id "x" ∷ item "b" ∷ [])
    × ((expirar mesmo 1000 1011 cheia).1 ≡ 3)
    × (tamanho "ana" (expirar mesmo 1000 1010 cheia).0 ≡ 3)
    × (tamanho "ana" (expirar mesmo 1000 1011 cheia).0 ≡ 0)
unfolding opened
reter_tests = (refl, refl, refl, refl, refl, refl)

abbrev abre : Entrada
abre = record { runner = true; queue_auto_redeliver = none; pausado = false }

abbrev recusa : ItemRetido → Bool
recusa i = i.content == "oi"

-- The runner refuses the two items with the content "oi": they change places.
reentrega_test :
    listar "ana" (entregar_fila_retida mesmo recusa "ana" 1000 20 (some abre) cheia).0
    ≡ item "b" ∷ item "a" ∷ []
unfolding opened
reentrega_test = refl

abbrev mais : List ItemRetido
mais = item "b" ∷ item "c" ∷ []

cheia-IsInStep : IsInStep mesmo "ana" (expirar mesmo 1000 30 cheia).0
unfolding opened
cheia-IsInStep = record {
  same = refl;
  distinct = (refl, (refl, (refl, tt)));
  bounded = omega arith;
}

reter-IsInStep_example :
    let r' = (expirar mesmo 1000 30 cheia).0 in
    let (t, c) = reter mesmo 1000 30 "ana" mais cheia in
    IsInStep mesmo "ana" t
    × (c.retidos + c.duplicados ≡ 2)
    × (length (itens mesmo "ana" t) + c.descartados ≡ length (itens mesmo "ana" r') + c.retidos)
    × ((estado_de "ana" t).descartados ≡ (estado_de "ana" r').descartados + c.descartados)
reter-IsInStep_example =
    reter-IsInStep mesmo "ana" 1000 30 (item "b") (item "c" ∷ []) cheia cheia-IsInStep

entregar_fila_retida-reverse_example :
    let held = guardados mesmo recusa "ana" (expirar mesmo 1000 20 cheia).0 in
    let (r', entregues) = entregar_fila_retida mesmo recusa "ana" 1000 20 (some abre) cheia in
    (guardados mesmo recusa "ana" r' ≡ reverse (filter recusa held))
    × (entregues ≡ filter (λ i. not (recusa i)) held)
entregar_fila_retida-reverse_example =
    entregar_fila_retida-reverse mesmo recusa "ana" 1000 20 abre cheia refl
