-- ===== src/Host/Toy.antt =====
-- For the tests: a runner with a short queue, a host with one agent, and a key that marks its texts.
use Prim.Native.String.{String}
use the_dudes_daemon.Base.{
  ℕ, zero, suc, ◌≡◌, refl, Bool, true, false, Option, none, some, List, [], ◌∷◌, ◌++◌, ltb, length,
  if◌then◌else◌, comparable_nat, comparable_string, subst, ◌>>=◌,
}
use the_dudes_daemon.Principal.{Principal}
use the_dudes_daemon.Inbound
use the_dudes_daemon.Retained
use the_dudes_daemon.Retained.{listar, vazia}
use the_dudes_daemon.Host.{Message, RunnerApi, Entry, DrainReason, Host}
use the_dudes_daemon.Host.Spool.{Vault}
use the_dudes_daemon.Host.Spool.RoundTrip.{IsLawful}

pub record Toy : Type 0 where
  pub queue : List Message
  pub room : ℕ
  pub reason : Option String

abbrev pub toy_push : Message → Bool → Toy → Toy × Bool
toy_push m own t =
    if ltb (length t.queue) t.room
    then (record t { queue = t.queue ++ m ∷ [] }, true)
    else (t, false)

abbrev pub toy : RunnerApi Toy
toy = record {
  push = toy_push;
  take_queued_for_drain = λ t. (record t { queue = [] }, t.queue);
  take_in_flight_for_shutdown = λ t. (t, none);
  take_queue_for_retain = λ t. (t, []);
  non_owner_turn_block_reason = λ t. t.reason;
  stop = λ t. t;
}

abbrev pub says : String → String → Message
says text id = record { content = text; images = none; delivery_id = some id; principal = none }

abbrev pub of_member : String → String → Message
of_member text id = record {
  content = text;
  images = none;
  delivery_id = some id;
  principal = some (record { from = none; is_agent_owner = some false; origin = none });
}

abbrev pub runner : Toy
runner = record { queue = says "first" "d1" ∷ []; room = 3; reason = none }

abbrev pub entry : Entry Toy
entry = record { runner = some runner; parado = false; project_id = some "p" }

abbrev pub host : Host Toy
host = record {
  entries = ("ana", entry) ∷ [];
  inbound_buffer = Inbound.create 20 900000;
  inbound_agent_ids = [];
  draining = false;
  drain_reason = DrainReason.update;
  drain_held = [];
  drain_notified = [];
  spooled = [];
  pausados = [];
  pause_held = [];
  retained = Retained.vazia;
  retido_no_boot = [];
  spool_path = false;
  disk = none;
  fila_viva_timers = [];
  notices = [];
}

abbrev pub same_text : String → String
same_text s = s

abbrev pub prefix : String → String → String
prefix String.[] s = s
prefix (String.◌∷◌ c p) s = String.◌∷◌ c (prefix p s)

-- A key that marks the text of a message of no sender, and has no other text.
abbrev pub tagged : Option (List String) → Option Principal → String → String
tagged none none content = prefix "t" content
tagged none (some p) content = ""
tagged (some images) p content = ""

abbrev pub drop_first : ℕ → String → String
drop_first zero s = s
drop_first (suc n) String.[] = String.[]
drop_first (suc n) (String.◌∷◌ c s) = drop_first n s

abbrev pub sealed_text : String → Option String
sealed_text String.[] = none
sealed_text (String.◌∷◌ c s) = some (prefix "e2e:v2:" (String.◌∷◌ c s))

abbrev pub vault : Vault
vault = record {
  stringify = λ p. tagged p.images p.principal p.content;
  parse = λ s. some (record { content = drop_first 1 s; images = none; principal = none });
  encrypt = λ project s. sealed_text s;
  decrypt = λ project blob. some (drop_first 7 blob);
}

vault_opens :
    (project plain blob : String)
    → vault.encrypt project plain ≡ some blob
    → vault.decrypt project blob ≡ some plain
vault_opens project String.[] blob e = cc
vault_opens project (String.◌∷◌ c s) blob e =
    subst (λ (o : Option String). (o >>= λ b. vault.decrypt project b) ≡ some (String.◌∷◌ c s)) e
      refl

tagged_parses :
    (images : Option (List String)) (p : Option Principal) (content blob : String)
    → sealed_text (tagged images p content) ≡ some blob
    → vault.parse (tagged images p content)
      ≡ some (record { content = content; images = images; principal = p })
tagged_parses none none content blob e = refl
tagged_parses none (some p) content blob e = cc
tagged_parses (some images) p content blob e = cc

pub vault-IsLawful : IsLawful vault
vault-IsLawful = record {
  opens = vault_opens;
  parses = λ project blob p e. tagged_parses p.images p.principal p.content blob e;
}
