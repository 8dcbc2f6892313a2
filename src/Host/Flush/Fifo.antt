-- ===== src/Host/Flush/Fifo.antt =====
-- The spool is delivered in its order, up to the first message that the runner refuses.
use Prim.Native.String.{String}
use the_dudes_daemon.Base.{
  ℕ, ◌≡◌, refl, ap, sym, ◌∙◌, subst, inl, inr, Bool, true, false, Option, some, List, [], ◌∷◌, ◌++◌,
  arith, lookup, delete, contains, comparable_string, if-false, Bool-cases,
}
use mathlib.Core.List.{append-nil}
use the_dudes_daemon.Host.{
  Message, SpoolRecord, RunnerApi, Entry, Host, held, runner_of, runner_in, put_runner,
}
use the_dudes_daemon.Host.Places.{
  held-insert_self, held-delete_self, put_runner-lookup, put_runner-spooled,
}
use the_dudes_daemon.Host.Spool.{
  Payload, Vault, Leitura, lido, chave, payload, ler_registro_spool, persist_spool,
}
use the_dudes_daemon.Host.Flush.{
  Delivery, message_of, deliver_one, deliver_read, go_on, deliver_records, put_back, finish,
  deliver_to, deliver_spool_for,
}

abbrev of_reading : Option String → Leitura → List Message
of_reading id (lido p) = message_of id p ∷ []
of_reading id chave = []
of_reading id payload = []

module _ (v : Vault) where
  -- The messages of the records that can be read.
  abbrev pub readable : List SpoolRecord → List Message
  readable [] = []
  readable (r ∷ list) = of_reading r.delivery_id (ler_registro_spool v r) ++ readable list

module _ {R : Type 0} (api : RunnerApi R) where
  abbrev pub push_kept : List Message → R → R
  push_kept [] r = r
  push_kept (m ∷ ms) r = push_kept ms (api.push m true r).0

  abbrev pub TakesAll : List Message → R → Type 0
  TakesAll [] r = Unit
  TakesAll (m ∷ ms) r = ((api.push m true r).1 ≡ true) × TakesAll ms (api.push m true r).0

  push_kept-append :
      (ms ns : List Message) (r : R) → push_kept (ms ++ ns) r ≡ push_kept ns (push_kept ms r)
  push_kept-append [] ns r = refl
  push_kept-append (m ∷ ms) ns r = push_kept-append ms ns (api.push m true r).0

  TakesAll-append :
      (ms ns : List Message) (r : R)
      → TakesAll ms r
      → TakesAll ns (push_kept ms r)
      → TakesAll (ms ++ ns) r
  TakesAll-append [] ns r h k = k
  TakesAll-append (m ∷ ms) ns r (t, h) k = (t, TakesAll-append ms ns (api.push m true r).0 h k)

module _ {R : Type 0} (api : RunnerApi R) (v : Vault) where
  -- The runner before and after the record that stopped the delivery, if one did: it refused it.
  abbrev pub Stops : List SpoolRecord → R → R → Type 0
  Stops [] before after = after ≡ before
  Stops (r ∷ list) before after =
      (p : Payload) × (ler_registro_spool v r ≡ lido p)
      × (api.push (message_of r.delivery_id p) true before ≡ (after, false))

  record Splits (list : List SpoolRecord) (d d' : Delivery R) : Type 0 where
    pub done : List SpoolRecord
    pub rest : List SpoolRecord
    pub all : list ≡ done ++ rest
    pub takes : TakesAll api (readable v done) d.runner
    pub stops : Stops rest (push_kept api (readable v done) d.runner) d'.runner
    pub left : d'.recusados ≡ d.recusados ++ rest
    pub same_host : d'.host ≡ d.host

  module _ (now : ℕ) (agent : String) where
    one_lem :
        (m : Message) (d : Delivery R)
        → contains agent d.host.pausados ≡ false
        → d.host.draining ≡ false
        → deliver_one api v now agent m d
          ≡ (record d { runner = (api.push m true d.runner).0 }, (api.push m true d.runner).1)
    one_lem m d p q = if-false _ _ _ p ∙ if-false _ _ _ q

    -- A record that goes on, with the messages that it gives the runner.
    extend :
        (r : SpoolRecord) (list : List SpoolRecord) (ms : List Message) (d d' : Delivery R)
        → of_reading r.delivery_id (ler_registro_spool v r) ≡ ms
        → TakesAll api ms d.runner
        → Splits list (record d { runner = push_kept api ms d.runner }) d'
        → Splits (r ∷ list) d d'
    extend r list ms d d' read takes s = record {
      done = r ∷ s.done;
      rest = s.rest;
      all = ap (λ l. r ∷ l) s.all;
      takes =
          subst (λ l. TakesAll api (l ++ readable v s.done) d.runner) (sym read)
            (TakesAll-append api ms (readable v s.done) d.runner takes s.takes);
      stops =
          subst (λ l. Stops s.rest (push_kept api (l ++ readable v s.done) d.runner) d'.runner)
            (sym read)
            (subst (λ (x : R). Stops s.rest x d'.runner)
              (sym (push_kept-append api ms (readable v s.done) d.runner)) s.stops);
      left = s.left;
      same_host = s.same_host;
    }

    step_lem :
        (r : SpoolRecord) (list : List SpoolRecord) (d : Delivery R) (l : Leitura)
        → ler_registro_spool v r ≡ l
        → contains agent d.host.pausados ≡ false
        → d.host.draining ≡ false
        → ((d' : Delivery R)
            → contains agent d'.host.pausados ≡ false
            → d'.host.draining ≡ false
            → Splits list d' (deliver_records api v now agent list d'))
        → let (d', went) = deliver_read api v now agent r.delivery_id l d in
          Splits
            (r ∷ list)
            d
            (go_on api v now agent (r ∷ list) (deliver_records api v now agent list d') d' went)
    step_lem r list d chave e p q rec =
        extend r list [] d _ (ap (of_reading r.delivery_id) e) tt (rec d p q)
    step_lem r list d payload e p q rec =
        extend r list [] d _ (ap (of_reading r.delivery_id) e) tt (rec d p q)
    step_lem r list d (lido pl) e p q rec =
        let m = message_of r.delivery_id pl in
        let d1 : Delivery R = record d { runner = (api.push m true d.runner).0 } in
        rw (one_lem m d p q) (elim (Bool-cases (api.push m true d.runner).1) [
          | inl taken ↦ rw taken (
              extend r list (m ∷ []) d _ (ap (of_reading r.delivery_id) e) (taken, tt) (rec d1 p q))
          | inr refused ↦ rw refused (record {
            done = [];
            rest = r ∷ list;
            all = refl;
            takes = tt;
            stops = (pl, e, ap (λ (b : Bool). ((api.push m true d.runner).0, b)) refused);
            left = refl;
            same_host = refl;
          })
        ])

    deliver_records-Splits :
        (list : List SpoolRecord) (d : Delivery R)
        → contains agent d.host.pausados ≡ false
        → d.host.draining ≡ false
        → Splits list d (deliver_records api v now agent list d)
    unfolding deliver_records
    deliver_records-Splits [] d p q = record {
      done = [];
      rest = [];
      all = refl;
      takes = tt;
      stops = refl;
      left = sym (append-nil d.recusados);
      same_host = refl;
    }
    deliver_records-Splits (r ∷ list) d p q =
        step_lem r list d (ler_registro_spool v r) refl p q
          (λ d' p' q'. deliver_records-Splits list d' p' q')

persist_spool-spooled :
    {R : Type 0} (written : Bool) (h : Host R)
    → ((persist_spool written h).spooled ≡ h.spooled)
      × ((persist_spool written h).entries ≡ h.entries)
unfolding persist_spool
persist_spool-spooled written h = ground arith

put_back_lem :
    {R : Type 0} (agent : String) (rest : List SpoolRecord) (h : Host R)
    → held agent h.spooled ≡ []
    → (held agent (put_back agent rest h).spooled ≡ rest)
      × ((put_back agent rest h).entries ≡ h.entries)
put_back_lem agent [] h e = (e, refl)
put_back_lem agent (r ∷ list) h e = (held-insert_self agent (r ∷ list) h.spooled, refl)

module _ {R : Type 0} (api : RunnerApi R) (v : Vault) (now : ℕ) (agent : String) where
  finish_lem :
      (written : Bool) (h : Host R) (d : Delivery R) (e : Entry R)
      → lookup agent h.entries ≡ some e
      → d.host ≡ record h { spooled = delete agent h.spooled }
      → let h' = (finish api v now agent written d).0 in
        (held agent h'.spooled ≡ d.recusados) × (runner_of agent h' ≡ some d.runner)
  finish_lem written h d e found same =
      let at_host : lookup agent d.host.entries ≡ some e =
        ap (λ (x : Host R). lookup agent x.entries) same ∙ found in
      let put = put_runner agent d.runner d.host in
      let put_entries : lookup agent put.entries ≡ some (record e { runner = some d.runner }) =
        put_runner-lookup agent d.runner d.host e at_host in
      let empty : held agent put.spooled ≡ [] =
        ap (held agent) (put_runner-spooled agent d.runner d.host)
        ∙ ap (λ (x : Host R). held agent x.spooled) same
        ∙ held-delete_self agent h.spooled in
      let (left, kept) = put_back_lem agent d.recusados put empty in
      let (spooled, entries) = persist_spool-spooled written (put_back agent d.recusados put) in
      (
        ap (held agent) spooled ∙ left,
        ap (λ x. runner_in (lookup agent x)) (entries ∙ kept) ∙ ap runner_in put_entries,
      )

  deliver_to_lem :
      (written : Bool) (list : List SpoolRecord) (h : Host R) (e : Entry R) (r : R)
      → lookup agent h.entries ≡ some e
      → runner_of agent h ≡ some r
      → contains agent h.pausados ≡ false
      → h.draining ≡ false
      → held agent h.spooled ≡ list
      → let h' = (deliver_to api v now agent written list (some r) h).0 in
        (done rest : List SpoolRecord) × (after : R) × (list ≡ done ++ rest)
        × (held agent h'.spooled ≡ rest)
        × (runner_of agent h' ≡ some after)
        × TakesAll api (readable v done) r
        × Stops api v rest (push_kept api (readable v done) r) after
  deliver_to_lem written [] h e r found run p q none_left =
      ([], [], r, refl, none_left, run, tt, refl)
  deliver_to_lem written (x ∷ list) h e r found run p q some_left =
      let start : Delivery R = record {
        host = record h { spooled = delete agent h.spooled };
        runner = r;
        retidos = [];
        recusados = [];
      } in
      let s = deliver_records-Splits api v now agent (x ∷ list) start p q in
      let d = deliver_records api v now agent (x ∷ list) start in
      let (left, ran) = finish_lem written h d e found s.same_host in
      (s.done, s.rest, d.runner, s.all, left ∙ s.left, ran, s.takes, s.stops)

  -- The spool of an agent that has a runner, is not paused and is not drained is delivered in its order:
  -- it splits into the records that went, whose readable messages the runner took one after the other,
  -- and those that stay in the spool, of which the runner refused the first. Where none stays, the runner
  -- is the one that took them all.
  pub deliver_spool_for-fifo :
      (written : Bool) (h : Host R) (e : Entry R) (r : R)
      → lookup agent h.entries ≡ some e
      → e.runner ≡ some r
      → contains agent h.pausados ≡ false
      → h.draining ≡ false
      → let h' = (deliver_spool_for api v now agent written h).0 in
        (done rest : List SpoolRecord) × (after : R) × (held agent h.spooled ≡ done ++ rest)
        × (held agent h'.spooled ≡ rest)
        × (runner_of agent h' ≡ some after)
        × TakesAll api (readable v done) r
        × Stops api v rest (push_kept api (readable v done) r) after
  unfolding deliver_spool_for
  deliver_spool_for-fifo written h e r found running p q =
      let run : runner_of agent h ≡ some r = ap runner_in found ∙ running in
      let list = held agent h.spooled in
      rw run (deliver_to_lem written list h e r found run p q refl)
