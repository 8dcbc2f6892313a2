-- ===== src/Session/Coalesce.antt =====
-- What becomes of a message when the queue is full.
use Prim.Native.String.{String}
use Prim.Native.String
use mathlib.Core.List.{append-nil}
use the_dudes_daemon.Base.{
  ℕ, ◌≤◌, ◌<◌, ◌≡◌, ◌⊎◌, inl, inr, refl, ap, true, false, some, List, [], ◌∷◌, ◌++◌, arith, leb,
  ltb, leb→le, length, length-append, All, Bool-cases, Option, none, sym, if◌then◌else◌, ◌==◌,
  comparable_string,
}
use the_dudes_daemon.Session.{
  QueuedMessage, Session, EnqueueOutcome, queued, coalesced, dropped, Search, missing, too_long,
  merged, merge, joined, more_ids, or_empty, has_items, is_synthetic, is_skipped, settle,
  search_back, enqueue, enqueue_or_coalesce,
}
use the_dudes_daemon.Principal.{Principal}
use the_dudes_daemon.Principal.Identity.{same_turn_principal_iff}

module _ (byte_length : String → ℕ) (message : QueuedMessage) (max_bytes : ℕ) where
  -- A message that the new one may be appended to: of a user, and of the very same provenance.
  abbrev pub MayTake : QueuedMessage → Type 0
  MayTake m =
      (is_synthetic m ≡ false)
      × ((a : Principal) × (m.principal ≡ some a) × (message.principal ≡ some a))

  takes-MayTake : (m : QueuedMessage) → is_skipped message m ≡ false → MayTake m
  takes-MayTake m h =
      (ground arith, (same_turn_principal_iff m.principal message.principal).0 (ground arith))

  skipped-MayTake : (m : QueuedMessage) → is_skipped message m ≡ true → ¬ MayTake m
  skipped-MayTake m h (user, same) =
      let e = (same_turn_principal_iff m.principal message.principal).1 same in ground arith

  -- The newest message of the queue that the new one may be appended to.
  pub record IsTarget (queue older : List QueuedMessage) (alvo : QueuedMessage)
      (newer : List QueuedMessage) : Type 0 where
    pub place : queue ≡ older ++ alvo ∷ newer
    pub takes : MayTake alvo
    pub newest : All (λ m. ¬ MayTake m) newer

  -- Both texts with the separator between them.
  abbrev pub appended : QueuedMessage → String
  appended m =
      String.◌++◌
        (String.◌++◌ m.content
          "\n\n--- mensagem seguinte (agrupada: a fila do agente estava no teto) ---\n\n")
        message.content

  -- The delivery that the new message adds, if it has an id.
  abbrev pub added_ids : Option String → List String
  added_ids none = []
  added_ids (some id) = if id == "" then [] else id ∷ []

  -- A message after the new one is appended to it: its text ends in the new one's, it has the images
  -- of both and remembers the delivery, and it is still the same message of the same sender.
  pub record IsAppended (m m' : QueuedMessage) : Type 0 where
    pub text : m'.content ≡ appended m
    pub images : or_empty m'.images ≡ or_empty m.images ++ or_empty message.images
    pub ids : or_empty m'.coalesced_ids ≡ or_empty m.coalesced_ids ++ added_ids message.delivery_id
    pub delivery : m'.delivery_id ≡ m.delivery_id
    pub sender : m'.principal ≡ m.principal
    pub origin : m'.synthetic ≡ m.synthetic

  images-merge :
      (old new : Option (List String))
      → or_empty (if has_items new then some (or_empty old ++ or_empty new) else old)
        ≡ or_empty old ++ or_empty new
  images-merge old none = sym (append-nil (or_empty old))
  images-merge old (some []) = sym (append-nil (or_empty old))
  images-merge old (some (x ∷ xs)) = refl

  ids-merge :
      (ids : Option (List String)) (id : Option String)
      → or_empty (more_ids ids id) ≡ or_empty ids ++ added_ids id
  ids-merge ids none = sym (append-nil (or_empty ids))
  ids-merge ids (some id) = elim (Bool-cases (id == "")) [
    | inl e ↦ rw e (sym (append-nil (or_empty ids)))
    | inr e ↦ rw e refl
  ]

  merge-IsAppended : (m : QueuedMessage) → IsAppended m (merge m message)
  unfolding merge
  merge-IsAppended m = record {
    text = refl;
    images = images-merge m.images message.images;
    ids = ids-merge m.coalesced_ids message.delivery_id;
    delivery = refl;
    sender = refl;
    origin = refl;
  }

  -- The target in the queue is replaced by itself with the new message appended.
  pub record IsMerged (queue queue' : List QueuedMessage) : Type 0 where
    pub older : List QueuedMessage
    pub alvo : QueuedMessage
    pub newer : List QueuedMessage
    pub target : IsTarget queue older alvo newer
    pub alvo' : QueuedMessage
    pub result : queue' ≡ older ++ alvo' ∷ newer
    pub grown : IsAppended alvo alvo'
    pub fits : byte_length alvo'.content ≤ max_bytes

  pub record IsTooLong (queue : List QueuedMessage) : Type 0 where
    pub older : List QueuedMessage
    pub alvo : QueuedMessage
    pub newer : List QueuedMessage
    pub target : IsTarget queue older alvo newer
    pub exceeds : max_bytes < byte_length (appended alvo)

  abbrev Meaning : List QueuedMessage → Search → Type 0
  Meaning queue missing = All (λ m. ¬ MayTake m) queue
  Meaning queue too_long = IsTooLong queue
  Meaning queue (merged queue') = IsMerged queue queue'

  IsTarget-cons :
      {queue older newer : List QueuedMessage} {alvo : QueuedMessage} (m : QueuedMessage)
      → IsTarget queue older alvo newer
      → IsTarget (m ∷ queue) (m ∷ older) alvo newer
  IsTarget-cons m t = record { place = ap (λ q. m ∷ q) t.place; takes = t.takes; newest = t.newest }

  -- One step of the loop, after what it found in the rest.
  search_cons :
      (m : QueuedMessage) (rest : List QueuedMessage) (found : Search)
      → search_back byte_length message max_bytes rest ≡ found
      → Meaning rest found
      → Meaning (m ∷ rest) (search_back byte_length message max_bytes (m ∷ rest))
  unfolding search_back merge
  search_cons m rest (merged rest') e t = rw e (record {
    older = m ∷ t.older;
    alvo = t.alvo;
    newer = t.newer;
    target = IsTarget-cons m t.target;
    alvo' = t.alvo';
    result = ap (λ q. m ∷ q) t.result;
    grown = t.grown;
    fits = t.fits;
  })
  search_cons m rest too_long e t = rw e (record {
    older = m ∷ t.older;
    alvo = t.alvo;
    newer = t.newer;
    target = IsTarget-cons m t.target;
    exceeds = t.exceeds;
  })
  search_cons m rest missing e t = elim (Bool-cases (is_skipped message m)) [
    | inl skipped ↦ rw (e, skipped) (skipped-MayTake m skipped, t)
    | inr takes ↦
        let target : IsTarget (m ∷ rest) [] m rest = record {
          place = refl;
          takes = takes-MayTake m takes;
          newest = t;
        } in
        elim (Bool-cases (ltb max_bytes (byte_length (joined m message)))) [
          | inl long ↦
              rw (e, takes, long)
                (record {
                  older = [];
                  alvo = m;
                  newer = rest;
                  target = target;
                  exceeds = ground arith;
                })
          | inr short ↦
              rw (e, takes, short)
                (record {
                  older = [];
                  alvo = m;
                  newer = rest;
                  target = target;
                  alvo' = merge m message;
                  result = refl;
                  grown = merge-IsAppended m;
                  fits = ground arith;
                })
        ]
  ]

  search_back-Meaning :
      (queue : List QueuedMessage) → Meaning queue (search_back byte_length message max_bytes queue)
  unfolding search_back
  search_back-Meaning [] = tt
  search_back-Meaning (m ∷ rest) = search_cons m rest _ refl (search_back-Meaning rest)

  -- What each answer says of the state before and after.
  abbrev pub Explains : ℕ → Session → Session → EnqueueOutcome → Type 0
  Explains max_size s t queued = (length s.queue < max_size) × (t.queue ≡ s.queue ++ message ∷ [])
  Explains max_size s t coalesced =
      (max_size ≤ length s.queue) × IsMerged s.queue t.queue × (t.observed ≡ s.observed)
  Explains max_size s t dropped =
      (max_size ≤ length s.queue) × (t ≡ s) × (All (λ m. ¬ MayTake m) s.queue ⊎ IsTooLong s.queue)

  explain_search :
      (max_size : ℕ) (s : Session) (found : Search)
      → max_size ≤ length s.queue
      → Meaning s.queue found
      → Explains max_size s (settle s found).0 (settle s found).1
  explain_search max_size s missing h t = (h, refl, inl t)
  explain_search max_size s too_long h t = (h, refl, inr t)
  explain_search max_size s (merged queue) h t = (h, t, refl)

  -- No message is lost in silence. `queued` means that there was room and it is the last of the
  -- queue; `coalesced`, that the queue was full and the newest message that may take it (of the same
  -- provenance and not synthetic) now ends in it, within `maxBytes`, while all others stand as they
  -- were; `dropped`, that the queue was full, no message may take it or the newest one that may would
  -- pass `maxBytes`, and nothing changed.
  pub enqueue_or_coalesce-Explains :
      (max_size : ℕ) (s : Session)
      → let r = enqueue_or_coalesce byte_length message max_size max_bytes s in
        Explains max_size s r.0 r.1
  unfolding enqueue_or_coalesce enqueue
  enqueue_or_coalesce-Explains max_size s = elim (Bool-cases (leb max_size (length s.queue))) [
    | inl full ↦ rw full (
        explain_search max_size s (search_back byte_length message max_bytes s.queue)
          (leb→le _ _ full) (search_back-Meaning s.queue))
    | inr room ↦ rw room (ground arith, refl)
  ]

  IsMerged-length : {q q' : List QueuedMessage} → IsMerged q q' → length q' ≡ length q
  IsMerged-length {q} {q'} m = omega (
    arith,
    ap length m.result,
    ap length m.target.place,
    length-append m.older (m.alvo ∷ m.newer),
    length-append m.older (m.alvo' ∷ m.newer),
  )

  explained-length :
      (max_size : ℕ) (s t : Session) (o : EnqueueOutcome)
      → Explains max_size s t o
      → length s.queue ≤ max_size
      → length t.queue ≤ max_size
  explained-length max_size s t queued (h, e) k =
      omega (arith, ap length e, length-append s.queue (message ∷ []))
  explained-length max_size s t coalesced (h, e, _) k = omega (arith, IsMerged-length e)
  explained-length max_size s t dropped (h, e, _) k = rw e k

  -- Whatever the answer, the queue holds no more turns than its ceiling.
  pub length-enqueue_or_coalesce :
      (max_size : ℕ) (s : Session)
      → length s.queue ≤ max_size
      → length (enqueue_or_coalesce byte_length message max_size max_bytes s).0.queue ≤ max_size
  length-enqueue_or_coalesce max_size s h =
      let r = enqueue_or_coalesce byte_length message max_size max_bytes s in
      explained-length max_size s r.0 r.1 (enqueue_or_coalesce-Explains max_size s) h
