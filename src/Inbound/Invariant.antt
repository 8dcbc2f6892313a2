-- ===== src/Inbound/Invariant.antt =====
-- What every operation keeps for every agent: the ceiling, and no delivery twice.
use Prim.Native.String.{String}
use the_dudes_daemon.Base.{
  ℕ, suc, zero, ◌+◌, ◌-◌, ◌≤◌, ◌≡◌, inl, inr, refl, subst, ◌∙◌, Bool, true, false, ◌&&◌, ◌||◌,
  Option, none, some, List, [], ◌∷◌, ◌++◌, arith, leb, length, if◌then◌else◌, filter,
  length-filter-le, any, drop, keep_last, length-keep_last, lookup, lookup-insert, lookup-delete,
  comparable_string, comparable_nat, ◌==◌, Bool-cases, Option-cases,
}
use the_dudes_daemon.Dedup.{is_id}
use the_dudes_daemon.Inbound.{
  BufferedInbound, Buffer, create, or_empty, get, put, drop_agent, is_empty, live, gc, has_delivery,
  is_repeat, stamp, push, drain, peek, splice, remove, size_of, clear, Event, pushes, drains, peeks,
  sizes, removes, clears, step, run,
}

-- The messages of an agent after one step, in terms of those before.
pub get-put :
    (a c : String) (list : List BufferedInbound) (b : Buffer)
    → get c (put a list b) ≡ (if a == c then list else get c b)
get-put a c list b = rw (lookup-insert a c list b.by_agent) (ground arith)

pub get-drop_agent :
    (a c : String) (b : Buffer) → get c (drop_agent a b) ≡ (if a == c then [] else get c b)
get-drop_agent a c b = rw (lookup-delete a c b.by_agent) (ground arith)

is_empty→nil {ℓ} : {A : Type ℓ} (xs : List A) → is_empty xs ≡ true → xs ≡ []
is_empty→nil [] h = refl
is_empty→nil (x ∷ xs) h = cc

-- Garbage collection drops the messages of the agent that are too old, and touches no other agent.
pub get-gc :
    (a c : String) (now : ℕ) (b : Buffer)
    → get c (gc a now b) ≡ (if a == c then live b.ttl_ms now (get c b) else get c b)
unfolding gc
get-gc a c now b = elim (Option-cases (lookup a b.by_agent)) [
  | inl e ↦ rw (e, gc) (ground (arith, comparable_string.agree_iff a c))
  | inr (list, e) ↦ elim (Bool-cases (is_empty (live b.ttl_ms now list))) [
    | inl old ↦
        let nil = is_empty→nil (live b.ttl_ms now list) old in
        rw (e, gc, old) (get-drop_agent a c b ∙ ground (arith, comparable_string.agree_iff a c))
    | inr new ↦
        rw (e, gc, new)
          (get-put a c (live b.ttl_ms now list) b ∙ ground (arith, comparable_string.agree_iff a c))
  ]
]

-- At most `most` messages, and no two with the same id.
abbrev pub Distinct : List BufferedInbound → Type 0
Distinct [] = Unit {0}
Distinct (m ∷ list) = (is_repeat m list ≡ false) × Distinct list

pub record IsOrderly (most : ℕ) (list : List BufferedInbound) : Type 0 where
  pub bounded : length list ≤ most
  pub distinct : Distinct list

any-filter :
    (p q : BufferedInbound → Bool) (list : List BufferedInbound)
    → any p list ≡ false
    → any p (filter q list) ≡ false
any-filter p q [] h = refl
any-filter p q (m ∷ list) h = ground (arith, any-filter p q list)

Distinct-filter :
    (q : BufferedInbound → Bool) (list : List BufferedInbound)
    → Distinct list
    → Distinct (filter q list)
Distinct-filter q [] d = tt
Distinct-filter q (m ∷ list) d =
    ground (arith, Distinct-filter q list d.1, any-filter (has_delivery m.delivery_id) q list)

IsOrderly-filter :
    (most : ℕ) (q : BufferedInbound → Bool) (list : List BufferedInbound)
    → IsOrderly most list
    → IsOrderly most (filter q list)
IsOrderly-filter most q list o = record {
  bounded = omega (arith, length-filter-le q list);
  distinct = Distinct-filter q list o.distinct;
}

Distinct-drop : (n : ℕ) (list : List BufferedInbound) → Distinct list → Distinct (drop n list)
Distinct-drop zero list d = d
Distinct-drop (suc n) [] d = tt
Distinct-drop (suc n) (m ∷ list) d = Distinct-drop n list d.1

any-concat :
    (p : BufferedInbound → Bool) (list : List BufferedInbound) (m : BufferedInbound)
    → any p (list ++ m ∷ []) ≡ (any p list || p m)
any-concat p [] m = ground arith
any-concat p (n ∷ list) m = ground (arith, any-concat p list m)

-- Whether one message carries the id of another does not depend on which is asked.
has_delivery_comm :
    (m n : BufferedInbound)
    → is_id m.delivery_id && has_delivery m.delivery_id n
      ≡ is_id n.delivery_id && has_delivery n.delivery_id m
has_delivery_comm m n = go m.delivery_id n.delivery_id refl refl
  where
    go :
        (i j : Option String)
        → m.delivery_id ≡ i
        → n.delivery_id ≡ j
        → (is_id m.delivery_id && has_delivery m.delivery_id n)
          ≡ (is_id n.delivery_id && has_delivery n.delivery_id m)
    go none none p q = ground arith
    go none (some j) p q = ground arith
    go (some i) none p q = ground arith
    go (some i) (some j) p q =
        ground (arith, comparable_string.agree_iff i j, comparable_string.agree_iff j i)

Distinct-concat :
    (list : List BufferedInbound) (m : BufferedInbound)
    → Distinct list
    → is_repeat m list ≡ false
    → Distinct (list ++ m ∷ [])
Distinct-concat [] m d h = (ground arith, tt)
Distinct-concat (n ∷ list) m d h = ground (
  arith,
  Distinct-concat list m d.1,
  any-concat (has_delivery n.delivery_id) list m,
  has_delivery_comm m n,
)

pub record IsValid (most : ℕ) (b : Buffer) : Type 0 where
  pub ceiling : b.max_per_agent ≡ most
  pub orderly : (c : String) → IsOrderly most (get c b)

gc-max_per_agent :
    (a : String) (now : ℕ) (b : Buffer) → (gc a now b).max_per_agent ≡ b.max_per_agent
unfolding gc
gc-max_per_agent a now b = ground arith

any-splice :
    (p : BufferedInbound → Bool) (id : String) (list : List BufferedInbound)
    → any p list ≡ false
    → any p (splice id list) ≡ false
unfolding splice
any-splice p id [] h = refl
any-splice p id (m ∷ list) h = ground (arith, any-splice p id list)

Distinct-splice :
    (id : String) (list : List BufferedInbound) → Distinct list → Distinct (splice id list)
unfolding splice
Distinct-splice id [] d = tt
Distinct-splice id (m ∷ list) d =
    ground (arith, Distinct-splice id list d.1, any-splice (has_delivery m.delivery_id) id list)

length-splice-le :
    (id : String) (list : List BufferedInbound) → length (splice id list) ≤ length list
unfolding splice
length-splice-le id [] = omega arith
length-splice-le id (m ∷ list) = ground (arith, length-splice-le id list)

module _ {most : ℕ} where
  nil-IsOrderly : IsOrderly most []
  nil-IsOrderly = record { bounded = omega arith; distinct = tt }

  if-IsOrderly :
      (t : Bool) (xs ys : List BufferedInbound)
      → IsOrderly most xs
      → IsOrderly most ys
      → IsOrderly most (if t then xs else ys)
  if-IsOrderly true xs ys o p = o
  if-IsOrderly false xs ys o p = p

  put-IsValid :
      (a : String) (list : List BufferedInbound) (b : Buffer)
      → IsOrderly most list
      → IsValid most b
      → IsValid most (put a list b)
  put-IsValid a list b o v = record {
    ceiling = v.ceiling;
    orderly = λ c. rw (get-put a c list b) (if-IsOrderly (a == c) list (get c b) o (v.orderly c));
  }

  drop_agent-IsValid : (a : String) (b : Buffer) → IsValid most b → IsValid most (drop_agent a b)
  drop_agent-IsValid a b v = record {
    ceiling = v.ceiling;
    orderly = λ c.
        rw (get-drop_agent a c b) (if-IsOrderly (a == c) [] (get c b) nil-IsOrderly (v.orderly c));
  }

  gc-IsValid : (a : String) (now : ℕ) (b : Buffer) → IsValid most b → IsValid most (gc a now b)
  gc-IsValid a now b v = record {
    ceiling = gc-max_per_agent a now b ∙ v.ceiling;
    orderly = λ c. rw (get-gc a c now b) (
        if-IsOrderly (a == c) (live b.ttl_ms now (get c b)) (get c b)
          (IsOrderly-filter most (λ m. leb now (m.enqueued_at + b.ttl_ms)) (get c b) (v.orderly c))
          (v.orderly c));
  }

  push-IsValid :
      (a : String) (m : BufferedInbound) (now : ℕ) (b : Buffer)
      → IsValid most b
      → IsValid most (push a m now b).0
  unfolding push
  push-IsValid a m now b v =
      let b' = gc a now b in
      let v' = gc-IsValid a now b v in
      let longer = get a b' ++ stamp now m ∷ [] in
      elim (Bool-cases (is_repeat m (get a b'))) [
        | inl old ↦ rw old v'
        | inr new ↦
            let kept : IsOrderly most (keep_last b'.max_per_agent longer) = record {
              bounded = omega (arith, length-keep_last b'.max_per_agent longer, v'.ceiling);
              distinct =
                  Distinct-drop (length longer - b'.max_per_agent) longer
                    (Distinct-concat (get a b') (stamp now m) (v'.orderly a).distinct new);
            } in
            rw new (put-IsValid a (keep_last b'.max_per_agent longer) b' kept v')
      ]

  remove-IsValid : (a id : String) (b : Buffer) → IsValid most b → IsValid most (remove a id b).0
  unfolding remove
  remove-IsValid a id b v = elim (Option-cases (lookup a b.by_agent)) [
    | inl e ↦ rw (e, remove) v
    | inr (list, e) ↦
        let o : IsOrderly most list = subst (λ r. IsOrderly most (or_empty r)) e (v.orderly a) in
        let rest : IsOrderly most (splice id list) = record {
          bounded = omega (arith, length-splice-le id list, o.bounded);
          distinct = Distinct-splice id list o.distinct;
        } in
        elim (Bool-cases (any (has_delivery (some id)) list)) [
          | inr missing ↦ rw (e, remove, missing) v
          | inl found ↦ elim (Bool-cases (is_empty (splice id list))) [
            | inl last ↦ rw (e, remove, found, last) (drop_agent-IsValid a b v)
            | inr more ↦ rw (e, remove, found, more) (put-IsValid a (splice id list) b rest v)
          ]
        ]
  ]

  step-IsValid : (e : ℕ × Event) (b : Buffer) → IsValid most b → IsValid most (step b e)
  unfolding step drain peek size_of clear
  step-IsValid (now, pushes a m) b v = push-IsValid a m now b v
  step-IsValid (now, drains a) b v = drop_agent-IsValid a (gc a now b) (gc-IsValid a now b v)
  step-IsValid (now, peeks a) b v = gc-IsValid a now b v
  step-IsValid (now, sizes a) b v = gc-IsValid a now b v
  step-IsValid (now, removes a id) b v = remove-IsValid a id b v
  step-IsValid (now, clears) b v = record { ceiling = v.ceiling; orderly = λ c. nil-IsOrderly }

  run-IsValid : (es : List (ℕ × Event)) (b : Buffer) → IsValid most b → IsValid most (run b es)
  unfolding run
  run-IsValid [] b v = v
  run-IsValid (e ∷ es) b v = run-IsValid es (step b e) (step-IsValid e b v)

-- After any sequence of operations, the buffer of every agent holds at most `maxPerAgent` messages
-- and no two with the same delivery id.
pub run-create-IsOrderly :
    (most ttl : ℕ) (es : List (ℕ × Event)) (c : String)
    → IsOrderly most (get c (run (create most ttl) es))
run-create-IsOrderly most ttl es c =
    (run-IsValid es (create most ttl)
        (record { ceiling = ceiling; orderly = λ a. empty a })).orderly
      c
  where
    ceiling : (create most ttl).max_per_agent ≡ most
    ceiling = unfold create in refl

    empty : (a : String) → IsOrderly most (get a (create most ttl))
    empty a = unfold create in nil-IsOrderly
