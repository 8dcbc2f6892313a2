-- ===== src/Inbound/Delivery.antt =====
-- What a message that is pushed is for the calls that come after.
use Prim.Native.String.{String}
use the_dudes_daemon.Base.{
  ℕ, zero, suc, ◌+◌, ◌-◌, min, ◌⊎◌, ◌&&◌, Option, none, some, any, drop, filter, leb, ◌≡◌, ◌≢◌, inl,
  inr, refl, subst, ap, ◌∙◌, true, false, List, [], ◌∷◌, ◌++◌, arith, length, keep_last,
  length-keep_last, comparable_string, comparable_nat, nat_beq_iff, ◌==◌, Bool-cases,
}
use the_dudes_daemon.Dedup.{is_id}
use the_dudes_daemon.Inbound.{
  BufferedInbound, Buffer, get, put, drop_agent, live, gc, has_delivery, is_repeat, stamp, push,
  drain, peek,
}
use the_dudes_daemon.Inbound.Invariant.{get-put, get-drop_agent, get-gc}

eq_self : (a : String) → (a == a) ≡ true
eq_self a = (comparable_string.agree_iff a a).1 refl

get-gc_self : (a : String) (now : ℕ) (b : Buffer) → get a (gc a now b) ≡ live b.ttl_ms now (get a b)
get-gc_self a now b = get-gc a a now b ∙ rw (eq_self a)

gc-ttl_ms : (a : String) (now : ℕ) (b : Buffer) → (gc a now b).ttl_ms ≡ b.ttl_ms
unfolding gc
gc-ttl_ms a now b = ground arith

gc-max_per_agent :
    (a : String) (now : ℕ) (b : Buffer) → (gc a now b).max_per_agent ≡ b.max_per_agent
unfolding gc
gc-max_per_agent a now b = ground arith

-- The list holds a message with the delivery id of this one.
abbrev pub Came : BufferedInbound → List BufferedInbound → Type 0
Came m list =
    (id : String) × (m.delivery_id ≡ some id)
    × (id ≢ "")
    × (older : List BufferedInbound) × (x : BufferedInbound) × (newer : List BufferedInbound)
    × (list ≡ older ++ x ∷ newer)
    × (x.delivery_id ≡ some id)

-- The message as it is kept: the same, and where it had no time it has that of the push.
pub record IsStamped (now : ℕ) (m x : BufferedInbound) : Type 0 where
  pub content : x.content ≡ m.content
  pub images : x.images ≡ m.images
  pub delivery : x.delivery_id ≡ m.delivery_id
  pub time :
      ((m.enqueued_at ≢ 0) × (x.enqueued_at ≡ m.enqueued_at))
      ⊎ ((m.enqueued_at ≡ 0) × (x.enqueued_at ≡ now))

-- The oldest leave, in the number that is reported, and as many stay as there is room for.
pub record IsTrimmed (most : ℕ) (longer left : List BufferedInbound) (evicted : ℕ) : Type 0 where
  pub gone : List BufferedInbound
  pub split : longer ≡ gone ++ left
  pub counted : length gone ≡ evicted
  pub room : length left ≡ min most (length longer)

-- The outcome of a push for its agent, whose messages are `list`: what is left, and the number that
-- is reported as lost.
abbrev pub Pushed :
    ℕ → BufferedInbound → ℕ → List BufferedInbound → List BufferedInbound × ℕ → Type 0
Pushed most m now list (left, evicted) =
    (Came m list × (left ≡ list) × (evicted ≡ 0))
    ⊎ ((¬ Came m list)
        × (x : BufferedInbound) × IsStamped now m x
        × IsTrimmed most (list ++ x ∷ []) left evicted)

split_any :
    (id : String) (list : List BufferedInbound)
    → any (has_delivery (some id)) list ≡ true
    → (older : List BufferedInbound) × (x : BufferedInbound) × (newer : List BufferedInbound)
      × (list ≡ older ++ x ∷ newer)
      × (x.delivery_id ≡ some id)
split_any id [] h = cc
split_any id (m ∷ list) h = elim (Bool-cases (has_delivery (some id) m)) [
  | inl e ↦ ([], m, list, refl, its_id m.delivery_id e)
  | inr e ↦
      let (older, x, newer, split, same) = split_any id list (ground arith) in
      (m ∷ older, x, newer, ap (λ l. m ∷ l) split, same)
]
  where
    its_id :
        (o : Option String)
        → (elim o [ none ↦ false | some other ↦ other == id ]) ≡ true
        → o ≡ some id
    its_id none e = cc
    its_id (some other) e = ap (λ i. some i) ((comparable_string.agree_iff other id).0 e)

any-has_delivery :
    (id : String) (older newer : List BufferedInbound) (x : BufferedInbound)
    → x.delivery_id ≡ some id
    → any (has_delivery (some id)) (older ++ x ∷ newer) ≡ true
any-has_delivery id [] newer x h = rw (h, eq_self id) refl
any-has_delivery id (m ∷ older) newer x h = ground (arith, any-has_delivery id older newer x h)

repeat-Came :
    (m : BufferedInbound) (list : List BufferedInbound) (o : Option String)
    → m.delivery_id ≡ o
    → (is_id o && any (has_delivery o) list) ≡ true
    → Came m list
repeat-Came m list none e h = cc
repeat-Came m list (some id) e h =
    let (older, x, newer, split, same) = split_any id list (ground arith) in
    (id, e, ground (arith, comparable_string.agree_iff id ""), older, x, newer, split, same)

Came-repeat :
    (m : BufferedInbound) (list : List BufferedInbound) → Came m list → is_repeat m list ≡ true
Came-repeat m list (id, e, given, older, x, newer, split, same) =
    rw (e, split, any-has_delivery id older newer x same)
      (ground (arith, comparable_string.agree_iff id ""))

stamp-IsStamped : (now : ℕ) (m : BufferedInbound) → IsStamped now m (stamp now m)
stamp-IsStamped now m = record {
  content = refl;
  images = refl;
  delivery = refl;
  time = elim (Bool-cases (m.enqueued_at == 0)) [
    | inl e ↦ inr (ground (arith, nat_beq_iff m.enqueued_at 0), rw e refl)
    | inr e ↦ inl (ground (arith, nat_beq_iff m.enqueued_at 0), rw e refl)
  ];
}

split_drop :
    (n : ℕ) (xs : List BufferedInbound)
    → (gone : List BufferedInbound) × (xs ≡ gone ++ drop n xs) × (length gone ≡ min n (length xs))
split_drop zero xs = ([], refl, omega arith)
split_drop (suc n) [] = ([], refl, omega arith)
split_drop (suc n) (x ∷ xs) =
    let (gone, split, counted) = split_drop n xs in
    (x ∷ gone, ap (λ l. x ∷ l) split, omega (arith, counted))

keep_last-IsTrimmed :
    (most : ℕ) (xs : List BufferedInbound)
    → IsTrimmed most xs (keep_last most xs) (length xs - most)
keep_last-IsTrimmed most xs =
    let (gone, split, counted) = split_drop (length xs - most) xs in
    record {
      gone = gone;
      split = split;
      counted = omega (arith, counted);
      room = length-keep_last most xs;
    }

push-Pushed :
    (a : String) (m : BufferedInbound) (now : ℕ) (b : Buffer)
    → let b' = gc a now b in
      Pushed b'.max_per_agent m now (get a b') (get a (push a m now b).0, (push a m now b).1)
unfolding push
push-Pushed a m now b =
    let b' = gc a now b in
    let list = get a b' in
    let longer = list ++ stamp now m ∷ [] in
    let kept = keep_last b'.max_per_agent longer in
    elim (Bool-cases (is_repeat m list)) [
      | inl old ↦ rw old (inl (repeat-Came m list m.delivery_id refl old, refl, refl))
      | inr new ↦
          let left : get a (put a kept b') ≡ kept = get-put a a kept b' ∙ rw (eq_self a) in
          rw (new, left)
            (inr (
              (λ came. let old = Came-repeat m list came in cc (old, new)),
              stamp now m,
              stamp-IsStamped now m,
              keep_last-IsTrimmed b'.max_per_agent longer,
            ))
    ]

-- `push` deletes nothing in silence: of the agent's messages that are not too old, a delivery whose id
-- one of them has changes nothing; any other is appended as it is, with the time of the push where it
-- had none, the oldest leave beyond the ceiling, and the result is the number of those.
pub get-push :
    (a : String) (m : BufferedInbound) (now : ℕ) (b : Buffer)
    → Pushed b.max_per_agent m now
        (filter (λ (x : BufferedInbound). leb now (x.enqueued_at + b.ttl_ms)) (get a b))
        (get a (push a m now b).0, (push a m now b).1)
get-push a m now b =
    let r : List BufferedInbound × ℕ = (get a (push a m now b).0, (push a m now b).1) in
    subst (λ list. Pushed b.max_per_agent m now list r) (get-gc_self a now b)
      (subst (λ most. Pushed most m now (get a (gc a now b)) r) (gc-max_per_agent a now b)
        (push-Pushed a m now b))

-- An operation on one agent leaves the messages of the others alone.
pub get-push_ne :
    (a c : String) (m : BufferedInbound) (now : ℕ) (b : Buffer)
    → a ≢ c
    → (get c (push a m now b).0 ≡ get c b)
      × (get c (drain a now b).0 ≡ get c b)
      × (get c (peek a now b).0 ≡ get c b)
unfolding push drain peek
get-push_ne a c m now b h =
    let b' = gc a now b in
    let apart : (a == c) ≡ false = ground (arith, comparable_string.agree_iff a c) in
    let collected : get c b' ≡ get c b = get-gc a c now b ∙ rw apart in
    let longer = get a b' ++ stamp now m ∷ [] in
    let written = get-put a c (keep_last b'.max_per_agent longer) b' ∙ rw apart collected in
    (
      elim (Bool-cases (is_repeat m (get a b'))) [
        | inl old ↦ rw old collected
        | inr new ↦ rw new written
      ],
      get-drop_agent a c b' ∙ rw apart collected,
      collected,
    )

-- `drain` hands over all the messages that are not too old, in their order, and leaves none: a
-- second `drain` gives nothing.
pub drain-drain :
    (a : String) (now later : ℕ) (b : Buffer)
    → ((drain a now b).1 ≡ live b.ttl_ms now (get a b)) × ((drain a later (drain a now b).0).1 ≡ [])
unfolding drain
drain-drain a now later b =
    let b' = gc a now b in
    let gone : get a (drop_agent a b') ≡ [] = get-drop_agent a a b' ∙ rw (eq_self a) in
    (
      get-gc_self a now b,
      get-gc_self a later (drop_agent a b') ∙ ap (live (drop_agent a b').ttl_ms later) gone,
    )
