-- ===== src/Outbound/Eviction.antt =====
-- The ceiling of the queue, and what it costs.
use mathlib.Core.List.{append-nil}
use the_dudes_daemon.Base.{
  ℕ, zero, suc, ◌+◌, ◌-◌, ◌≤◌, ◌<◌, ◌≡◌, ◌⊎◌, inl, inr, refl, sym, ap, ◌∙◌, Bool, true, false, none,
  some, List, [], ◌∷◌, ◌++◌, arith, length, filter, filter-append, length-filter-le,
  comparable_string, Option-cases, Bool-cases,
}
use the_dudes_daemon.Outbound.{
  Item, Queue, Sending, sent, thrown, is_critical_outbound, is_high_priority_outbound, drop_low,
  evict_one, evict_rounds, enqueue_critical, try_send_outbound,
}

abbrev pub semantic : List Item → List Item
semantic = filter is_high_priority_outbound

-- Without a frame of low priority all frames are semantic.
drop_low-none : (items : List Item) → drop_low items ≡ none → semantic items ≡ items
unfolding drop_low
drop_low-none [] e = refl
drop_low-none (i ∷ is) e = ground (arith, drop_low-none is)

drop_low-some :
    (items rest : List Item)
    → drop_low items ≡ some rest
    → (semantic rest ≡ semantic items) × (suc (length rest) ≡ length items)
unfolding drop_low
drop_low-some [] rest e = cc
drop_low-some (i ∷ is) rest e = elim (Bool-cases (is_high_priority_outbound i)) [
  | inr low ↦ ground arith
  | inl high ↦ elim (Option-cases (drop_low is)) [
    | inl none_left ↦ ground arith
    | inr (r, f) ↦ ground (arith, drop_low-some is r f)
  ]
]

evict_one-length : (items : List Item) → length (evict_one items) ≡ length items - 1
unfolding evict_one
evict_one-length [] = unfold drop_low in refl
evict_one-length (i ∷ is) = elim (Option-cases (drop_low (i ∷ is))) [
  | inl e ↦ rw (e, evict_one) (omega arith)
  | inr (r, e) ↦ rw (e, evict_one) (omega (arith, (drop_low-some (i ∷ is) r e).1))
]

-- An eviction takes no semantic frame while there is another one.
evict_one-semantic :
    (items : List Item)
    → length (semantic items) < length items
    → semantic (evict_one items) ≡ semantic items
unfolding evict_one
evict_one-semantic items h = elim (Option-cases (drop_low items)) [
  | inl e ↦ absurd (omega (arith, ap length (drop_low-none items e)))
  | inr (r, e) ↦ rw (e, evict_one) (drop_low-some items r e).0
]

evict_rounds-length : (n : ℕ) (items : List Item) → length (evict_rounds n items) ≡ length items - n
unfolding evict_rounds
evict_rounds-length zero items = omega arith
evict_rounds-length (suc n) items =
    omega (arith, evict_rounds-length n (evict_one items), evict_one-length items)

evict_rounds-semantic :
    (n : ℕ) (items : List Item)
    → length (semantic items) + n ≤ length items
    → semantic (evict_rounds n items) ≡ semantic items
unfolding evict_rounds
evict_rounds-semantic zero items h = refl
evict_rounds-semantic (suc n) items h =
    let same = evict_one-semantic items (omega arith) in
    evict_rounds-semantic n (evict_one items)
      (omega (arith, ap length same, evict_one-length items))
    ∙ same

-- After a frame is queued the queue is within its ceiling again: the loop has rounds enough.
pub length-enqueue_critical :
    (msg : Item) (q : Queue)
    → length q.items ≤ q.max
    → length (enqueue_critical msg q).items ≤ q.max
unfolding enqueue_critical
length-enqueue_critical msg q h =
    let longer = q.items ++ msg ∷ [] in
    ground (arith, evict_rounds-length (length longer - q.max) longer)

-- A type that no set of the source names is neither critical nor semantic.
is_critical_of_high :
    (msg : Item) → is_critical_outbound msg ≡ false → is_high_priority_outbound msg ≡ false
unfolding is_critical_outbound is_high_priority_outbound
is_critical_of_high msg h = ground arith

semantic-enqueue_critical :
    (msg : Item) (q : Queue)
    → length (semantic (q.items ++ msg ∷ [])) ≤ q.max
    → semantic (enqueue_critical msg q).items ≡ semantic (q.items ++ msg ∷ [])
unfolding enqueue_critical
semantic-enqueue_critical msg q h =
    let longer = q.items ++ msg ∷ [] in
    elim (Bool-cases (is_critical_outbound msg)) [
      | inl critical ↦ rw critical (
          evict_rounds-semantic (length longer - q.max) longer
            (omega (arith, length-filter-le is_high_priority_outbound longer)))
      | inr other ↦ rw other (
          sym (
            filter-append is_high_priority_outbound q.items (msg ∷ [])
            ∙ ground (arith, is_critical_of_high msg, append-nil (semantic q.items))))
    ]

-- No semantic frame (text, error, hung or exit) is lost as long as these alone are within the
-- ceiling: a frame is either handed to the socket, with the queue untouched, or the queue's semantic
-- frames are the old ones in their order with this one, if it is semantic, at the end.
pub try_send_outbound-semantic :
    (msg : Item) (can_send : Bool) (s : Sending) (q : Queue)
    → length (semantic (q.items ++ msg ∷ [])) ≤ q.max
    → let (q', done) = try_send_outbound msg can_send s q in
      ((done ≡ true) × (s ≡ sent) × (q' ≡ q))
      ⊎ ((done ≡ false) × (semantic q'.items ≡ semantic (q.items ++ msg ∷ [])))
unfolding try_send_outbound
try_send_outbound-semantic msg true sent q h = inl (refl, refl, refl)
try_send_outbound-semantic msg true thrown q h = inr (refl, semantic-enqueue_critical msg q h)
try_send_outbound-semantic msg false s q h = inr (refl, semantic-enqueue_critical msg q h)
