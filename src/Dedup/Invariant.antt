-- ===== src/Dedup/Invariant.antt =====
-- The set and the queue of the deduper hold the same ids, the newest `max_seen` that were accepted.
use Prim.Native.String.{String}
use the_dudes_daemon.Base.{
  ℕ, suc, zero, ◌-◌, ◌≤◌, ◌≡◌, inl, inr, ◌∙◌, ap, sym, subst, refl, true, false, Option, none, some,
  List, [], ◌∷◌, ◌++◌, arith, ltb, length, if◌then◌else◌, contains, contains-append, add, remove,
  drop, keep_last, keep_last_more, keep_last_all, length-keep_last, comparable_string, ◌==◌,
  Bool-cases,
}
use the_dudes_daemon.Dedup.{
  Deduper, create, is_id, is_seen, trim, mark_new, mark_seen, accept, accept_all,
}

-- No id stands twice, and none is empty.
abbrev pub Distinct : List String → Type 0
Distinct [] = Unit {0}
Distinct (x ∷ xs) = (contains x xs ≡ false) × ((x == "") ≡ false) × Distinct xs

pub record IsValid (d : Deduper) : Type 0 where
  pub same : d.seen ≡ d.order
  pub distinct : Distinct d.order
  pub bounded : length d.order ≤ d.max_seen

remove_fresh : (k : String) (xs : List String) → contains k xs ≡ false → remove k xs ≡ xs
remove_fresh k [] h = refl
remove_fresh k (x ∷ xs) h = ground (arith, remove_fresh k xs)

Distinct-concat :
    (xs : List String) (k : String)
    → Distinct xs
    → contains k xs ≡ false
    → (k == "") ≡ false
    → Distinct (xs ++ k ∷ [])
Distinct-concat [] k d h n = (refl, n, tt)
Distinct-concat (x ∷ xs) k d h n = ground (
  arith,
  Distinct-concat xs k d.2,
  contains-append x xs (k ∷ []),
  comparable_string.agree_iff k x,
  comparable_string.agree_iff x k,
)

Distinct-drop : (n : ℕ) (xs : List String) → Distinct xs → Distinct (drop n xs)
Distinct-drop zero xs d = d
Distinct-drop (suc n) [] d = tt
Distinct-drop (suc n) (x ∷ xs) d = Distinct-drop n xs d.2

abbrev pub holding : ℕ → List String → Deduper
holding most ids = record { max_seen = most; seen = ids; order = ids }

-- The ids with one more, if there is one.
abbrev pub append_id : List String → Option String → List String
append_id ids none = ids
append_id ids (some id) = ids ++ id ∷ []

trim_lem :
    (most : ℕ) (xs ys : List String)
    → ys ≡ xs
    → Distinct xs
    → trim most ys xs ≡ holding most (keep_last most xs)
unfolding trim
trim_lem most [] ys e d = ground arith
trim_lem most (x ∷ xs) ys e d =
    let rest =
      trim_lem most xs (remove x ys)
        (rw e (ground (arith, remove_fresh x xs, comparable_string.agree_iff x x))) d.2 in
    elim (Bool-cases (ltb most (suc (length xs)))) [
      | inl more ↦
          rw (more, d.1) (rest ∙ ap (holding most) (sym (keep_last_more most x xs (ground arith))))
      | inr all ↦ rw (all, e, keep_last_all most (x ∷ xs) (ground arith))
    ]

-- An id that is not known is appended, and the oldest leave beyond `max_seen`; a known one, and a
-- message without an id, leave the state alone.
mark_new_lem :
    (id : String) (d : Deduper)
    → IsValid d
    → contains id d.order ≡ false
    → (id == "") ≡ false
    → mark_new id d ≡ holding d.max_seen (keep_last d.max_seen (d.order ++ id ∷ []))
unfolding mark_new
mark_new_lem id d v h n =
    trim_lem d.max_seen (d.order ++ id ∷ []) (add id d.seen) (rw v.same (rw h))
      (Distinct-concat d.order id v.distinct h n)

-- The deduper is a window: on a valid state, `accept` lets a message through exactly when it has no
-- id or an id that is not among those held; a new id is appended and the oldest ids leave, so that
-- `max_seen` stay at most; nothing else changes the state.
pub accept_lem :
    (d : Deduper) (id : Option String)
    → IsValid d
    → accept id d ≡ (
        if is_seen id d then (d, false) else (
          if is_id id then holding d.max_seen (keep_last d.max_seen (append_id d.order id)) else d,
          true,
        ))
unfolding accept is_seen mark_seen
accept_lem d none v = refl
accept_lem d (some id) v = elim (Bool-cases (id == "")) [
  | inl empty ↦ rw empty
  | inr named ↦ elim (Bool-cases (contains id d.seen)) [
    | inl known ↦ rw (named, known)
    | inr new ↦
        let fresh = subst (λ xs. contains id xs ≡ false) v.same new in
        rw (named, new, mark_new_lem id d v fresh named)
  ]
]

holding-IsValid :
    (most : ℕ) (ids : List String) → Distinct ids → IsValid (holding most (keep_last most ids))
holding-IsValid most ids d = record {
  same = refl;
  distinct = Distinct-drop (length ids - most) ids d;
  bounded = omega (arith, length-keep_last most ids);
}

-- Every `accept` keeps the two structures equal, without repetitions, and at most `max_seen` long.
pub accept-IsValid : (d : Deduper) (id : Option String) → IsValid d → IsValid (accept id d).0
unfolding is_seen
accept-IsValid d none v = rw (accept_lem d none v) v
accept-IsValid d (some id) v = elim (Bool-cases (id == "")) [
  | inl empty ↦ rw (accept_lem d (some id) v, empty) v
  | inr named ↦ elim (Bool-cases (contains id d.seen)) [
    | inl known ↦ rw (accept_lem d (some id) v, named, known) v
    | inr new ↦
        let fresh = subst (λ xs. contains id xs ≡ false) v.same new in
        rw (accept_lem d (some id) v, named, new)
          (holding-IsValid d.max_seen (d.order ++ id ∷ [])
            (Distinct-concat d.order id v.distinct fresh named))
  ]
]

pub accept_all-IsValid :
    (ids : List (Option String)) (d : Deduper) → IsValid d → IsValid (accept_all ids d)
unfolding accept_all
accept_all-IsValid [] d v = v
accept_all-IsValid (id ∷ ids) d v = accept_all-IsValid ids (accept id d).0 (accept-IsValid d id v)

pub create-IsValid : (most : ℕ) → IsValid (create most)
unfolding create
create-IsValid most = record { same = refl; distinct = tt; bounded = omega arith }
