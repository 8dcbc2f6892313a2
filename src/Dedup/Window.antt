-- ===== src/Dedup/Window.antt =====
-- How long the deduper remembers an id.
use Prim.Native.String.{String}
use mathlib.Core.List.{append_assoc}
use the_dudes_daemon.Base.{
  ℕ, suc, ◌+◌, ◌≤◌, ◌<◌, ◌≡◌, inl, inr, ◌∙◌, ap, sym, subst, refl, true, false, Option, none, some,
  List, [], ◌∷◌, ◌++◌, arith, length, length-append, contains, keep_last, comparable_string,
  Bool-cases,
}
use the_dudes_daemon.Base.{IsRecent, IsRecent-contains, keep_last-IsRecent}
use the_dudes_daemon.Dedup.{Deduper, is_id, is_seen, accept, accept_all}
use the_dudes_daemon.Dedup.Invariant.{IsValid, accept_lem, accept-IsValid, accept_all-IsValid}

is_seen-none : (d : Deduper) → is_seen none d ≡ false
unfolding is_seen
is_seen-none d = refl

-- One more id comes after at most.
accept-IsRecent :
    (n : ℕ) (id : String) (d : Deduper) (other : Option String)
    → IsValid d
    → IsRecent n id d.order
    → n < d.max_seen
    → (IsRecent (suc n) id (accept other d).0.order) × ((accept other d).0.max_seen ≡ d.max_seen)
accept-IsRecent n id d none v (older, newer, e, h) k =
    rw (accept_lem d none v, is_seen-none d) ((older, newer, e, omega arith), refl)
accept-IsRecent n id d (some o) v (older, newer, e, h) k = elim (Bool-cases (is_seen (some o) d)) [
  | inl known ↦ rw (accept_lem d (some o) v, known) ((older, newer, e, omega arith), refl)
  | inr new ↦ elim (Bool-cases (is_id (some o))) [
    | inr empty ↦ rw (accept_lem d (some o) v, new, empty) ((older, newer, e, omega arith), refl)
    | inl named ↦
        let shown : d.order ++ o ∷ [] ≡ older ++ id ∷ (newer ++ o ∷ []) =
          ap (λ xs. xs ++ o ∷ []) e ∙ append_assoc older (id ∷ newer) (o ∷ []) in
        let recent =
          keep_last-IsRecent (suc n) d.max_seen id older (newer ++ o ∷ [])
            (omega (arith, length-append newer (o ∷ []))) k in
        rw (accept_lem d (some o) v, new, named)
          (subst (λ xs. IsRecent (suc n) id (keep_last d.max_seen xs)) (sym shown) recent, refl)
  ]
]

accept_all-contains :
    (ids : List (Option String)) (n : ℕ) (id : String) (d : Deduper)
    → IsValid d
    → IsRecent n id d.order
    → n + length ids ≤ d.max_seen
    → contains id (accept_all ids d).order ≡ true
unfolding accept_all
accept_all-contains [] n id d v r h = IsRecent-contains n id d.order r
accept_all-contains (o ∷ ids) n id d v r h =
    let (r', e) = accept-IsRecent n id d o v r (omega arith) in
    accept_all-contains ids (suc n) id (accept o d).0 (accept-IsValid d o v) r' (rw e (omega arith))

-- A delivery that was accepted as new is refused when it comes again with fewer than `max_seen`
-- other messages in between, whatever these are.
pub accept-accept_all :
    (d : Deduper) (id : String) (ids : List (Option String))
    → IsValid d
    → is_id (some id) ≡ true
    → is_seen (some id) d ≡ false
    → length ids < d.max_seen
    → (accept (some id) (accept_all ids (accept (some id) d).0)).1 ≡ false
unfolding is_seen
accept-accept_all d id ids v named new h =
    let first = accept (some id) d in
    let valid = accept-IsValid d (some id) v in
    let last = accept_all ids first.0 in
    let recent : IsRecent 1 id first.0.order =
      rw (accept_lem d (some id) v, new, named)
        (keep_last-IsRecent 1 d.max_seen id d.order [] (omega arith) (omega arith)) in
    let most : first.0.max_seen ≡ d.max_seen = rw (accept_lem d (some id) v, new, named) in
    let held = accept_all-contains ids 1 id first.0 valid recent (rw most (omega arith)) in
    let v' = accept_all-IsValid ids first.0 valid in
    let seen = subst (λ xs. contains id xs ≡ true) (sym v'.same) held in
    rw (accept_lem last (some id) v', named, seen)
