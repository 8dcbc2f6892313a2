-- ===== src/Session/Drain.antt =====
-- What leaves the queue, and in which order.
use Prim.Native.String.{String}
use the_dudes_daemon.Base.{
  ◌≡◌, inl, inr, refl, ap, true, false, Option, none, some, List, [], ◌∷◌, ◌++◌, All, Bool-cases,
}
use the_dudes_daemon.Session.{
  QueuedMessage, Session, Removal, absent, found, carries, splice, remove_by_delivery_id,
}

-- The first message that carries the id is taken out, and the others keep their order.
pub record IsRemoved (id : String) (queue : List QueuedMessage) (m : QueuedMessage)
    (others : List QueuedMessage) : Type 0 where
  pub before : List QueuedMessage
  pub after : List QueuedMessage
  pub place : queue ≡ before ++ m ∷ after
  pub rest : others ≡ before ++ after
  pub carried : carries id m ≡ true
  pub first : All (λ n. carries id n ≡ false) before

abbrev Meaning : String → List QueuedMessage → Removal → Type 0
Meaning id queue absent = All (λ n. carries id n ≡ false) queue
Meaning id queue (found m others) = IsRemoved id queue m others

splice_cons :
    (id : String) (m : QueuedMessage) (rest : List QueuedMessage) (r : Removal)
    → splice id rest ≡ r
    → Meaning id rest r
    → Meaning id (m ∷ rest) (splice id (m ∷ rest))
unfolding splice
splice_cons id m rest r e t = elim (Bool-cases (carries id m)) [
  | inl hit ↦
      rw hit
        (record { before = []; after = rest; place = refl; rest = refl; carried = hit; first = tt })
  | inr miss ↦ rw (miss, e) (later r t miss)
]
  where
    later :
        (r : Removal)
        → Meaning id rest r
        → carries id m ≡ false
        → Meaning id (m ∷ rest) (elim r [ absent ↦ absent | found n others ↦ found n (m ∷ others) ])
    later absent t miss = (miss, t)
    later (found n others) t miss = record {
      before = m ∷ t.before;
      after = t.after;
      place = ap (λ q. m ∷ q) t.place;
      rest = ap (λ q. m ∷ q) t.rest;
      carried = t.carried;
      first = (miss, t.first);
    }

splice-Meaning : (id : String) (queue : List QueuedMessage) → Meaning id queue (splice id queue)
unfolding splice
splice-Meaning id [] = tt
splice-Meaning id (m ∷ rest) = splice_cons id m rest _ refl (splice-Meaning id rest)

abbrev pub Removed : String → Session → Session × Option QueuedMessage → Type 0
Removed id s (t, none) = (t ≡ s) × All (λ n. carries id n ≡ false) s.queue
Removed id s (t, some m) = IsRemoved id s.queue m t.queue

splice-Removed :
    (id : String) (s : Session) (r : Removal)
    → splice id s.queue ≡ r
    → Meaning id s.queue r
    → Removed id s (remove_by_delivery_id id s)
unfolding remove_by_delivery_id
splice-Removed id s absent e t = rw (e, remove_by_delivery_id) (refl, t)
splice-Removed id s (found m others) e t = rw (e, remove_by_delivery_id) t

-- Removal by delivery id takes the first message of a user that carries the id, as its own or as
-- one of those grouped in it, and leaves the others in their order; with no such message nothing
-- changes.
pub remove_by_delivery_id-Removed :
    (id : String) (s : Session) → Removed id s (remove_by_delivery_id id s)
remove_by_delivery_id-Removed id s =
    splice-Removed id s (splice id s.queue) refl (splice-Meaning id s.queue)
