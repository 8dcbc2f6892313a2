-- ===== src/Outbound/Flush.antt =====
-- The flush after a reconnection.
use the_dudes_daemon.Base.{ℕ, suc, ◌≡◌, ◌⊎◌, inl, inr, refl, ap, List, [], ◌∷◌, ◌++◌, length}
use the_dudes_daemon.Outbound.{
  Item, Queue, Reply, refuses, fails, accepts, answered, flush_from, flush_outbound_queue,
}

-- The replies to the frames that were given are `accepts`, and the next one, if a frame is left, is
-- not.
abbrev pub Stops : (ℕ → Reply) → ℕ → List Item → List Item → Type 0
Stops reply n [] [] = Unit {0}
Stops reply n [] (item ∷ left) = (reply n ≡ refuses) ⊎ (reply n ≡ fails)
Stops reply n (item ∷ given) left = (reply n ≡ accepts) × Stops reply (suc n) given left

answered-Stops :
    (reply : ℕ → Reply) (n : ℕ) (r : Reply) (item : Item) (items given left : List Item)
    → reply n ≡ r
    → given ++ left ≡ items
    → Stops reply (suc n) given left
    → let (given', left') = answered r item items (given, left) in
      (given' ++ left' ≡ item ∷ items) × Stops reply n given' left'
unfolding answered
answered-Stops reply n refuses item items given left e order stops = (refl, inl e)
answered-Stops reply n fails item items given left e order stops = (refl, inr e)
answered-Stops reply n accepts item items given left e order stops =
    (ap (λ q. item ∷ q) order, (e, stops))

flush_from-Stops :
    (reply : ℕ → Reply) (n : ℕ) (items : List Item)
    → let (given, left) = flush_from reply n items in
      (given ++ left ≡ items) × Stops reply n given left
unfolding flush_from
flush_from-Stops reply n [] = (refl, tt)
flush_from-Stops reply n (item ∷ items) =
    let (order, stops) = flush_from-Stops reply (suc n) items in
    answered-Stops reply n (reply n) item items _ _ refl order stops

-- The flush hands frames to the socket in the order in which they were queued, each once, stops at
-- the first that the channel does not take, keeps that one and all after it in their order, and
-- counts those that it gave.
pub flush_outbound_queue-Stops :
    (reply : ℕ → Reply) (q : Queue)
    → let f = flush_outbound_queue reply q in
      (f.given ++ f.queue.items ≡ q.items)
      × Stops reply 0 f.given f.queue.items
      × (f.count ≡ length f.given)
      × (f.queue.max ≡ q.max)
unfolding flush_outbound_queue
flush_outbound_queue-Stops reply q =
    let (order, stops) = flush_from-Stops reply 0 q.items in (order, stops, refl, refl)
