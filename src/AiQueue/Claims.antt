-- ===== src/AiQueue/Claims.antt =====
-- What ClaimPending of backend/internal/monitoring/ai/queue.go returns and leaves.
use healthops.Prelude.{
  drop, ℤ, positive_or, false, is_nil, ℕ, zero, suc, ◌+◌, String, Bool, true, List, [], ◌∷◌, ◌++◌,
  ◌≡◌, refl, ap, sym, ◌∙◌, map, take, select, count, arith,
}
use healthops.Types.{Time}
use healthops.AiQueue.Operations.{Queue, claim_pending}
use healthops.AiQueue.Items.{QueueItem, is_pending, is_active_for, claim, claimed}

abbrev pub waits : QueueItem → Bool
waits item = is_pending item.status

-- A claim of at most `n` returns the oldest `n` pending items in the queue's order, marked as
-- claimed at that time.
claim-oldest :
    (now : Time) (n : ℕ) (items : List QueueItem)
    → (claim now n items).1 ≡ map (claimed now) (take n (select waits items))
unfolding claim
claim-oldest now zero items = refl
claim-oldest now (suc n) [] = refl
claim-oldest now (suc n) (item ∷ items) =
    ground (arith, claim-oldest now n items, claim-oldest now (suc n) items)

claim-nil : (now : Time) (n : ℕ) → (claim now n []).1 ≡ []
unfolding claim
claim-nil now zero = refl
claim-nil now (suc n) = refl

-- Two claims one after the other return what one claim of both sizes returns: no item is returned
-- twice and none is passed over.
claim-claim :
    (now : Time) (n m : ℕ) (items : List QueueItem)
    → (claim now n items).1 ++ (claim now m (claim now n items).0).1 ≡ (claim now (n + m) items).1
unfolding claim
claim-claim now zero m items = let e : m ≡ 0 + m = omega arith in ap (λ k. (claim now k items).1) e
claim-claim now (suc n) m [] = claim-nil now m ∙ sym (claim-nil now (suc n + m))
claim-claim now (suc n) zero (item ∷ items) =
    let e : suc n + 0 ≡ suc (n + 0) = omega arith in
    rw e (ground (arith, claim-claim now n 0 items, claim-claim now (suc n) 0 items))
claim-claim now (suc n) (suc m) (item ∷ items) =
    let e : suc n + suc m ≡ suc (n + suc m) = omega arith in
    rw e (ground (arith, claim-claim now n (suc m) items, claim-claim now (suc n) (suc m) items))

-- A claim leaves the number of an incident's active items as it was.
pub count-claim :
    (id : String) (now : Time) (n : ℕ) (items : List QueueItem)
    → count (is_active_for id) (claim now n items).0 ≡ count (is_active_for id) items
unfolding claim
count-claim id now zero items = refl
count-claim id now (suc n) [] = refl
count-claim id now (suc n) (item ∷ items) =
    ground (arith, count-claim id now n items, count-claim id now (suc n) items)

pub claim-is_nil :
    (now : Time) (n : ℕ) (items : List QueueItem)
    → is_nil (claim now n items).1 ≡ true
    → (claim now n items).0 ≡ items
unfolding claim
claim-is_nil now zero items h = refl
claim-is_nil now (suc n) [] h = refl
claim-is_nil now (suc n) (item ∷ items) h =
    ground (arith, claim-is_nil now n items, claim-is_nil now (suc n) items)

claim-leaves :
    (now : Time) (n : ℕ) (items : List QueueItem)
    → select waits (claim now n items).0 ≡ drop n (select waits items)
unfolding claim
claim-leaves now zero items = refl
claim-leaves now (suc n) [] = refl
claim-leaves now (suc n) (item ∷ items) =
    ground (arith, claim-leaves now n items, claim-leaves now (suc n) items)

-- A claim whose queue cannot be written returns no item. The items that it took are no longer
-- pending, so no later claim returns them: what waits is what a claim of that size would leave.
claim_pending-lost :
    (now : Time) (limit : ℤ) (q : Queue)
    → let (q', (items, e)) = claim_pending false now limit q in
      (items ≡ []) × (select waits q'.queue ≡ drop (positive_or 10 limit) (select waits q.queue))
unfolding claim_pending
claim_pending-lost now limit q = ground (arith, claim-leaves now (positive_or 10 limit) q.queue)
