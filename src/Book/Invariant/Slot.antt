-- ===== src/Book/Invariant/Slot.antt =====
-- What the pool's operations (src/core/OrderBook.hpp) and a change of one order do to the invariant.
use nanomatch.Base.{
  ℕ, ◌+◌, ◌-◌, ◌≤◌, ◌<◌, ◌≡◌, refl, sym, ◌∙◌, ap, true, false, List, [], ◌∷◌, ◌==◌, update, sub32,
  null_idx, arith, Bool-cases, inl, inr, ==-true, ==-false, eq_of_==,
}
use nanomatch.Orders.{Side, Order, PriceLevel}
use nanomatch.Pool
use nanomatch.Pool.{Pool}
use nanomatch.Queue.{Slots, has, Distinct, Linked-frame}
use nanomatch.Book.State.{Book, same_place, put, set_order, set_level}
use nanomatch.Book.Matching.{deallocate}
use nanomatch.Book.Invariant.{Queues, total_qty, IsLevel, IsBook, by_place, put_self, put_other}
use nanomatch.Book.Invariant.Frame.{total_frame, IsLevel_frame, FreeChain-frame, one_place}

-- A slot in no queue may change freely.
pub IsLevel_unqueued :
    (s : Slots) (idx : ℕ) (o : Order) (l : PriceLevel) (sd : Side) (at : ℕ) (xs : List ℕ)
    → has idx xs ≡ false
    → IsLevel s l sd at xs
    → IsLevel (update s idx o) l sd at xs
IsLevel_unqueued s idx o l sd at xs out =
    IsLevel_frame s (update s idx o) l sd at xs
      (λ x m. rw (==-false {a = idx} {b = x} (λ i. cc (rw i at out, m))))

module _ (b : Book) (q : Queues) (free : List ℕ) (h : IsBook b q free) where
  -- On arrays that are in order, `deallocate` of a slot of the pool that is not free and in no
  -- queue leaves arrays that are in order, with the same queues and the slot in front of the free
  -- list.
  pub deallocate-IsBook :
      (idx : ℕ)
      → idx < b.pool.capacity
      → has idx free ≡ false
      → ((sd : Side) (i : ℕ) → has idx (q sd i) ≡ false)
      → IsBook (deallocate idx b) q (idx ∷ free)
  unfolding Pool.deallocate
  deallocate-IsBook idx inside new out = record {
    level = λ sd i.
        IsLevel_unqueued b.pool.slots idx _ (b.levels sd i) sd i (q sd i) (out sd i) (h.level sd i);
    distinct = h.distinct;
    queued_inside = h.queued_inside;
    chain = (
      refl,
      omega (arith, h.room),
      rw (==-true {a = idx} {b = idx} refl) (
          FreeChain-frame b.pool.slots
            (update b.pool.slots idx (record (b.pool.slots idx) { next_idx = b.pool.free_head }))
            b.pool.free_head free
            (λ z m. rw (==-false {a = idx} {b = z} (λ i. cc (rw i at new, m)))) h.chain),
    );
    free_distinct = (new, h.free_distinct);
    free_inside = λ z m. elim (Bool-cases (z == idx)) [
      | inl e ↦ omega (arith, eq_of_== z idx e)
      | inr ne ↦ h.free_inside z (rw ne at m)
    ];
    apart = λ z m sd i. elim (Bool-cases (z == idx)) [
      | inl e ↦ rw (eq_of_== z idx e) (out sd i)
      | inr ne ↦ h.apart z (rw ne at m) sd i
    ];
    active = h.active;
    words = h.words;
    room = h.room;
  }

-- On arrays that are in order and whose free list is not empty, `allocate` hands out the first free
-- slot and leaves arrays that are in order, with the same queues and the rest of the free list.
pub allocate-IsBook :
    (b : Book) (q : Queues) (idx : ℕ) (free : List ℕ)
    → IsBook b q (idx ∷ free)
    → ((Pool.allocate b.pool).0 ≡ idx)
      × IsBook (record b { pool = (Pool.allocate b.pool).1 }) q free
unfolding Pool.allocate
allocate-IsBook b q idx free h =
    let (head, real, rest) = h.chain in
    let some_free : (b.pool.free_head == null_idx) ≡ false = ==-false (λ i. real (sym head ∙ i)) in
    rw (some_free, head)
      (
        refl,
        record {
          level = λ sd i.
              IsLevel_unqueued b.pool.slots idx _ (b.levels sd i) sd i (q sd i)
                (h.apart idx (ground arith) sd i) (h.level sd i);
          distinct = h.distinct;
          queued_inside = h.queued_inside;
          chain =
              FreeChain-frame b.pool.slots
                (update b.pool.slots idx
                  (record (b.pool.slots idx) { next_idx = null_idx; prev_idx = null_idx }))
                (b.pool.slots idx).next_idx free
                (λ z m. rw (==-false {a = idx} {b = z} (λ i. cc (rw i at (h.free_distinct.0), m))))
                rest;
          free_distinct = h.free_distinct.1;
          free_inside = λ z m. h.free_inside z (ground (arith, m));
          apart = λ z m. h.apart z (ground (arith, m));
          active = h.active;
          words = h.words;
          room = h.room;
        },
      )

-- The order in front, or any other of its level, gives up a part of its quantity.
module _ (b : Book) (q : Queues) (free : List ℕ) (h : IsBook b q free) (sd : Side) (at idx lost : ℕ)
    (queued : has idx (q sd at) ≡ true) (enough : lost ≤ (b.pool.slots idx).qty) where
  abbrev o : Order
  o = b.pool.slots idx

  abbrev shrunk : Slots
  shrunk = update b.pool.slots idx (record o { qty = o.qty - lost })

  abbrev thinner : PriceLevel
  thinner = let l = b.levels sd at in record l { total_volume = sub32 l.total_volume lost }

  links_same :
      (z : ℕ)
      → ((shrunk z).next_idx ≡ (b.pool.slots z).next_idx)
        × ((shrunk z).prev_idx ≡ (b.pool.slots z).prev_idx)
  links_same z = (ground arith, ground arith)

  total_shrunk :
      (xs : List ℕ)
      → Distinct xs
      → has idx xs ≡ true
      → total_qty shrunk xs + lost ≡ total_qty b.pool.slots xs
  total_shrunk [] d m = cc
  total_shrunk (x ∷ xs) d m = elim (Bool-cases (idx == x)) [
    | inl here ↦
        let e : idx ≡ x = eq_of_== idx x here in
        let out : has idx xs ≡ false = rw e (d.0) in
        let rest =
          total_frame b.pool.slots shrunk xs
            (λ z n. rw (==-false {a = idx} {b = z} (λ i. cc (rw i at out, n)))) in
        rw here (omega (arith, rest, ap (λ t. (b.pool.slots t).qty) e))
    | inr away ↦ rw away (omega (arith, total_shrunk xs d.1 (rw away at m)))
  ]

  total-ge : (xs : List ℕ) → has idx xs ≡ true → lost ≤ total_qty b.pool.slots xs
  total-ge [] m = cc
  total-ge (x ∷ xs) m = elim (Bool-cases (idx == x)) [
    | inl here ↦ omega (arith, ap (λ t. (b.pool.slots t).qty) (eq_of_== idx x here))
    | inr away ↦ omega (arith, total-ge xs (rw away at m))
  ]

  elsewhere : (t : Side) (j : ℕ) → same_place sd at t j ≡ false → has idx (q t j) ≡ false
  elsewhere t j apart = elim (Bool-cases (has idx (q t j))) [
    | inl m ↦ cc (one_place b q free h sd at t j idx queued m, apart)
    | inr out ↦ out
  ]

  -- On arrays that are in order, taking a part of the quantity of a queued order away from the
  -- order and from the volume of its level leaves arrays that are in order, with the same queues
  -- and the same free list.
  pub shrink-IsBook :
      IsBook (set_level sd at thinner (set_order idx (record o { qty = o.qty - lost }) b)) q free
  shrink-IsBook = record {
    level =
        by_place (λ t j. IsLevel shrunk (put b.levels sd at thinner t j) t j (q t j)) sd at
          (rw (put_self b.levels sd at thinner) (record {
            linked =
                Linked-frame b.pool.slots shrunk null_idx _ (q sd at) _ (λ z _ _. links_same z)
                  (h.level sd at).linked;
            volume = omega (
              arith,
              (h.level sd at).volume,
              total_shrunk (q sd at) (h.distinct sd at) queued,
              ((h.level sd at).orders idx queued).small,
            );
            count = (h.level sd at).count;
            orders = λ z m. let k = (h.level sd at).orders z m in ground arith;
          }))
          (λ t j apart. rw (put_other b.levels sd at thinner apart) (
            IsLevel_unqueued b.pool.slots idx (record o { qty = o.qty - lost }) (b.levels t j) t j
              (q t j) (elsewhere t j apart) (h.level t j)));
    distinct = h.distinct;
    queued_inside = h.queued_inside;
    chain =
        FreeChain-frame b.pool.slots shrunk b.pool.free_head free (λ z _. (links_same z).0) h.chain;
    free_distinct = h.free_distinct;
    free_inside = h.free_inside;
    apart = h.apart;
    active = h.active;
    words = h.words;
    room = h.room;
  }
