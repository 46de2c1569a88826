-- ===== src/Book/TakeOut.antt =====
-- An order leaves the book (src/core/OrderBook.cpp): `level_remove`, `id_map_.erase`, `deallocate`.
use nanomatch.Base.{
  ℕ, ◌≡◌, refl, some, ◌∙◌, true, List, ◌∷◌, ◌++◌, update, arith, Returns, if◌then◌else◌,
}
use nanomatch.IdMap
use nanomatch.IdMap.Ends.{erase-Returns}
use nanomatch.Orders.{Side}
use nanomatch.Pool
use nanomatch.Queue.{has}
use nanomatch.Book.State.{Book, put}
use nanomatch.Book.Level.{level_remove}
use nanomatch.Book.Matching.{take_out, deallocate}
use nanomatch.Book.Invariant.{Queues, IsBook, by_place, put_self, put_other, nonempty}
use nanomatch.Book.Invariant.Frame.{queued_real}
use nanomatch.Book.Invariant.Slot.{deallocate-IsBook}
use nanomatch.Book.Invariant.Unlink.{
  level_remove-IsBook, data_same, gone, not_free, in_pool, head_after,
}
use nanomatch.Book.Reference.{Ladder}
use nanomatch.Book.Represents.{Represents, SameFrame, contents, contents_frame}

level_remove-SameFrame : (sd : Side) (at x : ℕ) (b : Book) → SameFrame b (level_remove sd at x b)
unfolding level_remove
level_remove-SameFrame sd at x b = record {
  tob = ground arith;
  band = ground arith;
  base = ground arith;
  capacity = ground arith;
  prices = λ t j. ground arith;
}

level_remove-id_map : (sd : Side) (at x : ℕ) (b : Book) → (level_remove sd at x b).id_map ≡ b.id_map
unfolding level_remove
level_remove-id_map sd at x b = ground arith

level_remove-live :
    (sd : Side) (at x : ℕ) (b : Book)
    → (level_remove sd at x b).live_order_count ≡ b.live_order_count
unfolding level_remove
level_remove-live sd at x b = ground arith

pub level_remove-trades :
    (sd : Side) (at x : ℕ) (b : Book) → (level_remove sd at x b).trades ≡ b.trades
unfolding level_remove
level_remove-trades sd at x b = ground arith

module _ (sd : Side) (at x id : ℕ) (ys zs : List ℕ) (b : Book) (l : Ladder) (r : Represents b l)
    (e : r.queues sd at ≡ ys ++ x ∷ zs) where
  abbrev removed : Book
  removed = level_remove sd at x b

  abbrev pub left : Queues
  left = put r.queues sd at (ys ++ zs)

  removed-IsBook : IsBook removed left r.free
  removed-IsBook = level_remove-IsBook sd at x ys zs b r.queues r.free r.book e

  -- What the other places hold, and this place without the order.
  view_after :
      (t : Side) (j : ℕ)
      → contents removed.pool.slots (left t j) ≡ put l sd at (contents b.pool.slots (ys ++ zs)) t j
  view_after =
      by_place
        (λ t j.
          contents removed.pool.slots (left t j)
          ≡ put l sd at (contents b.pool.slots (ys ++ zs)) t j)
        sd at
        (rw
          (put_self r.queues sd at (ys ++ zs), put_self l sd at (contents b.pool.slots (ys ++ zs)))
          (contents_frame b.pool.slots removed.pool.slots (ys ++ zs)
            (λ z m. same sd at z (rw (put_self r.queues sd at (ys ++ zs)) m))))
        (λ t j apart.
          rw
            (
              put_other r.queues sd at (ys ++ zs) apart,
              put_other l sd at (contents b.pool.slots (ys ++ zs)) apart,
            )
            (contents_frame b.pool.slots removed.pool.slots (r.queues t j)
                (λ z m. same t j z (rw (put_other r.queues sd at (ys ++ zs) apart) m))
              ∙ r.view t j))
    where
      same :
          (t : Side) (j z : ℕ)
          → has z (left t j) ≡ true
          → ((removed.pool.slots z).id ≡ (b.pool.slots z).id)
            × ((removed.pool.slots z).qty ≡ (b.pool.slots z).qty)
      same t j z m =
          data_same sd at x ys zs b r.queues r.free r.book e z
            (queued_real removed left r.free removed-IsBook t j z m)

  -- On a book that represents `l`, for the order at slot `x` of a queue `ys ++ x ∷ zs`,
  -- `level_remove`, `erase` of any id and `deallocate` return a book that represents `l` with the
  -- queue `ys ++ zs`, with the slots of every queue but this one as they were. The slot `x` stands
  -- in front of the free list, and the map is what `erase` of the id makes of it. The cached best
  -- prices, the band, the base, the size of the pool, the prices of the levels, the trades and the
  -- counter of live orders stay; the head of the level stays, or is the next order where `x` was
  -- first.
  pub take_out-Represents : Returns (take_out sd at x id b) (λ b'.
      (rep : Represents b' (put l sd at (contents b.pool.slots (ys ++ zs)))) × (rep.queues ≡ left)
      × (rep.free ≡ x ∷ r.free)
      × (IdMap.erase b.id_map id ≡ some b'.id_map)
      × SameFrame b b'
      × (b'.trades ≡ b.trades)
      × ((b'.levels sd at).head_idx
          ≡ (if nonempty ys then (b.levels sd at).head_idx else (b.pool.slots x).next_idx))
      × (b'.live_order_count ≡ b.live_order_count))
  unfolding take_out Pool.deallocate
  take_out-Represents =
      let (m, erased, (table, room, _)) = erase-Returns b.id_map r.table r.room id in
      let b₁ = record removed { id_map = m } in
      let frame = level_remove-SameFrame sd at x b in
      (
        deallocate x b₁,
        rw (level_remove-id_map sd at x b, erased),
        (
          record {
            queues = left;
            free = x ∷ r.free;
            book =
                deallocate-IsBook b₁ left r.free removed-IsBook x
                  (rw (frame.capacity) (in_pool sd at x ys zs b r.queues r.free r.book e))
                  (not_free sd at x ys zs b r.queues r.free r.book e)
                  (gone sd at x ys zs b r.queues r.free r.book e);
            table = table;
            room = room;
            view = λ t j.
                contents_frame removed.pool.slots
                  (update removed.pool.slots x
                    (record (removed.pool.slots x) { next_idx = removed.pool.free_head }))
                  (left t j) (λ z m. (ground arith, ground arith))
                ∙ view_after t j;
          },
          refl,
          refl,
          erased,
          record {
            tob = frame.tob;
            band = frame.band;
            base = frame.base;
            capacity = frame.capacity;
            prices = frame.prices;
          },
          level_remove-trades sd at x b,
          head_after sd at x ys zs b r.queues r.free r.book e,
          level_remove-live sd at x b,
        ),
      )
