-- ===== src/Book/Cancel.antt =====
-- `cancel_order` of src/core/OrderBook.cpp.
use nanomatch.Base.{
  ℕ, ◌≡◌, refl, ap, ◌∙◌, Bool, true, false, Option, some, ◌>>=◌, List, ◌∷◌, ◌++◌, ◌==◌,
  if◌then◌else◌, null_idx, arith, Returns, ==-false,
}
use nanomatch.IdMap
use nanomatch.Orders.{Side, buy, sell, is_empty, TopOfBook}
use nanomatch.Queue.{has, has-append}
use nanomatch.Book.State.{Book, put, order_at}
use nanomatch.Book.Top.{update_best_bid, update_best_ask}
use nanomatch.Book.Matching.{take_out}
use nanomatch.Book.Feed.{cancel_order, refresh_top}
use nanomatch.Book.Invariant.Frame.{queued_real}
use nanomatch.Book.Reference.{Ladder}
use nanomatch.Book.Represents.{Represents, contents}
use nanomatch.Book.Sweep.{Represents_top}
use nanomatch.Book.TakeOut.{take_out-Represents}

one_top :
    (stop gone : Bool) (t u : TopOfBook) (b : Book)
    → (if stop then (if gone then record b { tob = t } else record b { tob = u }) else b)
      ≡ record b {
        tob =
            (if stop then (if gone then record b { tob = t } else record b { tob = u }) else b).tob;
      }
one_top true true t u b = refl
one_top true false t u b = refl
one_top false gone t u b = refl

-- Only the cached best prices change.
pub refresh_top_same :
    (sd : Side) (at : ℕ) (b : Book)
    → refresh_top sd at b ≡ record b { tob = (refresh_top sd at b).tob }
unfolding update_best_bid update_best_ask
refresh_top_same buy at b = one_top (at == b.tob.best_bid) (is_empty (b.levels buy at)) _ _ b
refresh_top_same sell at b = one_top (at == b.tob.best_ask) (is_empty (b.levels sell at)) _ _ b

module _ (b : Book) (id : ℕ) where
  -- The order leaves the level of its own side and price.
  abbrev remove_from : (x : ℕ) → Side → ℕ → Option Book
  remove_from x s at = take_out s at x id b >>= λ b'. some (refresh_top s at b')

  abbrev with_slot : ℕ → Option Book
  with_slot x =
      let o = order_at b x in
      let cancelled = remove_from x o.side o.price in if x == null_idx then some b else cancelled

  cancel_order_lem : cancel_order id b ≡ (IdMap.find b.id_map id >>= with_slot)
  unfolding cancel_order
  cancel_order_lem = refl

  -- An id that the map does not have changes nothing.
  pub cancel_order-absent : IdMap.find b.id_map id ≡ some null_idx → cancel_order id b ≡ some b
  cancel_order-absent found = cancel_order_lem ∙ ap (λ o. o >>= with_slot) found

module _ (b : Book) (l : Ladder) (r : Represents b l) (id : ℕ) (sd : Side) (at x : ℕ)
    (ys zs : List ℕ) (e : r.queues sd at ≡ ys ++ x ∷ zs)
    (found : IdMap.find b.id_map id ≡ some x) where
  -- The order is taken out of the level that it names.
  pub cancel_order_runs :
      (b' : Book)
      → take_out sd at x id b ≡ some b'
      → cancel_order id b ≡ some (refresh_top sd at b')
  cancel_order_runs b' ran =
      let queued : has x (r.queues sd at) ≡ true =
        rw (e, has-append x ys (x ∷ zs)) (ground arith) in
      let real : (x == null_idx) ≡ false =
        ==-false {a = x} {b = null_idx} (queued_real b r.queues r.free r.book sd at x queued) in
      let mine = (r.book.level sd at).orders x queued in
      cancel_order_lem b id
      ∙ ap (λ o. o >>= with_slot b id) found
      ∙ ap
          (λ stop.
            if stop then some b else remove_from b id x (order_at b x).side (order_at b x).price)
          real
      ∙ ap (λ s. remove_from b id x s (order_at b x).price) mine.side
      ∙ ap (remove_from b id x sd) mine.here
      ∙ ap (λ o. o >>= λ b'. some (refresh_top sd at b')) ran

  -- On a book that represents `l`, where the map gives slot `x` for the id and `x` is queued at a
  -- level, `cancel_order` returns a book that represents `l` without that order, wherever it stood
  -- in the queue. No trade is logged, and the counter of live orders stays what it was.
  pub cancel_order-Represents : Returns (cancel_order id b) (λ b'.
      Represents b' (put l sd at (contents b.pool.slots (ys ++ zs)))
      × (b'.trades ≡ b.trades)
      × (b'.live_order_count ≡ b.live_order_count))
  cancel_order-Represents =
      let (b', ran, (rep, _, _, _, _, trades, _, live)) =
        take_out-Represents sd at x id ys zs b l r e in
      (
        refresh_top sd at b',
        cancel_order_runs b' ran,
        rw (refresh_top_same sd at b') (Represents_top b' _ _ rep, trades, live),
      )
