-- ===== src/Book/FillOrder.antt =====
-- One round of the inner loop of `match_against_asks` and `match_against_bids` (src/core/OrderBook.cpp).
use nanomatch.Base.{
  ℕ, ◌-◌, ◌≡◌, refl, ap, ◌∙◌, true, false, List, [], ◌∷◌, ◌++◌, ◌==◌, min, sub32, arith, Returns,
  Bool-cases, inl, inr, ==-true, ==-false,
}
use nanomatch.Orders.{Side, Trade}
use nanomatch.Queue.{has}
use nanomatch.Book.State.{
  Book, put, same_place, order_at, set_order, set_level, enqueue_trade, one_less_live,
}
use nanomatch.Book.Matching.{fill_order}
use nanomatch.Book.Invariant.{IsBook, by_place, put_self, put_other}
use nanomatch.Book.Invariant.Frame.{one_place}
use nanomatch.Book.Invariant.Slot.{shrink-IsBook}
use nanomatch.Book.Reference.{Resting, Fill, fill_of, fills, Ladder}
use nanomatch.Book.Represents.{Represents, SameFrame, SameFrame-trans, contents, contents_frame}
use nanomatch.Book.TakeOut.{take_out-Represents}

pub fills-append : (ts : List Trade) (t : Trade) → fills (ts ++ t ∷ []) ≡ fills ts ++ fill_of t ∷ []
fills-append [] t = refl
fills-append (u ∷ ts) t = ap (λ fs. fill_of u ∷ fs) (fills-append ts t)

pub Represents_along :
    (b : Book) (l m : Ladder)
    → ((sd : Side) (at : ℕ) → l sd at ≡ m sd at)
    → Represents b l
    → Represents b m
Represents_along b l m same r = record {
  queues = r.queues;
  free = r.free;
  book = r.book;
  table = r.table;
  room = r.room;
  view = λ sd at. r.view sd at ∙ same sd at;
}

-- The counter of live orders takes no part in what a book represents.
pub less_live-Represents : (b : Book) (l : Ladder) → Represents b l → Represents (one_less_live b) l
less_live-Represents b l r = record {
  queues = r.queues;
  free = r.free;
  book = r.book;
  table = r.table;
  room = r.room;
  view = r.view;
}

less_live-SameFrame : (b b' : Book) → SameFrame b b' → SameFrame b (one_less_live b')
less_live-SameFrame b b' f = record {
  tob = f.tob;
  band = f.band;
  base = f.base;
  capacity = f.capacity;
  prices = f.prices;
}

module _ (sd : Side) (at taker_id x remaining : ℕ) (zs : List ℕ) (b : Book) (l : Ladder)
    (r : Represents b l) (e : r.queues sd at ≡ x ∷ zs) where
  abbrev qty : ℕ
  qty = (b.pool.slots x).qty

  abbrev m : ℕ
  m = min remaining qty

  -- The book between the trade and the test whether the maker is used up.
  abbrev traded : Book
  traded =
      set_level sd at
        (let level = b.levels sd at in record level { total_volume = sub32 level.total_volume m })
        (set_order x (record (order_at b x) { qty = qty - m })
          (enqueue_trade (b.pool.slots x).id taker_id (b.levels sd at).price m b))

  abbrev made : Fill
  made = record {
    maker_id = (b.pool.slots x).id;
    taker_id = taker_id;
    price = (b.levels sd at).price;
    qty = m;
  }

  -- The queue of the level, with what is left of the maker.
  abbrev open_queue : List Resting
  open_queue = record { id = (b.pool.slots x).id; qty = qty - m } ∷ contents b.pool.slots zs

  abbrev shrunk : Ladder
  shrunk = put l sd at open_queue

  queued : has x (r.queues sd at) ≡ true
  queued = rw e (ground arith)

  traded-IsBook : IsBook traded r.queues r.free
  unfolding enqueue_trade
  traded-IsBook = shrink-IsBook b r.queues r.free r.book sd at x m queued (omega arith)

  tail_same :
      (t : ℕ)
      → has t zs ≡ true
      → (traded.pool.slots t).id ≡ (b.pool.slots t).id
        × ((traded.pool.slots t).qty ≡ (b.pool.slots t).qty)
  unfolding enqueue_trade
  tail_same t n =
      let d = rw e at (r.book.distinct sd at) in
      rw (==-false {a = x} {b = t} (λ i. cc (rw i at (d.0), n))) (refl, refl)

  not_elsewhere : (t : Side) (j : ℕ) → same_place sd at t j ≡ false → has x (r.queues t j) ≡ false
  not_elsewhere t j apart = elim (Bool-cases (has x (r.queues t j))) [
    | inl n ↦ cc (one_place b r.queues r.free r.book sd at t j x queued n, apart)
    | inr out ↦ out
  ]

  traded-Represents : (t : Represents traded shrunk) × (t.queues ≡ r.queues)
  unfolding enqueue_trade
  traded-Represents = (
    record {
      queues = r.queues;
      free = r.free;
      book = traded-IsBook;
      table = r.table;
      room = r.room;
      view =
          by_place (λ t j. contents traded.pool.slots (r.queues t j) ≡ shrunk t j) sd at
            (rw (put_self l sd at open_queue, e, ==-true {a = x} {b = x} refl)
              (ap (λ os. record { id = (b.pool.slots x).id; qty = qty - m } ∷ os)
                (contents_frame b.pool.slots traded.pool.slots zs tail_same)))
            (λ t j apart. rw (put_other l sd at open_queue apart) (
              contents_frame b.pool.slots traded.pool.slots (r.queues t j) (λ z n.
                let out = not_elsewhere t j apart in
                rw (==-false {a = x} {b = z} (λ i. cc (rw i at out, n))) (refl, refl))
              ∙ r.view t j));
    },
    refl,
  )

  traded-SameFrame : SameFrame b traded
  unfolding enqueue_trade
  traded-SameFrame = record {
    tob = refl;
    band = refl;
    base = refl;
    capacity = refl;
    prices = λ t j. ground arith;
  }

  traded-fills : fills traded.trades ≡ fills b.trades ++ made ∷ []
  unfolding enqueue_trade
  traded-fills = fills-append b.trades _

  -- The maker stays with what is left of it.
  pub fill_order-part :
      (qty - m == 0) ≡ false
      → Returns (fill_order sd at taker_id x remaining b) (λ out.
        (out.0 ≡ remaining - m)
        × Represents out.1 shrunk
        × SameFrame b out.1
        × (fills out.1.trades ≡ fills b.trades ++ made ∷ []))
  unfolding fill_order enqueue_trade
  fill_order-part part = (
    (remaining - m, traded),
    rw part refl,
    (refl, traded-Represents.0, traded-SameFrame, traded-fills),
  )

  abbrev without : Ladder
  without = put l sd at (contents b.pool.slots zs)

  without_same :
      (t : Side) (j : ℕ) → put shrunk sd at (contents traded.pool.slots zs) t j ≡ without t j
  without_same =
      by_place (λ t j. put shrunk sd at (contents traded.pool.slots zs) t j ≡ without t j) sd at
        (rw
          (
            put_self shrunk sd at (contents traded.pool.slots zs),
            put_self l sd at (contents b.pool.slots zs),
          )
          (contents_frame b.pool.slots traded.pool.slots zs tail_same))
        (λ t j apart.
          rw
            (
              put_other shrunk sd at (contents traded.pool.slots zs) apart,
              put_other l sd at open_queue apart,
              put_other l sd at (contents b.pool.slots zs) apart,
            )
            refl)

  -- The maker is used up and leaves; the next of the queue is first.
  pub fill_order-whole :
      (qty - m == 0) ≡ true
      → Returns (fill_order sd at taker_id x remaining b) (λ out.
        (out.0 ≡ remaining - m)
        × Represents out.1 without
        × SameFrame b out.1
        × (fills out.1.trades ≡ fills b.trades ++ made ∷ [])
        × ((out.1.levels sd at).head_idx ≡ (b.pool.slots x).next_idx))
  unfolding fill_order enqueue_trade
  fill_order-whole whole =
      let (b', ran, (rep, _, _, _, frame, same, next, _)) =
        take_out-Represents sd at x (b.pool.slots x).id [] zs traded shrunk traded-Represents.0
          (ap (λ q. q sd at) traded-Represents.1 ∙ e) in
      (
        (remaining - m, one_less_live b'),
        rw (whole, ran) refl,
        (
          refl,
          less_live-Represents b' without (Represents_along b' _ without without_same rep),
          less_live-SameFrame b b' (SameFrame-trans b traded b' traded-SameFrame frame),
          ap fills same ∙ traded-fills,
          next ∙ ground arith,
        ),
      )
