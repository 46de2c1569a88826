-- ===== src/Book/Execute.antt =====
-- `execute_order` and `reduce_order_qty` of src/core/OrderBook.cpp.
use nanomatch.Base.{
  ℕ, ◌≡◌, refl, ap, ◌∙◌, Bool, true, false, Option, some, ◌>>=◌, List, [], ◌∷◌, ◌++◌, ◌==◌, leb,
  if◌then◌else◌, min, null_idx, arith, Returns, Bool-cases, inl, inr, ==-false,
}
use nanomatch.IdMap
use nanomatch.Orders.{Side, Order}
use nanomatch.Queue.{has, has-append}
use nanomatch.Book.State.{Book, put, order_at, enqueue_trade, one_less_live}
use nanomatch.Book.Matching.{take_out}
use nanomatch.Book.Feed.{execute_order, reduce_order_qty, cancel_order, shrink_order, refresh_top}
use nanomatch.Book.Invariant.Frame.{queued_real}
use nanomatch.Book.Reference.{Resting, fills, Ladder}
use nanomatch.Book.Represents.{Represents, contents, contents-append}
use nanomatch.Book.Cancel.{cancel_order-Represents, refresh_top_same}
use nanomatch.Book.FillOrder.{fills-append, less_live-Represents}
use nanomatch.Book.TakeOut.{take_out-Represents}
use nanomatch.Book.Sweep.{Represents_top}
use nanomatch.Book.Shrink.{shrink_queue, shrink_order-Represents}

module _ (b : Book) (l : Ladder) (r : Represents b l) (sd : Side) (at x : ℕ) (ys zs : List ℕ)
    (e : r.queues sd at ≡ ys ++ x ∷ zs) where
  abbrev pub o : Order
  o = b.pool.slots x

  abbrev pub ahead : List Resting
  ahead = contents b.pool.slots ys

  abbrev pub behind : List Resting
  behind = contents b.pool.slots zs

  abbrev pub resting : Resting
  resting = record { id = o.id; qty = o.qty }

  queued : has x (r.queues sd at) ≡ true
  queued = rw (e, has-append x ys (x ∷ zs)) (ground arith)

  real : (x == null_idx) ≡ false
  real = ==-false {a = x} {b = null_idx} (queued_real b r.queues r.free r.book sd at x queued)

  module _ (id lost : ℕ) (found : IdMap.find b.id_map id ≡ some x) where
    -- What the queue of the order becomes.
    abbrev pub left : Ladder
    left = put l sd at (shrink_queue ahead resting behind lost)

    abbrev pub cancelled : Option (Bool × Book)
    cancelled = cancel_order id b >>= λ b'. some (true, b')

    abbrev reduce_at : ℕ → Option (Bool × Book)
    reduce_at idx =
        let p = order_at b idx in
        if idx == null_idx
        then some (false, b)
        else if leb p.qty lost
        then cancelled
        else some (false, shrink_order idx lost b)

    pub reduce_order_qty_lem :
        reduce_order_qty id lost b
        ≡ (if leb o.qty lost then cancelled else some (false, shrink_order x lost b))
    unfolding reduce_order_qty
    reduce_order_qty_lem =
        ap (λ i. i >>= reduce_at) found
        ∙ ap
            (λ stop.
              if stop
              then some (false, b)
              else if leb o.qty lost
              then cancelled
              else some (false, shrink_order x lost b))
            real

    -- On a book that represents `l`, where the map gives slot `x` for the id and `x` is queued at a
    -- level, `reduce_order_qty` returns whether the whole order is taken off. The order leaves the
    -- queue, or keeps its place with what is left, and no trade is logged.
    pub reduce_order_qty-Represents :
        Returns
          (reduce_order_qty id lost b)
          (λ out. (out.0 ≡ leb o.qty lost) × Represents out.1 left × (out.1.trades ≡ b.trades))
    reduce_order_qty-Represents = elim (Bool-cases (leb o.qty lost)) [
      | inl whole ↦
          let (b', ran, (rep, trades, _)) =
            cancel_order-Represents b l r id sd at x ys zs e found in
          (
            (true, b'),
            reduce_order_qty_lem ∙ rw whole (ap (λ q. q >>= λ b'. some (true, b')) ran),
            rw whole (refl, rw (contents-append b.pool.slots ys zs) at rep, trades),
          )
      | inr part ↦
          let (rep, trades) = shrink_order-Represents b l r sd at x ys zs e lost part in
          (
            (false, shrink_order x lost b),
            reduce_order_qty_lem ∙ rw part refl,
            rw part (refl, rep, trades),
          )
    ]

    abbrev price : ℕ
    price = (b.levels sd at).price

    -- The book when the trade is logged.
    abbrev pub logged : ℕ → Book
    logged q = enqueue_trade o.id 0 price q b

    pub logged-Represents : (q : ℕ) → (t : Represents (logged q) l) × (t.queues ≡ r.queues)
    unfolding enqueue_trade
    logged-Represents q = (
      record {
        queues = r.queues;
        free = r.free;
        book = r.book;
        table = r.table;
        room = r.room;
        view = r.view;
      },
      refl,
    )

    fills-logged :
        (q : ℕ)
        → fills (logged q).trades
          ≡ fills b.trades ++ record { maker_id = o.id; taker_id = 0; price = price; qty = q } ∷ []
    unfolding enqueue_trade
    fills-logged q = fills-append b.trades _

    -- The two outcomes, at the side and index of the order.
    abbrev pub executed : Side → ℕ → Option (Bool × Book)
    executed s p = take_out s p x id (enqueue_trade o.id 0 (b.levels s p).price o.qty b) >>= λ b'.
        some (true, refresh_top s p (one_less_live b'))

    abbrev pub partly : Side → ℕ → Book
    partly s p = shrink_order x lost (enqueue_trade o.id 0 (b.levels s p).price lost b)

    abbrev pub outcome : Side → ℕ → Option (Bool × Book)
    outcome s p = if leb o.qty lost then executed s p else some (false, partly s p)

    pub execute_order_lem : execute_order id lost b ≡ outcome sd at
    unfolding execute_order
    execute_order_lem =
        let mine = (r.book.level sd at).orders x queued in
        let run : ℕ → Option (Bool × Book) = λ idx.
          let p = order_at b idx in
          let abs_price = (b.levels p.side p.price).price in
          let all =
            take_out p.side p.price idx id (enqueue_trade p.id 0 abs_price p.qty b) >>= λ b'.
            some (true, refresh_top p.side p.price (one_less_live b')) in
          let some_of = shrink_order idx lost (enqueue_trade p.id 0 abs_price lost b) in
          if idx == null_idx
          then some (false, b)
          else if leb p.qty lost
          then all
          else some (false, some_of) in
        ap (λ i. i >>= run) found
        ∙ ap (λ stop. if stop then some (false, b) else outcome o.side o.price) real
        ∙ ap (λ s. outcome s o.price) mine.side
        ∙ ap (outcome sd) mine.here

    -- On a book that represents `l`, where the map gives slot `x` for the id and `x` is queued at a
    -- level, `execute_order` returns whether the whole order is executed. The order leaves the
    -- queue, or keeps its place with what is left; one trade is logged, of the smaller of the two
    -- quantities, at the price of the level, with the order as the maker and 0 as the taker.
    pub execute_order-Represents : Returns (execute_order id lost b) (λ out.
        (out.0 ≡ leb o.qty lost)
        × Represents out.1 left
        × (fills out.1.trades
            ≡ fills b.trades
              ++ record { maker_id = o.id; taker_id = 0; price = price; qty = min lost o.qty }
                ∷ []))
    unfolding enqueue_trade
    execute_order-Represents = elim (Bool-cases (leb o.qty lost)) [
      | inl whole ↦
          let (lr, same) = logged-Represents o.qty in
          let all : min lost o.qty ≡ o.qty = ground (arith, whole) in
          let (b', ran, (rep, _, _, _, _, trades, _, _)) =
            take_out-Represents sd at x id ys zs (logged o.qty) l lr (ap (λ q. q sd at) same ∙ e) in
          (
            (true, refresh_top sd at (one_less_live b')),
            execute_order_lem
                ∙ rw whole
                    (ap (λ q. q >>= λ b'. some (true, refresh_top sd at (one_less_live b'))) ran),
            rw (whole, refresh_top_same sd at (one_less_live b'), all)
                (
                  refl,
                  Represents_top (one_less_live b') _ _
                      (less_live-Represents b' _ (rw (contents-append b.pool.slots ys zs) at rep)),
                  ap fills trades ∙ fills-logged o.qty,
                ),
          )
      | inr part ↦
          let (lr, same) = logged-Represents lost in
          let (rep, trades) =
            shrink_order-Represents (logged lost) l lr sd at x ys zs (ap (λ q. q sd at) same ∙ e)
              lost part in
          let some_of : min lost o.qty ≡ lost = ground (arith, part) in
          (
            (false, partly sd at),
            execute_order_lem ∙ rw part refl,
            rw (part, some_of) (refl, rep, ap fills trades ∙ fills-logged lost),
          )
    ]
