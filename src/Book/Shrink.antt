-- ===== src/Book/Shrink.antt =====
-- An order gives up a part of its quantity (src/core/OrderBook.cpp, `execute_order` and
-- `reduce_order_qty`).
use nanomatch.Base.{
  ℕ, ◌-◌, ◌≡◌, refl, ap, sym, ◌∙◌, Bool, true, false, List, [], ◌∷◌, ◌++◌, ◌==◌, leb, if◌then◌else◌,
  sub32, arith, Bool-cases, inl, inr, ==-true, ==-false,
}
use mathlib.Core.Path.{subst}
use nanomatch.Orders.{Side, buy, sell, Order, PriceLevel}
use nanomatch.Queue.{has, has-append, Distinct}
use nanomatch.Book.State.{Book, put, set_order, set_level}
use nanomatch.Book.Feed.{shrink_order, best_of, set_side_qty}
use nanomatch.Book.Invariant.{by_place, put_self, put_other}
use nanomatch.Book.Invariant.Frame.{one_place}
use nanomatch.Book.Invariant.Slot.{shrink-IsBook}
use nanomatch.Book.Reference.{Resting, Ladder}
use nanomatch.Book.Represents.{Represents, contents, contents_frame, contents-append}
use nanomatch.Book.Sweep.{Represents_top}

-- A queue when the order `o` gives up `lost` of its quantity: it leaves when nothing is left.
abbrev pub shrink_queue :
    (ys : List Resting) (o : Resting) (zs : List Resting) (lost : ℕ) → List Resting
shrink_queue ys o zs lost =
    if leb o.qty lost then ys ++ zs else ys ++ record o { qty = o.qty - lost } ∷ zs

-- Where a slot is in a queue, it is at no other place of it.
not_beside :
    (x : ℕ) (ys zs : List ℕ) → Distinct (ys ++ x ∷ zs) → (has x ys ≡ false) × (has x zs ≡ false)
not_beside x [] zs d = (refl, d.0)
not_beside x (y ∷ ys) zs d =
    let rest = not_beside x ys zs d.1 in
    (ground (arith, rest.0, has-append y ys (x ∷ zs), d.0), rest.1)

set_qty-Represents :
    (c : Bool) (s : Side) (q : ℕ) (b : Book) (l : Ladder)
    → Represents b l
    → Represents (if c then set_side_qty s q b else b) l
set_qty-Represents true buy q b l r = Represents_top b _ l r
set_qty-Represents true sell q b l r = Represents_top b _ l r
set_qty-Represents false s q b l r = r

set_qty_trades :
    (c : Bool) (s : Side) (q : ℕ) (b : Book)
    → (if c then set_side_qty s q b else b).trades ≡ b.trades
set_qty_trades true buy q b = refl
set_qty_trades true sell q b = refl
set_qty_trades false s q b = refl

module _ (b : Book) (l : Ladder) (r : Represents b l) (sd : Side) (at x : ℕ) (ys zs : List ℕ)
    (e : r.queues sd at ≡ ys ++ x ∷ zs) where
  abbrev o : Order
  o = b.pool.slots x

  abbrev ahead : List Resting
  ahead = contents b.pool.slots ys

  abbrev behind : List Resting
  behind = contents b.pool.slots zs

  abbrev resting : Resting
  resting = record { id = o.id; qty = o.qty }

  queued : has x (r.queues sd at) ≡ true
  queued = rw (e, has-append x ys (x ∷ zs)) (ground arith)

  module _ (lost : ℕ) (part : leb o.qty lost ≡ false) where
    abbrev thinner : PriceLevel
    thinner =
        let level = b.levels sd at in record level { total_volume = sub32 level.total_volume lost }

    -- The book before its cached quantity is brought up to date.
    abbrev shrunk : Book
    shrunk = set_level sd at thinner (set_order x (record o { qty = o.qty - lost }) b)

    abbrev rest : List Resting
    rest = ahead ++ record resting { qty = o.qty - lost } ∷ behind

    beside :
        (ws : List ℕ) → has x ws ≡ false → contents shrunk.pool.slots ws ≡ contents b.pool.slots ws
    beside ws out =
        contents_frame b.pool.slots shrunk.pool.slots ws
          (λ z m. rw (==-false {a = x} {b = z} (λ i. cc (rw i at out, m))) (refl, refl))

    here : contents shrunk.pool.slots (ys ++ x ∷ zs) ≡ rest
    here =
        let (a, c) = not_beside x ys zs (rw e at (r.book.distinct sd at)) in
        rw
          (
            contents-append shrunk.pool.slots ys (x ∷ zs),
            beside ys a,
            beside zs c,
            ==-true {a = x} {b = x} refl,
          )
          refl

    shrunk-Represents : Represents shrunk (put l sd at rest)
    shrunk-Represents = record {
      queues = r.queues;
      free = r.free;
      book = shrink-IsBook b r.queues r.free r.book sd at x lost queued (ground (arith, part));
      table = r.table;
      room = r.room;
      view =
          by_place (λ t j. contents shrunk.pool.slots (r.queues t j) ≡ put l sd at rest t j) sd at
            (rw (put_self l sd at rest, e) here)
            (λ t j apart. rw (put_other l sd at rest apart) (
              beside (r.queues t j) (elim (Bool-cases (has x (r.queues t j))) [
                | inl m ↦ cc (one_place b r.queues r.free r.book sd at t j x queued m, apart)
                | inr out ↦ out
              ])
              ∙ r.view t j));
    }

    -- The order that shrinks and its level, named by their side and index.
    abbrev shrink_at : Side → ℕ → Book
    shrink_at s p =
        let level = b.levels s p in
        let volume = sub32 level.total_volume lost in
        let b₁ =
          set_level s p (record level { total_volume = volume })
            (set_order x (record o { qty = o.qty - lost }) b) in
        if p == best_of s b.tob then set_side_qty s volume b₁ else b₁

    pub shrink_order-Represents :
        Represents (shrink_order x lost b) (put l sd at rest)
        × ((shrink_order x lost b).trades ≡ b.trades)
    unfolding shrink_order
    shrink_order-Represents =
        let mine = (r.book.level sd at).orders x queued in
        subst (λ c. Represents c (put l sd at rest) × (c.trades ≡ b.trades))
          (sym (ap (λ s. shrink_at s o.price) mine.side ∙ ap (shrink_at sd) mine.here))
          (
            set_qty-Represents (at == best_of sd b.tob) sd _ shrunk _ shrunk-Represents,
            set_qty_trades (at == best_of sd b.tob) sd _ shrunk,
          )
