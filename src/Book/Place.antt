-- ===== src/Book/Place.antt =====
-- What the steps of `insert_limit_order` that fill in a slot (src/core/OrderBook.cpp) do to the invariant.
use nanomatch.Base.{
  ℕ, ◌≡◌, refl, Bool, true, false, List, if◌then◌else◌, update, arith, Bool-cases, inl, inr,
  ==-false,
}
use nanomatch.Orders.{Side, buy, sell, Order}
use nanomatch.Pool
use nanomatch.Queue.{has}
use nanomatch.Book.State.{Book, put, set_order, set_level}
use nanomatch.Book.Level.{level_append}
use nanomatch.Book.Insert.{raise_top, improves_bid, improves_ask}
use nanomatch.Book.Invariant.{Queues, IsLevel, IsBook, by_place, put_self, put_other}
use nanomatch.Book.Invariant.Frame.{FreeChain-frame}
use nanomatch.Book.Invariant.Slot.{IsLevel_unqueued}
use nanomatch.Book.Sweep.{Represents_top}
use nanomatch.Book.Reference.{Ladder}
use nanomatch.Book.Represents.{Represents}

pub append_data :
    (sd : Side) (at x : ℕ) (b : Book) (z : ℕ)
    → (((level_append sd at x b).pool.slots z).id ≡ (b.pool.slots z).id)
      × (((level_append sd at x b).pool.slots z).qty ≡ (b.pool.slots z).qty)
unfolding level_append
append_data sd at x b z = (ground arith, ground arith)

-- A slot that is in no queue and not free holds what it likes.
pub set_order-IsBook :
    (b : Book) (q : Queues) (free : List ℕ) (idx : ℕ) (o : Order)
    → IsBook b q free
    → has idx free ≡ false
    → ((sd : Side) (i : ℕ) → has idx (q sd i) ≡ false)
    → IsBook (set_order idx o b) q free
set_order-IsBook b q free idx o h new out = record {
  level = λ sd i.
      IsLevel_unqueued b.pool.slots idx o (b.levels sd i) sd i (q sd i) (out sd i) (h.level sd i);
  distinct = h.distinct;
  queued_inside = h.queued_inside;
  chain =
      FreeChain-frame b.pool.slots (update b.pool.slots idx o) b.pool.free_head free
        (λ z m. rw (==-false {a = idx} {b = z} (λ i. cc (rw i at new, m)))) h.chain;
  free_distinct = h.free_distinct;
  free_inside = h.free_inside;
  apart = h.apart;
  active = h.active;
  words = h.words;
  room = h.room;
}

-- The price of a level takes no part in the invariant.
pub set_price-IsBook :
    (b : Book) (q : Queues) (free : List ℕ) (sd : Side) (at price : ℕ)
    → IsBook b q free
    → IsBook (set_level sd at (let l = b.levels sd at in record l { price = price }) b) q free
set_price-IsBook b q free sd at price h = record {
  level =
      by_place
        (λ t j.
          IsLevel b.pool.slots
            (put b.levels sd at (let l = b.levels sd at in record l { price = price }) t j) t j
            (q t j))
        sd at
        (rw (put_self b.levels sd at (let l = b.levels sd at in record l { price = price })) (
          let k = h.level sd at in
          record { linked = k.linked; volume = k.volume; count = k.count; orders = k.orders }))
        (λ t j apart.
          rw (put_other b.levels sd at (let l = b.levels sd at in record l { price = price }) apart)
            (h.level t j));
  distinct = h.distinct;
  queued_inside = h.queued_inside;
  chain = h.chain;
  free_distinct = h.free_distinct;
  free_inside = h.free_inside;
  apart = h.apart;
  active = h.active;
  words = h.words;
  room = h.room;
}

pub price_if-IsBook :
    (e : Bool) (b : Book) (q : Queues) (free : List ℕ) (sd : Side) (at price : ℕ)
    → IsBook b q free
    → IsBook
        (if e then set_level sd at (let l = b.levels sd at in record l { price = price }) b else b)
        q
        free
price_if-IsBook true b q free sd at price h = set_price-IsBook b q free sd at price h
price_if-IsBook false b q free sd at price h = h

pub price_if_pool :
    (e : Bool) (b : Book) (sd : Side) (at price : ℕ)
    → (if e
        then set_level sd at (let l = b.levels sd at in record l { price = price }) b
        else b).pool
      ≡ b.pool
price_if_pool true b sd at price = refl
price_if_pool false b sd at price = refl

pub allocate_data :
    (p : Pool.Pool)
    → ((Pool.allocate p).1.capacity ≡ p.capacity)
      × ((z : ℕ)
          → (((Pool.allocate p).1.slots z).id ≡ (p.slots z).id)
            × (((Pool.allocate p).1.slots z).qty ≡ (p.slots z).qty))
unfolding Pool.allocate
allocate_data p = (ground arith, λ z. (ground arith, ground arith))

pub append_maps : (sd : Side) (at x : ℕ) (b : Book) → (level_append sd at x b).id_map ≡ b.id_map
unfolding level_append
append_maps sd at x b = ground arith

pub price_if_maps :
    (e : Bool) (b : Book) (sd : Side) (at price : ℕ)
    → (if e
        then set_level sd at (let l = b.levels sd at in record l { price = price }) b
        else b).id_map
      ≡ b.id_map
price_if_maps true b sd at price = refl
price_if_maps false b sd at price = refl

-- The best prices take no part in what a book represents.
pub raise_top-Represents :
    (sd : Side) (at : ℕ) (b : Book) (l : Ladder) → Represents b l → Represents (raise_top sd at b) l
unfolding raise_top
raise_top-Represents buy at b l r = elim (Bool-cases (improves_bid at b)) [
  | inl e ↦ rw e (Represents_top b _ l r)
  | inr e ↦ rw e r
]
raise_top-Represents sell at b l r = elim (Bool-cases (improves_ask at b)) [
  | inl e ↦ rw e (Represents_top b _ l r)
  | inr e ↦ rw e r
]
