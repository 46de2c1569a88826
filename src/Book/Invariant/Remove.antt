-- ===== src/Book/Invariant/Remove.antt =====
-- What `level_remove` (src/core/OrderBook.cpp) does to each array.
use nanomatch.Base.{
  ℕ, ◌≡◌, ◌≢◌, refl, true, false, ◌==◌, if◌then◌else◌, sub32, null_idx, arith, ==-true, sym,
}
use nanomatch.Bitmap.{clear_bit}
use nanomatch.Orders.{Side, buy, sell, Order, PriceLevel, is_empty}
use nanomatch.Book.State.{Book, same_place, set_side}
use nanomatch.Book.Level.{level_remove, bitmap_side}
use nanomatch.Book.Invariant.{put_self}

module _ (sd : Side) (at x : ℕ) (b : Book) where
  abbrev order : Order
  order = b.pool.slots x

  -- The level without the order.
  abbrev pub level_without : PriceLevel
  level_without =
      let l = b.levels sd at in
      record l {
        head_idx = if order.prev_idx == null_idx then order.next_idx else l.head_idx;
        tail_idx = if order.next_idx == null_idx then order.prev_idx else l.tail_idx;
        total_volume = sub32 l.total_volume order.qty;
        order_count = sub32 l.order_count 1;
      }

  pub bitmap_side_here : order.price ≡ at → bitmap_side sd at order.price ≡ sd
  bitmap_side_here e = go sd (==-true (sym e))
    where
      go : (t : Side) → (at == order.price) ≡ true → bitmap_side t at order.price ≡ t
      go buy h = rw h
      go sell h = refl

  module _ (back : order.prev_idx ≢ x) (front : order.next_idx ≢ x) where
    pub slots_other :
        (z : ℕ)
        → z ≢ null_idx
        → z ≢ x
        → (level_remove sd at x b).pool.slots z ≡ (
            let o = b.pool.slots z in
            record o {
              next_idx = if order.prev_idx == z then order.next_idx else o.next_idx;
              prev_idx = if order.next_idx == z then order.prev_idx else o.prev_idx;
            })
    unfolding level_remove
    slots_other z real ne = ground arith

    pub levels_here : (level_remove sd at x b).levels sd at ≡ level_without
    unfolding level_remove
    levels_here = ground (arith, put_self b.levels sd at)

    pub levels_other :
        (t : Side) (j : ℕ)
        → same_place sd at t j ≡ false
        → (level_remove sd at x b).levels t j ≡ b.levels t j
    unfolding level_remove
    levels_other t j other = ground arith

    pub free_head_same : (level_remove sd at x b).pool.free_head ≡ b.pool.free_head
    unfolding level_remove
    free_head_same = ground arith

    pub capacity_same : (level_remove sd at x b).pool.capacity ≡ b.pool.capacity
    unfolding level_remove
    capacity_same = ground arith

    pub bitmaps_after :
        order.price ≡ at
        → (level_remove sd at x b).bitmaps ≡ (
            if is_empty level_without
            then set_side b.bitmaps sd (clear_bit (b.bitmaps sd) at)
            else b.bitmaps)
    unfolding level_remove
    bitmaps_after e = ground (arith, put_self b.levels sd at, bitmap_side_here e)

    pub slots_self :
        (level_remove sd at x b).pool.slots x
        ≡ record (b.pool.slots x) { next_idx = null_idx; prev_idx = null_idx }
    unfolding level_remove
    slots_self = ground arith
