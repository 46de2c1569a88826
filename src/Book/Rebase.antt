-- ===== src/Book/Rebase.antt =====
-- `rebase_base` of src/core/OrderBook.cpp: the price window slides to a new base. The loops over the
-- two sides are one text, so they are one function of the side.
use nanomatch.Base.{
  ℕ, zero, suc, ◌+◌, ◌-◌, ◌&&◌, Option, none, some, ◌>>=◌, ◌==◌, leb, ltb, if◌then◌else◌, update,
  u32, add32, null_idx,
}
use nanomatch.Bitmap.{Bitmap, set_bit}
use nanomatch.Orders.{Side, buy, sell, PriceLevel, new_level, is_empty}
use nanomatch.Book.State.{Book, set_side, order_at, set_order, one_less_live}
use nanomatch.Book.Top.{update_best_bid, update_best_ask}
use nanomatch.Book.Matching.{erase_id, deallocate}

-- A level that falls out of the window: its orders are dropped.
unfoldable pub drop_orders : (fuel j : ℕ) → Book → Option Book
drop_orders zero j b = none
drop_orders (suc n) j b =
    let next = (order_at b j).next_idx in
    let more =
      erase_id (order_at b j).id b >>= λ b'. drop_orders n next (one_less_live (deallocate j b')) in
    if j == null_idx then some b else more

-- `j` is appended to the level that is being built at index `nr`.
abbrev pub move_order : (nr j : ℕ) → PriceLevel → Book → PriceLevel × Book
move_order nr j dst b =
    let o = order_at b j in
    let first = is_empty dst in
    let linked =
      if first
      then b
      else set_order dst.tail_idx (record (order_at b dst.tail_idx) { next_idx = j }) b in
    let before = if first then null_idx else dst.tail_idx in
    (
      record dst {
        head_idx = if first then j else dst.head_idx;
        tail_idx = j;
        total_volume = add32 dst.total_volume o.qty;
        order_count = add32 dst.order_count 1;
      },
      set_order j (record o { price = nr; prev_idx = before; next_idx = null_idx }) linked,
    )

unfoldable pub move_orders : (fuel nr j : ℕ) → PriceLevel → Book → Option (PriceLevel × Book)
move_orders zero nr j dst b = none
move_orders (suc n) nr j dst b =
    let next = (order_at b j).next_idx in
    let (dst', b') = move_order nr j dst b in
    let more = move_orders n nr next dst' b' in if j == null_idx then some (dst, b) else more

-- The arrays under construction, beside the book.
pub record Window : Type 0 where
  pub levels : ℕ → PriceLevel
  pub bitmap : Bitmap
  pub book : Book

-- One round of the loop over a side.
unfoldable pub rebase_level : Side → (new_base idx : ℕ) → Window → Option Window
unfolding drop_orders move_orders
rebase_level s new_base idx w =
    let lvl = w.book.levels s idx in
    let fuel = suc w.book.pool.capacity in
    let abs_price = u32 (w.book.base + idx) in
    let nr = abs_price - new_base in
    let dropped = drop_orders fuel lvl.head_idx w.book >>= λ b. some (record w { book = b }) in
    let dst = record (w.levels nr) { price = abs_price } in
    let moved = move_orders fuel nr lvl.head_idx dst w.book >>= λ r.
    some (record { levels = update w.levels nr r.0; bitmap = set_bit w.bitmap nr; book = r.1 }) in
    if is_empty lvl
    then some w
    else if leb new_base abs_price && ltb nr w.book.band
    then moved
    else dropped

-- `for (idx = 0; idx < N; ++idx)`, with `n` rounds left.
unfoldable pub rebase_side : Side → (new_base n idx : ℕ) → Window → Option Window
unfolding rebase_level
rebase_side s new_base zero idx w = some w
rebase_side s new_base (suc n) idx w =
    rebase_level s new_base idx w >>= rebase_side s new_base n (idx + 1)

abbrev pub fresh_window : Book → Window
fresh_window b = record { levels = λ _. new_level; bitmap = λ _. 0; book = b }

-- The swaps, the new base, and the top of the book once more.
unfoldable pub install : (new_base : ℕ) → (bids asks : Window) → Book
unfolding update_best_bid update_best_ask
install new_base bids asks = update_best_ask (
    update_best_bid (record (asks.book) {
      levels = set_side (set_side (asks.book.levels) buy bids.levels) sell asks.levels;
      bitmaps = set_side (set_side (asks.book.bitmaps) buy bids.bitmap) sell asks.bitmap;
      base = new_base;
    }))

unfoldable pub rebase_base : ℕ → Book → Option Book
unfolding rebase_side install
rebase_base new_base b =
    let slid = rebase_side buy new_base b.band 0 (fresh_window b) >>= λ bids.
    rebase_side sell new_base b.band 0 (fresh_window bids.book) >>= λ asks.
    some (install new_base bids asks) in
    if new_base == b.base then some b else slid
