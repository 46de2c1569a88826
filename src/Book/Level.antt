-- ===== src/Book/Level.antt =====
-- `level_append` and `level_remove` of src/core/OrderBook.cpp: the doubly linked queue of one level.
-- A level is named by its side and its index, as the reference that the source passes. Which bitmap
-- is written depends on the test `&level == &bids_[o.price]`, kept as the source has it.
use nanomatch.Base.{ℕ, ◌&&◌, ◌==◌, if◌then◌else◌, sub32, add32, null_idx}
use nanomatch.Bitmap.{Bitmap, set_bit, clear_bit}
use nanomatch.Orders.{Side, buy, sell, is_buy, is_empty}
use nanomatch.Book.State.{Book, set_side, order_at, set_order, set_level}

-- The side whose bitmap is written for the level at `at` of side `s`.
abbrev pub bitmap_side : Side → (at price : ℕ) → Side
bitmap_side s at price = if is_buy s && at == price then buy else sell

abbrev pub mark : (Bitmap → ℕ → Bitmap) → Side → ℕ → Book → Book
mark change t price b = record b { bitmaps = set_side b.bitmaps t (change (b.bitmaps t) price) }

unfoldable pub level_append : Side → (at idx : ℕ) → Book → Book
level_append s at idx b =
    let level = b.levels s at in
    let o = order_at b idx in
    let linked = set_order idx (record o { prev_idx = level.tail_idx; next_idx = null_idx }) b in
    let counted = record level {
      tail_idx = idx;
      total_volume = add32 level.total_volume o.qty;
      order_count = add32 level.order_count 1;
    } in
    if is_empty level
    then set_level s at (record counted { head_idx = idx })
        (mark set_bit (bitmap_side s at o.price) o.price linked)
    else let last = order_at linked level.tail_idx in
      set_level s at counted (set_order level.tail_idx (record last { next_idx = idx }) linked)

-- The new head and the order before, when the order at `idx` leaves.
unlink_before : Side → (at idx : ℕ) → Book → Book
unlink_before s at idx b =
    let o = order_at b idx in
    let before = order_at b o.prev_idx in
    if o.prev_idx == null_idx
    then set_level s at (record (b.levels s at) { head_idx = o.next_idx }) b
    else set_order o.prev_idx (record before { next_idx = o.next_idx }) b

unlink_behind : Side → (at idx : ℕ) → Book → Book
unlink_behind s at idx b =
    let o = order_at b idx in
    let behind = order_at b o.next_idx in
    if o.next_idx == null_idx
    then set_level s at (record (b.levels s at) { tail_idx = o.prev_idx }) b
    else set_order o.next_idx (record behind { prev_idx = o.prev_idx }) b

-- `level.total_volume -= o.qty; --level.order_count`, and the bitmap of a level that is now empty.
leave_level : Side → (at idx : ℕ) → Book → Book
leave_level s at idx b =
    let o = order_at b idx in
    let level = b.levels s at in
    let left =
      set_level s at
        (record level {
          total_volume = sub32 level.total_volume o.qty;
          order_count = sub32 level.order_count 1;
        })
        b in
    if is_empty level then mark clear_bit (bitmap_side s at o.price) o.price left else left

unfoldable pub level_remove : Side → (at idx : ℕ) → Book → Book
unfolding unlink_before unlink_behind leave_level
level_remove s at idx b =
    let left = leave_level s at idx (unlink_behind s at idx (unlink_before s at idx b)) in
    set_order idx (record (order_at left idx) { next_idx = null_idx; prev_idx = null_idx }) left
