-- ===== src/Book/Top.antt =====
-- `update_best_bid` and `update_best_ask` of src/core/OrderBook.cpp.
use nanomatch.Base.{ℕ, ◌==◌, if◌then◌else◌, leb, sub32, uint32_max}
use nanomatch.Bitmap.{find_prev_set_bit, find_next_set_bit}
use nanomatch.Orders.{buy, sell}
use nanomatch.Book.State.{Book, bitmap_size}

unfoldable pub update_best_bid : Book → Book
update_best_bid b =
    let start = if b.tob.best_bid == uint32_max then sub32 b.band 1 else b.tob.best_bid in
    let next = find_prev_set_bit (b.bitmaps buy) start in
    let volume = (b.levels buy next).total_volume in
    record b {
      tob =
          if next == uint32_max
          then record (b.tob) { best_bid = uint32_max; bid_qty = 0 }
          else record (b.tob) { best_bid = next; bid_qty = volume };
    }

unfoldable pub update_best_ask : Book → Book
update_best_ask b =
    let start = if leb b.band b.tob.best_ask then 0 else b.tob.best_ask in
    let next = find_next_set_bit (b.bitmaps sell) (bitmap_size b.band) start in
    let volume = (b.levels sell next).total_volume in
    record b {
      tob =
          if next == uint32_max
          then record (b.tob) { best_ask = uint32_max; ask_qty = 0 }
          else record (b.tob) { best_ask = next; ask_qty = volume };
    }

abbrev pub set_bid_qty : ℕ → Book → Book
set_bid_qty q b = record b { tob = record (b.tob) { bid_qty = q } }

abbrev pub set_ask_qty : ℕ → Book → Book
set_ask_qty q b = record b { tob = record (b.tob) { ask_qty = q } }
