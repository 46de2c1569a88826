-- ===== src/Book/Feed.antt =====
-- `cancel_order`, `execute_order` and `reduce_order_qty` of src/core/OrderBook.cpp.
use nanomatch.Base.{
  ℕ, ◌-◌, Bool, true, false, Option, some, ◌>>=◌, ◌==◌, leb, if◌then◌else◌, sub32, null_idx,
}
use nanomatch.IdMap
use nanomatch.Orders.{Side, buy, sell, TopOfBook}
use nanomatch.Book.State.{Book, order_at, set_order, set_level, enqueue_trade, one_less_live}
use nanomatch.Book.Matching.{take_out, after_level}
use nanomatch.Book.Top.{set_bid_qty, set_ask_qty}

abbrev pub best_of : Side → TopOfBook → ℕ
best_of buy t = t.best_bid
best_of sell t = t.best_ask

-- The top of the book after the level at `price` has lost an order.
abbrev pub refresh_top : Side → (price : ℕ) → Book → Book
refresh_top s price b = if price == best_of s b.tob then after_level s price b else b

abbrev pub set_side_qty : Side → ℕ → Book → Book
set_side_qty buy q b = set_bid_qty q b
set_side_qty sell q b = set_ask_qty q b

-- The order at `idx` gives up `lost` of its quantity and stays.
unfoldable pub shrink_order : (idx lost : ℕ) → Book → Book
shrink_order idx lost b =
    let o = order_at b idx in
    let level = b.levels o.side o.price in
    let volume = sub32 level.total_volume lost in
    let b₁ =
      set_level o.side o.price (record level { total_volume = volume })
        (set_order idx (record o { qty = o.qty - lost }) b) in
    if o.price == best_of o.side b.tob then set_side_qty o.side volume b₁ else b₁

unfoldable pub cancel_order : ℕ → Book → Option Book
unfolding take_out
cancel_order id b = IdMap.find b.id_map id >>= λ idx.
    let o = order_at b idx in
    let cancelled =
      take_out o.side o.price idx id b >>= λ b'. some (refresh_top o.side o.price b') in
    if idx == null_idx then some b else cancelled

-- Whether the order is gone, and the book.
unfoldable pub execute_order : (id fill_qty : ℕ) → Book → Option (Bool × Book)
unfolding take_out shrink_order enqueue_trade
execute_order id fill_qty b = IdMap.find b.id_map id >>= λ idx.
    let o = order_at b idx in
    let abs_price = (b.levels o.side o.price).price in
    let executed = take_out o.side o.price idx id (enqueue_trade o.id 0 abs_price o.qty b) >>= λ b'.
    some (true, refresh_top o.side o.price (one_less_live b')) in
    let partly = shrink_order idx fill_qty (enqueue_trade o.id 0 abs_price fill_qty b) in
    if idx == null_idx
    then some (false, b)
    else if leb o.qty fill_qty
    then executed
    else some (false, partly)

unfoldable pub reduce_order_qty : (id cancel_qty : ℕ) → Book → Option (Bool × Book)
unfolding cancel_order shrink_order
reduce_order_qty id cancel_qty b = IdMap.find b.id_map id >>= λ idx.
    let o = order_at b idx in
    let cancelled = cancel_order id b >>= λ b'. some (true, b') in
    if idx == null_idx
    then some (false, b)
    else if leb o.qty cancel_qty
    then cancelled
    else some (false, shrink_order idx cancel_qty b)
