-- ===== src/Book/Matching.antt =====
-- `match_against_asks`, `match_against_bids` and `process_market_order` of src/core/OrderBook.cpp.
-- The two inner loops of the source are one text for two sides, so they are one function of the side.
-- The walk over a level's queue has a round for each slot of the pool, and the sweep over the levels a
-- round for each level of the band: `none` is a loop that has used them up.
use nanomatch.Base.{
  ℕ, zero, suc, ◌+◌, ◌-◌, ◌||◌, Option, none, some, ◌>>=◌, ◌==◌, ltb, if◌then◌else◌, min, sub32,
  null_idx, uint32_max,
}
use nanomatch.IdMap
use nanomatch.Orders.{Side, buy, sell, is_empty}
use nanomatch.Pool
use nanomatch.Book.State.{Book, order_at, set_order, set_level, enqueue_trade, one_less_live}
use nanomatch.Book.Level.{level_remove}
use nanomatch.Book.Top.{update_best_bid, update_best_ask, set_bid_qty, set_ask_qty}

-- `id_map_.erase(id)`
abbrev pub erase_id : ℕ → Book → Option Book
erase_id id b = IdMap.erase b.id_map id >>= λ m. some (record b { id_map = m })

abbrev pub deallocate : ℕ → Book → Book
deallocate idx b = record b { pool = Pool.deallocate idx b.pool }

-- `level_remove`, `id_map_.erase` and `pool_.deallocate`, in this order.
unfoldable pub take_out : Side → (at idx id : ℕ) → Book → Option Book
take_out s at idx id b = erase_id id (level_remove s at idx b) >>= λ b'. some (deallocate idx b')

-- One round of the inner loop: the order at `idx` trades with the taker.
unfoldable pub fill_order : Side → (at taker_id idx remaining : ℕ) → Book → Option (ℕ × Book)
unfolding enqueue_trade take_out
fill_order s at taker_id idx remaining b =
    let o = order_at b idx in
    let level = b.levels s at in
    let match_qty = min remaining o.qty in
    let logged = enqueue_trade o.id taker_id level.price match_qty b in
    let traded =
      set_level s at (record level { total_volume = sub32 level.total_volume match_qty })
        (set_order idx (record o { qty = o.qty - match_qty }) logged) in
    let gone =
      take_out s at idx o.id traded >>= λ b'. some (remaining - match_qty, one_less_live b') in
    if o.qty - match_qty == 0 then gone else some (remaining - match_qty, traded)

-- `while (idx != NULL_IDX && remaining > 0)`
unfoldable pub fill_level :
    (fuel : ℕ) → Side → (at taker_id idx remaining : ℕ) → Book → Option (ℕ × Book)
fill_level zero s at taker_id idx remaining b = none
fill_level (suc n) s at taker_id idx remaining b =
    let next = (order_at b idx).next_idx in
    let more =
      fill_order s at taker_id idx remaining b >>= λ r. fill_level n s at taker_id next r.0 r.1 in
    if idx == null_idx || remaining == 0 then some (remaining, b) else more

-- What follows the inner loop.
abbrev pub after_level : Side → ℕ → Book → Book
after_level buy at b =
    let level = b.levels buy at in
    if is_empty level then update_best_bid b else set_bid_qty level.total_volume b
after_level sell at b =
    let level = b.levels sell at in
    if is_empty level then update_best_ask b else set_ask_qty level.total_volume b

unfoldable pub sweep_asks : (fuel taker_id limit remaining : ℕ) → Book → Option (ℕ × Book)
unfolding fill_level
sweep_asks zero taker_id limit remaining b = none
sweep_asks (suc n) taker_id limit remaining b =
    let best = b.tob.best_ask in
    let more =
      fill_level (suc b.pool.capacity) sell best taker_id (b.levels sell best).head_idx remaining b
      >>= λ r. sweep_asks n taker_id limit r.0 (after_level sell best r.1) in
    if remaining == 0 || ltb limit best then some (remaining, b) else more

unfoldable pub sweep_bids : (fuel taker_id limit remaining : ℕ) → Book → Option (ℕ × Book)
unfolding fill_level
sweep_bids zero taker_id limit remaining b = none
sweep_bids (suc n) taker_id limit remaining b =
    let best = b.tob.best_bid in
    let more =
      fill_level (suc b.pool.capacity) buy best taker_id (b.levels buy best).head_idx remaining b
      >>= λ r. sweep_bids n taker_id limit r.0 (after_level buy best r.1) in
    if remaining == 0
    then some (remaining, b)
    else if best == uint32_max || ltb best limit
    then some (remaining, b)
    else if is_empty (b.levels buy best)
    then some (remaining, b)
    else more

-- The quantity that is left, and the book.
unfoldable pub match_against_asks : (taker_id limit qty : ℕ) → Book → Option (ℕ × Book)
unfolding sweep_asks
match_against_asks taker_id limit qty b = sweep_asks (b.band + 2) taker_id limit qty b

unfoldable pub match_against_bids : (taker_id limit qty : ℕ) → Book → Option (ℕ × Book)
unfolding sweep_bids
match_against_bids taker_id limit qty b = sweep_bids (b.band + 2) taker_id limit qty b

unfoldable pub process_market_order : Side → ℕ → Book → Option Book
unfolding match_against_asks match_against_bids
process_market_order buy qty b = match_against_asks 0 (sub32 b.band 1) qty b >>= λ r. some r.1
process_market_order sell qty b = match_against_bids 0 0 qty b >>= λ r. some r.1
