-- ===== src/Tests.antt =====
-- The runs of tests/OrderBookTests.cpp, on a small book.
mod Witnesses
mod Pieces
mod Feed
mod Bids
mod Ring
mod Logging
mod Itch
mod Files
use nanomatch.Base.{ℕ, ◌≡◌, refl, Option, some, ◌>>=◌, List, [], ◌∷◌, Bool, false, null_idx}
use mathlib.Core.List.{map}
use nanomatch.Bits.{bit, count_trailing_zeros, count_leading_zeros}
use nanomatch.Bitmap.{set_bit, clear_bit, find_prev_set_bit, find_next_set_bit}
use nanomatch.IdMap
use nanomatch.Orders.{buy, sell}
use nanomatch.Pool
use nanomatch.Book.State.{Book}
use nanomatch.Book.State
use nanomatch.Book.Level.{level_append, level_remove}
use nanomatch.Book.Top.{update_best_bid, update_best_ask}
use nanomatch.Book.Matching.{
  fill_order, fill_level, sweep_asks, sweep_bids, match_against_asks, match_against_bids,
}
use nanomatch.Book.Rebase.{rebase_base}
use nanomatch.Book.Insert.{insert_limit_order, rest_order}
use nanomatch.Book.Feed.{cancel_order, execute_order, reduce_order_qty}

-- The definitions that the tests run.
program : Unit {0}
unfolding bit count_trailing_zeros count_leading_zeros set_bit clear_bit find_prev_set_bit
    find_next_set_bit IdMap.home IdMap.next_slot IdMap.probe IdMap.insert IdMap.find_from IdMap.find
    IdMap.displaced IdMap.shift_back IdMap.erase IdMap.new Pool.new Pool.allocate Pool.deallocate
    State.new level_append level_remove update_best_bid update_best_ask fill_order fill_level
    sweep_asks sweep_bids match_against_asks match_against_bids rebase_base rest_order
    insert_limit_order cancel_order execute_order reduce_order_qty
program = tt

abbrev empty_book : Book
empty_book = State.new 100 8 (λ n. n)

-- Two sells at one price, and a buy that takes the first and a part of the second.
abbrev two_sells : Option Book
two_sells = insert_limit_order 101 sell 500 10 empty_book >>= λ r.
    insert_limit_order 102 sell 500 20 r.1 >>= λ s. some s.1

abbrev crossed : Option (ℕ × ℕ × Bool × List ℕ)
crossed = two_sells >>= λ b. insert_limit_order 201 buy 500 15 b >>= λ r. some (
  (r.1.levels sell 50).total_volume,
  (r.1.levels sell 50).head_idx,
  r.0,
  map (λ t. t.qty) r.1.trades,
)

-- The first order is gone, the second keeps 15 of its 20, and the buy does not rest.
fifo_priority : crossed ≡ some (15, 1, false, 10 ∷ 5 ∷ [])
unfolding program
fifo_priority = refl

abbrev cancelled : Option (ℕ × ℕ × ℕ)
cancelled = insert_limit_order 301 buy 450 100 empty_book >>= λ r. cancel_order 301 r.1 >>= λ b.
    some ((b.levels buy 50).head_idx, (b.levels buy 50).total_volume, b.live_order_count)

-- The level is empty; the count of live orders still says 1.
cancel_empties : cancelled ≡ some (null_idx, 0, 1)
unfolding program
cancel_empties = refl
