-- ===== src/Tests/Feed.antt =====
-- The theorems on orders of the feed and on market orders at a book with one sell.
use nanomatch.Base.{◌≡◌, refl, leb, min, [], ◌∷◌, ◌++◌, arith, Returns}
use nanomatch.Orders.{Side, buy, sell}
use nanomatch.Book.State.{put}
use nanomatch.Book.Feed.{cancel_order, execute_order, reduce_order_qty}
use nanomatch.Book.Matching.{process_market_order}
use nanomatch.Book.Reference.{fills, Ladder}
use nanomatch.Book.Represents.{Represents}
use nanomatch.Book.Shrink.{shrink_queue}
use nanomatch.Book.Execute.{reduce_order_qty-Represents, execute_order-Represents}
use nanomatch.Book.Market.{Bought, Sold, process_market_order-sweep}
use nanomatch.Book.Sweep.Bids.{BidTop, no_level}
use nanomatch.Book.Insert.{insert_limit_order}
use nanomatch.Book.Limit.{BuyPlaced, SellPlaced, insert_limit_order-Placed}
use nanomatch.Book.Tops.{Tops}
use nanomatch.Book.Tops.Feed.{feed-Tops}
use nanomatch.Book.Sweep.Asks.{Inside}
use nanomatch.Tests.{program}
use nanomatch.Tests.Witnesses.{
  one_ask, one_sell, one_sell-Represents, one_sell_queue, one_sell-AskTop, one_sell-Inside,
}

reduce_order_qty_example : Returns (reduce_order_qty 101 4 one_sell) (λ out.
    (out.0 ≡ leb 10 4)
    × Represents out.1 (put one_ask sell 50 (shrink_queue [] (record { id = 101; qty = 10 }) [] 4))
    × (out.1.trades ≡ one_sell.trades))
unfolding program
reduce_order_qty_example =
    reduce_order_qty-Represents one_sell one_ask one_sell-Represents sell 50 0 [] [] one_sell_queue
      101 4 refl

execute_order_example : Returns (execute_order 101 4 one_sell) (λ out.
    (out.0 ≡ leb 10 4)
    × Represents out.1 (put one_ask sell 50 (shrink_queue [] (record { id = 101; qty = 10 }) [] 4))
    × (fills out.1.trades
        ≡ fills one_sell.trades
          ++ record { maker_id = 101; taker_id = 0; price = 500; qty = min 4 10 } ∷ []))
unfolding program
execute_order_example =
    execute_order-Represents one_sell one_ask one_sell-Represents sell 50 0 [] [] one_sell_queue 101
      4 refl

one_sell-BidTop : BidTop one_sell (one_ask buy)
unfolding program
one_sell-BidTop = no_level refl (λ _. refl)

process_market_order_example :
    Returns (process_market_order buy 15 one_sell) (Bought 15 one_sell one_ask)
    × Returns (process_market_order sell 15 one_sell) (Sold 15 one_sell one_ask)
unfolding program
process_market_order_example =
    process_market_order-sweep 15 one_sell one_ask one_sell-Represents (omega arith) (omega arith)
      one_sell-AskTop one_sell-Inside one_sell-BidTop (λ _ _. refl)

one_sell-Tops : Tops one_sell one_ask
one_sell-Tops = record { asks = one_sell-AskTop; bids = one_sell-BidTop }

insert_limit_order_example :
    Returns (insert_limit_order 201 buy 500 15 one_sell) (BuyPlaced 201 500 15 one_sell one_ask)
    × Returns (insert_limit_order 201 sell 500 15 one_sell) (SellPlaced 201 500 15 one_sell one_ask)
unfolding program
insert_limit_order_example =
    insert_limit_order-Placed 201 500 15 one_sell one_ask one_sell-Represents one_sell-Tops
      (omega arith) (omega arith) one_sell-Inside (λ _ _. refl) refl

one_sell_sides : (t : Side) → Inside one_sell.band (one_ask t)
unfolding program
one_sell_sides buy j far = refl
one_sell_sides sell j far = one_sell-Inside j far

abbrev four_less : Ladder
four_less = put one_ask sell 50 (shrink_queue [] (record { id = 101; qty = 10 }) [] 4)

feed-Tops_example :
    Returns (cancel_order 101 one_sell) (λ b'. Tops b' (put one_ask sell 50 []))
    × Returns (reduce_order_qty 101 4 one_sell) (λ out. Tops out.1 four_less)
    × Returns (execute_order 101 4 one_sell) (λ out. Tops out.1 four_less)
unfolding program
feed-Tops_example =
    feed-Tops one_sell one_ask one_sell-Represents sell 50 0 [] [] one_sell_queue one_sell-Tops
      (omega arith) one_sell_sides 101 refl 4
