-- ===== src/Book/Market.antt =====
-- `process_market_order` of src/core/OrderBook.cpp.
use nanomatch.Base.{
  ℕ, suc, ◌+◌, ◌-◌, ◌^◌, ◌≤◌, ◌<◌, ◌≡◌, ap, ◌++◌, some, ◌>>=◌, arith, Returns, sub32,
}
use nanomatch.Orders.{buy, sell}
use nanomatch.Book.State.{Book, set_side}
use nanomatch.Book.Matching.{process_market_order}
use nanomatch.Book.Reference.{Ladder, fills, sweep_up, sweep_down}
use nanomatch.Book.Represents.{Represents}
use nanomatch.Book.Sweep.Asks.{AskTop, Inside}
use nanomatch.Book.Sweep.Bids.{BidTop}
use nanomatch.Book.Sweep.MatchAsks.{match_against_asks-sweep_up}
use nanomatch.Book.Sweep.MatchBids.{match_against_bids-sweep_down}

-- What a market order leaves: every level of the other side was met, the best one first.
abbrev pub Bought : (qty : ℕ) → Book → Ladder → Book → Type 0
Bought qty b l b' =
    let swept = sweep_up 0 (λ at. (b.levels sell at).price) qty (l sell) b.band 0 in
    Represents b' (set_side l sell swept.row)
    × AskTop b' swept.row
    × (fills b'.trades ≡ fills b.trades ++ swept.made)

abbrev pub Sold : (qty : ℕ) → Book → Ladder → Book → Type 0
Sold qty b l b' =
    let swept = sweep_down 0 (λ at. (b.levels buy at).price) qty (l buy) b.band 0 in
    Represents b' (set_side l buy swept.row)
    × BidTop b' swept.row
    × (fills b'.trades ≡ fills b.trades ++ swept.made)

module _ (qty : ℕ) (b : Book) (l : Ladder) (r : Represents b l) (some_level : 0 < b.band)
    (fits : b.band + 64 ≤ 2 ^ 32) (asks : AskTop b (l sell)) (asks_inside : Inside b.band (l sell))
    (bids : BidTop b (l buy)) (bids_inside : Inside b.band (l buy)) where
  -- Every ask level is met, from the lowest up.
  bought : Returns (process_market_order buy qty b) (Bought qty b l)
  unfolding process_market_order
  bought =
      let last : suc (sub32 b.band 1) ≡ b.band = omega (arith, some_level, fits) in
      let (out, ran, (_, rep, top, _, made)) =
        match_against_asks-sweep_up 0 (sub32 b.band 1) qty b l r asks asks_inside fits
          (omega (arith, last, fits)) in
      (out.1, ap (λ o. o >>= λ q. some q.1) ran, (rw last at rep, rw last at top, rw last at made))

  sold : Returns (process_market_order sell qty b) (Sold qty b l)
  unfolding process_market_order
  sold =
      let all : b.band - 0 ≡ b.band = omega arith in
      let (out, ran, (_, rep, top, _, made)) =
        match_against_bids-sweep_down 0 0 qty b l r bids bids_inside fits in
      (out.1, ap (λ o. o >>= λ q. some q.1) ran, (rw all at rep, rw all at top, rw all at made))

  -- On a book that represents `l`, with right cached best prices, a band of between 1 and 2^32 - 64
  -- levels and no orders outside it, `process_market_order` returns for either side, and leaves the
  -- resting orders and the trades of the walk over all levels of the other side, the best one
  -- first, with the cached best price of that side right again.
  pub process_market_order-sweep :
      Returns (process_market_order buy qty b) (Bought qty b l)
      × Returns (process_market_order sell qty b) (Sold qty b l)
  process_market_order-sweep = (bought, sold)
