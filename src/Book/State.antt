-- ===== src/Book/State.antt =====
-- The state of an `OrderBook`. `bids_` and `asks_` are the two sides of one family of levels, and so
-- are the bitmaps; vectors are functions of the index, and `band` is the size of `bids_` and `asks_`.
-- The logger is the list of the trades handed to it, oldest first, and the time stamp counter is the
-- sequence of what it will read.
use nanomatch.Base.{
  ℕ, suc, ◌+◌, ◌-◌, ◌*◌, ◌/◌, Bool, false, ◌&&◌, List, [], ◌∷◌, ◌++◌, ◌==◌, if◌then◌else◌, update,
  u32, sub32, add32,
}
use nanomatch.Bitmap.{Bitmap}
use nanomatch.IdMap.{IdMap}
use nanomatch.IdMap
use nanomatch.Orders.{Side, same_side, Order, Trade, PriceLevel, new_level, TopOfBook, new_top}
use nanomatch.Pool.{Pool}
use nanomatch.Pool

pub record Book : Type 0 where
  pub tob : TopOfBook
  pub pool : Pool
  pub id_map : IdMap
  pub base : ℕ  -- uint32_t
  pub base_set : Bool
  pub live_order_count : ℕ  -- uint32_t
  pub band : ℕ  -- size_t
  pub levels : Side → ℕ → PriceLevel
  pub bitmaps : Side → Bitmap
  pub trades : List Trade
  pub clock : ℕ → ℕ

-- `BOOTSTRAP_REBASE_LIMIT`
abbrev pub bootstrap_rebase_limit : ℕ
bootstrap_rebase_limit = 64

-- The `round_up_pow2` of the .cpp file, which tells 0 and not 1 apart.
unfoldable pub round_up_pow2 : ℕ → ℕ
unfolding IdMap.smear
round_up_pow2 v = if v == 0 then 1 else u32 (IdMap.smear (sub32 v 1) + 1)

unfoldable pub new : (price_band max_orders : ℕ) → (ℕ → ℕ) → Book
unfolding round_up_pow2 Pool.new IdMap.new
new price_band max_orders clock = record {
  tob = new_top;
  pool = Pool.new (u32 max_orders);
  id_map = IdMap.new (round_up_pow2 (u32 (u32 max_orders * 2)));
  base = 0;
  base_set = false;
  live_order_count = 0;
  band = price_band;
  levels = λ _ _. new_level;
  bitmaps = λ _ _. 0;
  trades = [];
  clock = clock;
}

-- `bid_bitmap_.size()` and `ask_bitmap_.size()`
abbrev pub bitmap_size : ℕ → ℕ
bitmap_size band = (band + 63) / 64

abbrev pub same_place : Side → ℕ → Side → ℕ → Bool
same_place s i t j = same_side s t && i == j

module _ {ℓ} {A : Type ℓ} where
  -- An array of one side is replaced.
  abbrev pub set_side : (Side → A) → Side → A → Side → A
  set_side f s v t = if same_side s t then v else f t

  -- One place of one side is written.
  abbrev pub put : (Side → ℕ → A) → Side → ℕ → A → Side → ℕ → A
  put f s i v t j = if same_place s i t j then v else f t j

abbrev pub order_at : Book → ℕ → Order
order_at b idx = b.pool.slots idx

abbrev pub set_order : ℕ → Order → Book → Book
set_order idx o b = record b { pool = record (b.pool) { slots = update b.pool.slots idx o } }

abbrev pub set_level : Side → ℕ → PriceLevel → Book → Book
set_level s i l b = record b { levels = put b.levels s i l }

-- `logger_.enqueue_trade(Trade{maker, taker, price, qty, rdtsc()})`
unfoldable pub enqueue_trade : (maker_id taker_id price qty : ℕ) → Book → Book
enqueue_trade maker_id taker_id price qty b = record b {
  trades =
      b.trades
      ++ record {
        maker_id = maker_id;
        taker_id = taker_id;
        price = price;
        qty = qty;
        timestamp = b.clock 0;
      }
        ∷ [];
  clock = λ n. b.clock (suc n);
}

-- `if (live_order_count_ > 0) --live_order_count_`
abbrev pub one_less_live : Book → Book
one_less_live b = record b { live_order_count = b.live_order_count - 1 }

abbrev pub one_more_live : Book → Book
one_more_live b = record b { live_order_count = add32 b.live_order_count 1 }
