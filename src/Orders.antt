-- ===== src/Orders.antt =====
-- The plain data of src/core/Types.hpp and src/core/OrderBook.hpp.
use nanomatch.Base.{ℕ, Bool, true, false, null_idx, uint32_max, ◌==◌}

pub data Side : Type 0 where
  buy sell : Side

abbrev pub is_buy : Side → Bool
is_buy buy = true
is_buy sell = false

abbrev pub same_side : Side → Side → Bool
same_side buy buy = true
same_side sell sell = true
same_side _ _ = false

-- `price` is the index into the price band. Padding has no content.
pub record Order : Type 0 where
  pub id : ℕ  -- uint64_t
  pub next_idx : ℕ  -- uint32_t, as the fields below
  pub prev_idx : ℕ
  pub price : ℕ
  pub qty : ℕ
  pub side : Side

pub record Trade : Type 0 where
  pub maker_id : ℕ
  pub taker_id : ℕ
  pub price : ℕ
  pub qty : ℕ
  pub timestamp : ℕ

pub record PriceLevel : Type 0 where
  pub price : ℕ
  pub total_volume : ℕ
  pub head_idx : ℕ
  pub tail_idx : ℕ
  pub order_count : ℕ

-- A level as it is default-constructed.
abbrev pub new_level : PriceLevel
new_level = record {
  price = 0;
  total_volume = 0;
  head_idx = null_idx;
  tail_idx = null_idx;
  order_count = 0;
}

abbrev pub is_empty : PriceLevel → Bool
is_empty l = l.head_idx == null_idx

pub record TopOfBook : Type 0 where
  pub best_bid : ℕ
  pub best_ask : ℕ
  pub bid_qty : ℕ
  pub ask_qty : ℕ

abbrev pub new_top : TopOfBook
new_top = record { best_bid = uint32_max; best_ask = uint32_max; bid_qty = 0; ask_qty = 0 }
