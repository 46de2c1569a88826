-- ===== src/Itch/Protocol.antt =====
-- The messages of src/ingestion/ItchProtocols.hpp. A number is as the machine loads it, so in the wrong
-- order of bytes until it is swapped.
pub mod Read
pub mod Sizes
use nanomatch.Base.{ℕ, ◌<<<◌, List, u64, bit_or}
use mathlib.Core.List.{foldl}

pub record ItchTimestamp : Type 0 where
  pub bytes : List ℕ  -- uint8_t[6]

-- Forty-eight bits of nanoseconds, highest byte first.
unfoldable pub itch_ts_to_u64 : ItchTimestamp → ℕ
itch_ts_to_u64 t = foldl (λ v b. bit_or (u64 (v <<< 8)) b) 0 t.bytes

pub record ItchCommonHeader : Type 0 where
  pub packet_length : ℕ
  pub message_type : ℕ

pub record ItchAddOrderMessage : Type 0 where
  pub stock_locate : ℕ
  pub tracking_number : ℕ
  pub timestamp : ItchTimestamp
  pub order_id : ℕ
  pub side : ℕ
  pub shares : ℕ
  pub stock : List ℕ
  pub price : ℕ

pub record ItchStockDirectoryMessage : Type 0 where
  pub stock_locate : ℕ
  pub tracking_number : ℕ
  pub timestamp : ItchTimestamp
  pub stock : List ℕ
  pub market_category : ℕ
  pub financial_status_indicator : ℕ
  pub round_lot_size : ℕ
  pub round_lots_only : ℕ
  pub issue_classification : ℕ
  pub issue_subtype : List ℕ
  pub authenticity : ℕ
  pub short_sale_threshold_indicator : ℕ
  pub ipo_flag : ℕ
  pub luld_reference_price_tier : ℕ
  pub etp_flag : ℕ
  pub etp_leverage_factor : ℕ
  pub inverse_indicator : ℕ

pub record ItchAddOrderAttributedMessage : Type 0 where
  pub stock_locate : ℕ
  pub tracking_number : ℕ
  pub timestamp : ItchTimestamp
  pub order_id : ℕ
  pub side : ℕ
  pub shares : ℕ
  pub stock : List ℕ
  pub price : ℕ
  pub attribution : List ℕ

pub record ItchOrderExecutedMessage : Type 0 where
  pub stock_locate : ℕ
  pub tracking_number : ℕ
  pub timestamp : ItchTimestamp
  pub order_id : ℕ
  pub shares : ℕ
  pub match_number : ℕ

pub record ItchOrderExecutedWithPriceMessage : Type 0 where
  pub stock_locate : ℕ
  pub tracking_number : ℕ
  pub timestamp : ItchTimestamp
  pub order_id : ℕ
  pub shares : ℕ
  pub match_number : ℕ
  pub printable : ℕ
  pub execution_price : ℕ

pub record ItchOrderCancelMessage : Type 0 where
  pub stock_locate : ℕ
  pub tracking_number : ℕ
  pub timestamp : ItchTimestamp
  pub order_id : ℕ
  pub canceled_shares : ℕ

pub record ItchOrderDeleteMessage : Type 0 where
  pub stock_locate : ℕ
  pub tracking_number : ℕ
  pub timestamp : ItchTimestamp
  pub order_id : ℕ

pub record ItchOrderReplaceMessage : Type 0 where
  pub stock_locate : ℕ
  pub tracking_number : ℕ
  pub timestamp : ItchTimestamp
  pub original_order_id : ℕ
  pub new_order_id : ℕ
  pub shares : ℕ
  pub price : ℕ
