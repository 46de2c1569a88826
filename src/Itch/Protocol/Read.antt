-- ===== src/Itch/Protocol/Read.antt =====
-- The casts of a pointer to a message of src/ingestion/ItchProtocols.hpp. The structs are packed: their
-- fields follow each other without gaps.
use nanomatch.Wire.{Reader, pure, ◌>>=◌, word, chars}
use nanomatch.Itch.Protocol.{
  ItchTimestamp, ItchCommonHeader, ItchAddOrderMessage, ItchStockDirectoryMessage,
  ItchAddOrderAttributedMessage, ItchOrderExecutedMessage, ItchOrderExecutedWithPriceMessage,
  ItchOrderCancelMessage, ItchOrderDeleteMessage, ItchOrderReplaceMessage,
}

unfoldable pub read_timestamp : Reader ItchTimestamp
read_timestamp = do bytes ← chars 6; pure (record { bytes = bytes })

unfoldable pub read_header : Reader ItchCommonHeader
read_header = do
  packet_length ← word 2
  message_type ← word 1
  pure (record { packet_length = packet_length; message_type = message_type })

unfoldable pub read_add_order : Reader ItchAddOrderMessage
read_add_order = do
  stock_locate ← word 2
  tracking_number ← word 2
  timestamp ← read_timestamp
  order_id ← word 8
  side ← word 1
  shares ← word 4
  stock ← chars 8
  price ← word 4
  pure (record {
    stock_locate = stock_locate;
    tracking_number = tracking_number;
    timestamp = timestamp;
    order_id = order_id;
    side = side;
    shares = shares;
    stock = stock;
    price = price;
  })

unfoldable pub read_stock_directory : Reader ItchStockDirectoryMessage
read_stock_directory = do
  stock_locate ← word 2
  tracking_number ← word 2
  timestamp ← read_timestamp
  stock ← chars 8
  market_category ← word 1
  financial_status_indicator ← word 1
  round_lot_size ← word 4
  round_lots_only ← word 1
  issue_classification ← word 1
  issue_subtype ← chars 2
  authenticity ← word 1
  short_sale_threshold_indicator ← word 1
  ipo_flag ← word 1
  luld_reference_price_tier ← word 1
  etp_flag ← word 1
  etp_leverage_factor ← word 4
  inverse_indicator ← word 1
  pure (record {
    stock_locate = stock_locate;
    tracking_number = tracking_number;
    timestamp = timestamp;
    stock = stock;
    market_category = market_category;
    financial_status_indicator = financial_status_indicator;
    round_lot_size = round_lot_size;
    round_lots_only = round_lots_only;
    issue_classification = issue_classification;
    issue_subtype = issue_subtype;
    authenticity = authenticity;
    short_sale_threshold_indicator = short_sale_threshold_indicator;
    ipo_flag = ipo_flag;
    luld_reference_price_tier = luld_reference_price_tier;
    etp_flag = etp_flag;
    etp_leverage_factor = etp_leverage_factor;
    inverse_indicator = inverse_indicator;
  })

unfoldable pub read_add_order_attributed : Reader ItchAddOrderAttributedMessage
read_add_order_attributed = do
  stock_locate ← word 2
  tracking_number ← word 2
  timestamp ← read_timestamp
  order_id ← word 8
  side ← word 1
  shares ← word 4
  stock ← chars 8
  price ← word 4
  attribution ← chars 4
  pure (record {
    stock_locate = stock_locate;
    tracking_number = tracking_number;
    timestamp = timestamp;
    order_id = order_id;
    side = side;
    shares = shares;
    stock = stock;
    price = price;
    attribution = attribution;
  })

unfoldable pub read_order_executed : Reader ItchOrderExecutedMessage
read_order_executed = do
  stock_locate ← word 2
  tracking_number ← word 2
  timestamp ← read_timestamp
  order_id ← word 8
  shares ← word 4
  match_number ← word 8
  pure (record {
    stock_locate = stock_locate;
    tracking_number = tracking_number;
    timestamp = timestamp;
    order_id = order_id;
    shares = shares;
    match_number = match_number;
  })

unfoldable pub read_order_executed_with_price : Reader ItchOrderExecutedWithPriceMessage
read_order_executed_with_price = do
  stock_locate ← word 2
  tracking_number ← word 2
  timestamp ← read_timestamp
  order_id ← word 8
  shares ← word 4
  match_number ← word 8
  printable ← word 1
  execution_price ← word 4
  pure (record {
    stock_locate = stock_locate;
    tracking_number = tracking_number;
    timestamp = timestamp;
    order_id = order_id;
    shares = shares;
    match_number = match_number;
    printable = printable;
    execution_price = execution_price;
  })

unfoldable pub read_order_cancel : Reader ItchOrderCancelMessage
read_order_cancel = do
  stock_locate ← word 2
  tracking_number ← word 2
  timestamp ← read_timestamp
  order_id ← word 8
  canceled_shares ← word 4
  pure (record {
    stock_locate = stock_locate;
    tracking_number = tracking_number;
    timestamp = timestamp;
    order_id = order_id;
    canceled_shares = canceled_shares;
  })

unfoldable pub read_order_delete : Reader ItchOrderDeleteMessage
read_order_delete = do
  stock_locate ← word 2
  tracking_number ← word 2
  timestamp ← read_timestamp
  order_id ← word 8
  pure (record {
    stock_locate = stock_locate;
    tracking_number = tracking_number;
    timestamp = timestamp;
    order_id = order_id;
  })

unfoldable pub read_order_replace : Reader ItchOrderReplaceMessage
read_order_replace = do
  stock_locate ← word 2
  tracking_number ← word 2
  timestamp ← read_timestamp
  original_order_id ← word 8
  new_order_id ← word 8
  shares ← word 4
  price ← word 4
  pure (record {
    stock_locate = stock_locate;
    tracking_number = tracking_number;
    timestamp = timestamp;
    original_order_id = original_order_id;
    new_order_id = new_order_id;
    shares = shares;
    price = price;
  })
