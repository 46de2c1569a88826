-- ===== src/Itch/Decode.antt =====
-- The switch of `parse_itch_file` (src/ingestion/ItchParser.cpp) as far as the fields that it takes from
-- a message. `payload` is what follows the header, up to the end of the file.
pub mod Range
pub mod Sent
use nanomatch.Base.{ℕ, ◌<◌, Option, none, some, List, length, ltb, ◌==◌, if◌then◌else◌, Bool}
use nanomatch.Orders.{Side, buy, sell}
use nanomatch.Wire.{Reader, bswap}
use nanomatch.Itch.Protocol.{
  ItchAddOrderMessage, ItchAddOrderAttributedMessage, ItchOrderExecutedMessage,
  ItchOrderExecutedWithPriceMessage, ItchOrderCancelMessage, ItchOrderDeleteMessage,
  ItchOrderReplaceMessage,
}
use nanomatch.Itch.Protocol.Read.{
  read_add_order, read_add_order_attributed, read_order_executed, read_order_executed_with_price,
  read_order_cancel, read_order_delete, read_order_replace,
}
use nanomatch.Itch.Protocol.Sizes.{
  sizeof_add_order, sizeof_add_order_attributed, sizeof_order_executed,
  sizeof_order_executed_with_price, sizeof_order_cancel, sizeof_order_delete, sizeof_order_replace,
}

-- What a handler gets: 'A' and 'F' are handled alike, and so are 'E' and 'C'.
pub data Message : Type 0 where
  add : (locate_id order_id : ℕ) → Side → (price shares : ℕ) → Message
  executed : (order_id shares : ℕ) → Message
  canceled : (order_id canceled_shares : ℕ) → Message
  deleted : (order_id : ℕ) → Message
  replaced : (original_order_id new_order_id price shares : ℕ) → Message

-- `skipped` are other types and messages that end too early; `past_end` is a read outside the file.
pub data Decoded : Type 0 where
  message : Message → Decoded
  skipped : Decoded
  past_end : Decoded

abbrev pub cast {ℓ} : {A : Type ℓ} → Option (A × List ℕ) → (A → Message) → Decoded
cast none f = past_end
cast (some (a, rest)) f = message (f a)

-- `if (body_avail < sizeof(...)) { break; }`, and the cast of the pointer.
abbrev pub guarded {ℓ} : {A : Type ℓ} → ℕ → Reader A → (A → Message) → List ℕ → Decoded
guarded size read f payload = if ltb (length payload) size then skipped else cast (read payload) f

abbrev pub side_of : ℕ → Side
side_of c = if c == b'S' then sell else buy

abbrev pub added : ItchAddOrderMessage → Message
added m =
    add (bswap 2 m.stock_locate) (bswap 8 m.order_id) (side_of m.side) (bswap 4 m.price)
      (bswap 4 m.shares)

abbrev pub added_attributed : ItchAddOrderAttributedMessage → Message
added_attributed m =
    add (bswap 2 m.stock_locate) (bswap 8 m.order_id) (side_of m.side) (bswap 4 m.price)
      (bswap 4 m.shares)

abbrev pub was_executed : ItchOrderExecutedMessage → Message
was_executed m = executed (bswap 8 m.order_id) (bswap 4 m.shares)

abbrev pub was_executed_with_price : ItchOrderExecutedWithPriceMessage → Message
was_executed_with_price m = executed (bswap 8 m.order_id) (bswap 4 m.shares)

abbrev pub was_canceled : ItchOrderCancelMessage → Message
was_canceled m = canceled (bswap 8 m.order_id) (bswap 4 m.canceled_shares)

abbrev pub was_deleted : ItchOrderDeleteMessage → Message
was_deleted m = deleted (bswap 8 m.order_id)

abbrev pub was_replaced : ItchOrderReplaceMessage → Message
was_replaced m =
    replaced (bswap 8 m.original_order_id) (bswap 8 m.new_order_id) (bswap 4 m.price)
      (bswap 4 m.shares)

unfoldable pub decode : (message_type : ℕ) → List ℕ → Decoded
decode t payload =
    if t == b'A'
    then guarded sizeof_add_order read_add_order added payload
    else if t == b'F'
    then guarded sizeof_add_order_attributed read_add_order_attributed added_attributed payload
    else if t == b'E'
    then guarded sizeof_order_executed read_order_executed was_executed payload
    else if t == b'C'
    then guarded sizeof_order_executed_with_price read_order_executed_with_price
        was_executed_with_price payload
    else if t == b'X'
    then guarded sizeof_order_cancel read_order_cancel was_canceled payload
    else if t == b'D'
    then guarded sizeof_order_delete read_order_delete was_deleted payload
    else if t == b'U'
    then guarded sizeof_order_replace read_order_replace was_replaced payload
    else skipped
