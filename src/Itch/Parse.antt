-- ===== src/Itch/Parse.antt =====
-- The loop of `parse_itch_file` (src/ingestion/ItchParser.cpp) over the mapped file.
pub mod Safety
pub mod Framing
use nanomatch.Base.{
  ℕ, zero, suc, ◌+◌, ◌^◌, Option, none, some, List, [], ◌∷◌, length, ltb, if◌then◌else◌, u64,
}
use nanomatch.Wire.{bswap, drop}
use nanomatch.Itch.Protocol.{ItchCommonHeader}
use nanomatch.Itch.Protocol.Read.{read_header}
use nanomatch.Itch.Protocol.Sizes.{sizeof_header}
use nanomatch.Itch.Decode.{decode}
use nanomatch.Itch.Feed.{Config, Feed, Outcome, done, read_past_end, out_of_rounds, ◌>>=◌, handle}
use nanomatch.Itch.Feed

-- `if (++message_count % 500000 == 0)` yields, which changes nothing.
abbrev pub count_message : Feed → Feed
count_message f = record f { message_count = u64 (f.message_count + 1) }

abbrev pub on_header :
    Option (ItchCommonHeader × List ℕ) → (ItchCommonHeader → List ℕ → Outcome Feed) → Outcome Feed
on_header none f = read_past_end
on_header (some (header, payload)) f = f header payload

-- The loop after the header was read; `next` is the rest of the loop.
abbrev pub take_record :
    Config
    → (bytes : List ℕ) → Feed
    → (next : List ℕ → Feed → Outcome Feed) → ItchCommonHeader
    → (payload : List ℕ) → Outcome Feed
take_record cfg bytes f next header payload =
    let packet_length = bswap 2 header.packet_length in
    let handled = handle cfg (decode header.message_type payload) f >>= λ g.
    next (drop (2 + packet_length) bytes) (count_message g) in
    if ltb packet_length 1
    then done f
    else if ltb (length bytes) (2 + packet_length)
    then done f
    else handled

-- `bytes` are those from `cursor` to `end_ptr`.
unfoldable pub parse_loop : Config → ℕ → List ℕ → Feed → Outcome Feed
parse_loop cfg zero bytes f = out_of_rounds
parse_loop cfg (suc n) bytes f =
    let next = parse_loop cfg n in
    if ltb 0 (length bytes)
    then (if ltb (length bytes) sizeof_header
        then done f
        else on_header (read_header bytes) (take_record cfg bytes f next))
    else done f

-- A round takes three bytes at least.
abbrev pub parse_rounds : List ℕ → ℕ
parse_rounds bytes = suc (length bytes)

unfoldable pub parse_itch_file : Config → List ℕ → (ℕ → ℕ) → Outcome Feed
parse_itch_file cfg bytes clock = parse_loop cfg (parse_rounds bytes) bytes (Feed.new clock)
