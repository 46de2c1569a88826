-- ===== src/Tests/Itch.antt =====
-- Files of packets for src/ingestion/ItchParser.cpp, and the theorems on the parser at them.
use nanomatch.Base.{ℕ, ◌≡◌, refl, Option, none, some, List, [], ◌∷◌, ◌++◌, All, arith}
use mathlib.Core.Option.{some_inj}
use nanomatch.Outcome.{Outcome, done, ◌>>=◌, Safe}
use nanomatch.Orders.{sell}
use nanomatch.Wire.{word, chars, bswap}
use nanomatch.Wire
use nanomatch.Wire.Order.{wire}
use nanomatch.Itch.Protocol.Read.{
  read_timestamp, read_header, read_add_order, read_add_order_attributed, read_order_executed,
  read_order_executed_with_price, read_order_cancel, read_order_delete, read_order_replace,
}
use nanomatch.Itch.Decode.{decode, Decoded, add}
use nanomatch.Itch.Decode.Range.{InRange, decode-InRange}
use nanomatch.Itch.Decode.Sent.{Sent, Fits, sent_add_order, sent_order_executed, sent_order_replace}
use nanomatch.Itch.Feed.{Config, Feed, add_order, execute, cancel, delete, replace, handle}
use nanomatch.Itch.Feed
use nanomatch.Itch.Feed.Owners.{Owned}
use nanomatch.Itch.Feed.Untouched.{Ends, handle-SameBook}
use nanomatch.Itch.Parse.{parse_loop, parse_itch_file}
use nanomatch.Itch.Parse.Safety.{parse_itch_file-Safe}
use nanomatch.Itch.Parse.Framing.{packets, handle_all, parse_itch_file-packets}
use nanomatch.Tests.{program}

-- The definitions that the runs of the parser use.
parser : Unit {0}
unfolding word chars bswap Wire.◌>>=◌ wire read_timestamp read_header read_add_order
    read_add_order_attributed read_order_executed read_order_executed_with_price read_order_cancel
    read_order_delete read_order_replace decode add_order execute cancel delete replace parse_loop
    parse_itch_file program
parser = tt

abbrev small : Config
small = record { allowed_locates = 7 ∷ []; price_band = 100; max_orders = 8; clocks = λ _ n. n }

abbrev stamp : List ℕ
stamp = 0 ∷ 0 ∷ 0 ∷ 0 ∷ 1 ∷ 2 ∷ []

abbrev ticker : List ℕ
ticker = b'A' ∷ b'A' ∷ b'P' ∷ b'L' ∷ b' ' ∷ b' ' ∷ b' ' ∷ b' ' ∷ []

-- A sell comes, a part of it is executed, and what is left is replaced.
abbrev three : List Sent
three =
    sent_add_order 7 0 stamp 101 b'S' 10 ticker 500
    ∷ sent_order_executed 7 0 stamp 101 4 1
    ∷ sent_order_replace 7 0 stamp 101 102 6 501
    ∷ []

three-Fits : All Fits three
three-Fits = omega arith

parse_itch_file-packets_example :
    parse_itch_file small (packets three) (λ n. n) ≡ handle_all small three (Feed.new (λ n. n))
parse_itch_file-packets_example = parse_itch_file-packets small three (λ n. n) three-Fits

parse_itch_file-Safe_example :
    Safe (Owned small) (parse_itch_file small (packets three ++ (0 ∷ 9 ∷ b'A' ∷ 7 ∷ [])) (λ n. n))
parse_itch_file-Safe_example =
    parse_itch_file-Safe small (packets three ++ (0 ∷ 9 ∷ b'A' ∷ 7 ∷ [])) (λ n. n)

decode-InRange_example : InRange (decode b'D' (1 ∷ 2 ∷ 3 ∷ []))
decode-InRange_example = decode-InRange b'D' (1 ∷ 2 ∷ 3 ∷ [])

handle-SameBook_example :
    Ends
      (λ g. g.market_books 8 ≡ none)
      (handle small (Decoded.message (add 7 101 sell 500 10)) (Feed.new (λ n. n)))
handle-SameBook_example =
    handle-SameBook 8 small (add 7 101 sell 500 10) (Feed.new (λ n. n))
      (λ e. omega (arith, some_inj.0 e))

-- The counters after the three messages.
abbrev counters : Outcome (ℕ × ℕ × ℕ × ℕ × Option ℕ × Option ℕ)
counters = parse_itch_file small (packets three) (λ n. n) >>= λ f. done (
  f.tracked_adds,
  f.successful_inserts,
  f.execute_calls,
  f.execute_hits,
  f.ref_owner 101,
  f.ref_owner 102,
)

three_messages : counters ≡ done (1, 1, 1, 0, none, some 7)
unfolding parser
three_messages = refl
