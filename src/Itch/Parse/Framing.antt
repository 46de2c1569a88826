-- ===== src/Itch/Parse/Framing.antt =====
-- A file of packets, as src/ingestion/ItchParser.cpp reads it.
use nanomatch.Base.{
  ℕ, zero, suc, ◌+◌, ◌<◌, ◌≡◌, refl, ◌∙◌, ap, true, false, List, [], ◌∷◌, ◌++◌, length,
  length-append, ltb, arith, some, All,
}
use mathlib.Core.Path.{fun_ext}
use mathlib.Core.List.{append_assoc}
use nanomatch.Wire.{bswap, drop}
use nanomatch.Wire.Length.{drop-append}
use nanomatch.Wire.Order.{
  wire, loaded, pure-Reads, bind-Reads, word-Reads, bswap-loaded, length-wire, loaded_byte,
}
use nanomatch.Itch.Protocol.{ItchCommonHeader}
use nanomatch.Itch.Protocol.Read.{read_header}
use nanomatch.Itch.Protocol.Sizes.{sizeof_header}
use nanomatch.Itch.Decode.{message}
use nanomatch.Itch.Decode.Sent.{
  Sent, Fits, body, type_of, meaning, decode-body, sent_add_order, sent_add_order_attributed,
  sent_order_executed, sent_order_executed_with_price, sent_order_cancel, sent_order_delete,
  sent_order_replace,
}
use nanomatch.Itch.Feed.{Config, Feed, Outcome, ◌>>=◌, handle, done}
use nanomatch.Itch.Feed
use nanomatch.Itch.Parse.{
  count_message, on_header, take_record, parse_loop, parse_rounds, parse_itch_file,
}

-- The length of what follows, the type, and the message.
abbrev pub head_of : Sent → List ℕ
head_of s = wire 2 (suc (length (body s))) ++ (wire 1 (type_of s) ++ [])

abbrev pub packet : Sent → List ℕ
packet s = head_of s ++ body s

abbrev pub packets : List Sent → List ℕ
packets [] = []
packets (s ∷ ss) = packet s ++ packets ss

-- The messages, one after the other.
abbrev pub handle_all : Config → List Sent → Feed → Outcome Feed
handle_all cfg [] f = done f
handle_all cfg (s ∷ ss) f =
    handle cfg (message (meaning s)) f >>= λ g. handle_all cfg ss (count_message g)

length-body : (s : Sent) → Fits s → length (body s) < 256
length-body (sent_add_order locate tracking stamp id side shares stock price)
      (h0, h1, h2, h3, h4, h5, h6, h7) =
    simp (length-append, length-wire) (omega (arith, h2, h6))
length-body (sent_add_order_attributed locate tracking stamp id side shares stock price attribution)
      (h0, h1, h2, h3, h4, h5, h6, h7, h8) =
    simp (length-append, length-wire) (omega (arith, h2, h6, h8))
length-body (sent_order_executed locate tracking stamp id shares match) h =
    simp (length-append, length-wire) (omega (arith, h.2))
length-body (sent_order_executed_with_price locate tracking stamp id shares match printable at) h =
    simp (length-append, length-wire) (omega (arith, h.2))
length-body (sent_order_cancel locate tracking stamp id shares) h =
    simp (length-append, length-wire) (omega (arith, h.2))
length-body (sent_order_delete locate tracking stamp id) h =
    simp (length-append, length-wire) (omega (arith, h.2))
length-body (sent_order_replace locate tracking stamp original new shares price) h =
    simp (length-append, length-wire) (omega (arith, h.2))

type_of-lt : (s : Sent) → type_of s < 256
type_of-lt (sent_add_order _ _ _ _ _ _ _ _) = omega arith
type_of-lt (sent_add_order_attributed _ _ _ _ _ _ _ _ _) = omega arith
type_of-lt (sent_order_executed _ _ _ _ _ _) = omega arith
type_of-lt (sent_order_executed_with_price _ _ _ _ _ _ _ _) = omega arith
type_of-lt (sent_order_cancel _ _ _ _ _) = omega arith
type_of-lt (sent_order_delete _ _ _ _) = omega arith
type_of-lt (sent_order_replace _ _ _ _ _ _ _) = omega arith

abbrev header_of : Sent → ItchCommonHeader
header_of s = record {
  packet_length = loaded 2 (suc (length (body s)));
  message_type = loaded 1 (type_of s);
}

read_header-packet :
    (s : Sent) (rest : List ℕ) → read_header (packet s ++ rest) ≡ some (header_of s, body s ++ rest)
unfolding read_header
read_header-packet s rest =
    let r =
      bind-Reads _ (word-Reads 2 (suc (length (body s))))
        (bind-Reads _ (word-Reads 1 (type_of s)) (pure-Reads _)) in
    ap read_header (append_assoc (head_of s) (body s) rest) ∙ r.back (body s ++ rest)

length-packet : (s : Sent) → length (packet s) ≡ 3 + length (body s)
length-packet s = simp (length-append, length-wire) (omega arith)

take_record-packet :
    (cfg : Config) (s : Sent) (rest : List ℕ) (f : Feed) (next : List ℕ → Feed → Outcome Feed)
    → Fits s
    → take_record cfg (packet s ++ rest) f next (header_of s) (body s ++ rest)
      ≡ (handle cfg (message (meaning s)) f >>= λ g. next rest (count_message g))
take_record-packet cfg s rest f next fits =
    let len : bswap 2 (loaded 2 (suc (length (body s)))) ≡ suc (length (body s)) =
      bswap-loaded 2 (suc (length (body s))) (omega (arith, length-body s fits)) in
    let size = length-packet s in
    let whole = length-append (packet s) rest in
    let long : ltb (suc (length (body s))) 1 ≡ false = ground arith in
    let inside : ltb (length (packet s ++ rest)) (2 + suc (length (body s))) ≡ false =
      ground (arith, size, whole) in
    let behind : drop (2 + suc (length (body s))) (packet s ++ rest) ≡ rest =
      ap (λ k. drop k (packet s ++ rest)) (omega (arith, size)) ∙ drop-append (packet s) rest in
    let kind : loaded 1 (type_of s) ≡ type_of s = loaded_byte (type_of s) (type_of-lt s) in
    rw (len, long, inside, behind, kind)
      (ap (λ d. handle cfg d f >>= λ g. next rest (count_message g)) (decode-body s rest fits))

-- A round reads a packet and goes on behind it.
parse_loop-packet :
    (cfg : Config) (n : ℕ) (s : Sent) (rest : List ℕ) (f : Feed)
    → Fits s
    → parse_loop cfg (suc n) (packet s ++ rest) f
      ≡ (handle cfg (message (meaning s)) f >>= λ g. parse_loop cfg n rest (count_message g))
unfolding parse_loop
parse_loop-packet cfg n s rest f fits =
    let size = length-packet s in
    let whole = length-append (packet s) rest in
    let more : ltb 0 (length (packet s ++ rest)) ≡ true = ground (arith, size, whole) in
    let has_header : ltb (length (packet s ++ rest)) sizeof_header ≡ false =
      ground (arith, size, whole) in
    rw (more, has_header)
      (ap (λ r. on_header r (take_record cfg (packet s ++ rest) f (parse_loop cfg n)))
          (read_header-packet s rest)
        ∙ take_record-packet cfg s rest f (parse_loop cfg n) fits)

pub parse_loop-packets :
    (cfg : Config) (n : ℕ) (ss : List Sent) (f : Feed)
    → length (packets ss) < n
    → All Fits ss
    → parse_loop cfg n (packets ss) f ≡ handle_all cfg ss f
unfolding parse_loop
parse_loop-packets cfg zero ss f enough fits = absurd (omega (arith, enough))
parse_loop-packets cfg (suc n) [] f enough fits = refl
parse_loop-packets cfg (suc n) (s ∷ ss) f enough fits =
    parse_loop-packet cfg n s (packets ss) f fits.0
    ∙ ap (λ k. handle cfg (message (meaning s)) f >>= k)
        (fun_ext (λ g.
          parse_loop-packets cfg n ss (count_message g)
            (omega (arith, enough, length-packet s, length-append (packet s) (packets ss))) fits.1))

-- On a file that has the packets of a list of messages of the seven types 'A', 'F', 'E', 'C', 'X',
-- 'D' and 'U', written field by field with the highest byte first, where each field fits its width,
-- `parse_itch_file` is the same as handling these messages one after the other.
pub parse_itch_file-packets :
    (cfg : Config) (ss : List Sent) (clock : ℕ → ℕ)
    → All Fits ss
    → parse_itch_file cfg (packets ss) clock ≡ handle_all cfg ss (Feed.new clock)
unfolding parse_itch_file
parse_itch_file-packets cfg ss clock fits =
    parse_loop-packets cfg (parse_rounds (packets ss)) ss (Feed.new clock) (omega arith) fits
