-- ===== src/Bitmap.antt =====
-- The bitmaps of active price levels (src/core/OrderBook.hpp, src/core/OrderBook.cpp): one bit for a
-- level, 64 to a word. The vector of words is a function of the index.
pub mod Scan
pub mod Next
pub mod Prev
use nanomatch.Base.{
  ℕ, zero, suc, ◌-◌, ◌/◌, ◌%◌, ◌^◌, bit_and, bit_or, ◌==◌, if◌then◌else◌, update, u32, u64, not64,
  uint32_max, ◌<<<◌, ◌>>>◌,
}
use nanomatch.Bits.{bit, count_trailing_zeros, count_leading_zeros}

abbrev pub Bitmap : Type 0
Bitmap = ℕ → ℕ

-- Bit `i` of the map: the level at relative price `i` is active.
abbrev pub is_set : Bitmap → ℕ → ℕ
is_set m i = bit (i % 64) (m (i / 64))

-- `bitmap[i >> 6] |= 1ull << (i & 63)`
unfoldable pub set_bit : Bitmap → ℕ → Bitmap
set_bit m i = update m (i >>> 6) (bit_or (m (i >>> 6)) (1 <<< bit_and i 63))

-- `bitmap[i >> 6] &= ~(1ull << (i & 63))`
unfoldable pub clear_bit : Bitmap → ℕ → Bitmap
clear_bit m i = update m (i >>> 6) (bit_and (m (i >>> 6)) (not64 (1 <<< bit_and i 63)))

-- The loop of `find_prev_set_bit`, which goes down from `word`.
prev_words : Bitmap → (word bits : ℕ) → ℕ
prev_words m zero bits =
    if bits == 0 then uint32_max else bit_or (u32 (0 <<< 6)) (63 - count_leading_zeros 64 bits)
prev_words m (suc word) bits =
    let rest = prev_words m word (m word) in
    if bits == 0 then rest else bit_or (u32 (suc word <<< 6)) (63 - count_leading_zeros 64 bits)

unfoldable pub find_prev_set_bit : Bitmap → ℕ → ℕ
unfolding prev_words
find_prev_set_bit m start =
    let word = start >>> 6 in
    let mask = not64 0 >>> (63 - bit_and start 63) in prev_words m word (bit_and (m word) mask)

-- The loop of `find_next_set_bit`, which goes up from `word` with `left` words behind it: the test
-- `word == last_word` is that none is left.
next_words : Bitmap → (left word bits : ℕ) → ℕ
next_words m zero word bits =
    if bits == 0 then uint32_max else bit_or (u32 (word <<< 6)) (count_trailing_zeros 64 bits)
next_words m (suc left) word bits =
    let rest = next_words m left (suc word) (m (suc word)) in
    if bits == 0 then rest else bit_or (u32 (word <<< 6)) (count_trailing_zeros 64 bits)

-- `size` is `bitmap.size()`.
unfoldable pub find_next_set_bit : Bitmap → (size start : ℕ) → ℕ
unfolding next_words
find_next_set_bit m size start =
    let word = start >>> 6 in
    let mask = u64 (not64 0 <<< bit_and start 63) in
    next_words m (size - 1 - word) word (bit_and (m word) mask)
