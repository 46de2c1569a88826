-- ===== src/Bits.antt =====
-- The bits of a machine word, and what `&`, `|`, `~` and the shifts of a 64-bit word do to them.
mod Digits
mod Masks
unfoldable pub use Masks.{count_trailing_zeros, count_leading_zeros}
pub use Masks.{
  bit_one, bit_not_one, bit_up_to, bit_from, bit-zero_word, IsLowest, IsHighest,
  count_trailing_zeros-IsLowest, count_leading_zeros-IsHighest,
}
unfoldable pub use Digits.{bit}
pub use Digits.{
  bit-zero, bit-suc, bit-le-one, bit-bit_or, bit-bit_and, bit_and-mask, bit_or-lt, bit_and-le,
  bit_or-shifted,
}
