-- ===== src/Bitmap/Next.antt =====
-- `find_next_set_bit` of src/core/OrderBook.cpp finds the first active level.
use nanomatch.Base.{
  ℕ, zero, suc, ◌+◌, ◌-◌, ◌*◌, ◌/◌, ◌%◌, ◌^◌, ◌≤◌, ◌<◌, bit_and, bit_or, ◌≡◌, ◌≢◌, inl, inr, refl,
  ◌==◌, if◌then◌else◌, leb, update, u32, u64, not64, ◌<<<◌, ◌>>>◌, arith, Bool-cases, eq_of_==,
  ne_of_==,
}
use nanomatch.Bits.{
  bit_from, bit-zero_word, count_trailing_zeros, count_trailing_zeros-IsLowest, bit-bit_and,
  bit-le-one, bit_and-mask, bit_and-le,
}
use nanomatch.Bitmap.{Bitmap, is_set, next_words, find_next_set_bit}
use nanomatch.Bitmap.Scan.{IsWords, IsNext, found, missing, place, bit_of}

module _ (m : Bitmap) (words : IsWords m) where
  IsNext-hit :
      (word bits hi : ℕ)
      → bits < 2 ^ 64
      → bits ≢ 0
      → word * 64 + 64 ≤ hi
      → hi ≤ 2 ^ 32
      → IsNext
          (update m word bits)
          (word * 64)
          hi
          (bit_or (u32 (word <<< 6)) (count_trailing_zeros 64 bits))
  IsNext-hit word bits hi small ne inside fits =
      let low = count_trailing_zeros-IsLowest 64 bits small ne in
      rw (place word (count_trailing_zeros 64 bits) low.inside (omega arith)) (
        found (omega arith) (omega (arith, low.inside))
          (rw (bit_of (update m word bits) word _ low.inside) (ground (arith, low.here)))
          (λ j p q. ground (arith, low.below (j % 64))))

  -- An empty word and the scan of the words behind it.
  IsNext-miss :
      (word bits hi r : ℕ)
      → bits ≡ 0
      → IsNext (update m (suc word) (m (suc word))) (suc word * 64) hi r
      → IsNext (update m word bits) (word * 64) hi r
  IsNext-miss word bits hi r empty (found p q here below) =
      found (omega arith) q (ground (arith, here))
        (λ j a b. ground (arith, below j, bit-zero_word (j % 64)))
  IsNext-miss word bits hi r empty (missing e below) =
      missing e (λ j a b. ground (arith, below j, bit-zero_word (j % 64)))

  next_words-IsNext :
      (left word bits hi : ℕ)
      → bits < 2 ^ 64
      → hi ≡ (word + left + 1) * 64
      → hi ≤ 2 ^ 32
      → IsNext (update m word bits) (word * 64) hi (next_words m left word bits)
  unfolding next_words
  next_words-IsNext zero word bits hi small e fits = elim (Bool-cases (bits == 0)) [
    | inl empty ↦
        rw empty
          (missing refl (λ j a b. ground (arith, eq_of_== bits 0 empty, bit-zero_word (j % 64))))
    | inr some_bit ↦
        rw some_bit (IsNext-hit word bits hi small (ne_of_== _ _ some_bit) (omega arith) fits)
  ]
  next_words-IsNext (suc left) word bits hi small e fits = elim (Bool-cases (bits == 0)) [
    | inl empty ↦ rw empty (
        IsNext-miss word bits hi _ (eq_of_== _ _ empty) (
          next_words-IsNext left (suc word) (m (suc word)) hi (words (suc word)) (omega arith)
            fits))
    | inr some_bit ↦
        rw some_bit (IsNext-hit word bits hi small (ne_of_== _ _ some_bit) (omega arith) fits)
  ]

  -- The first word is masked: from the start of the scan on it is the map's.
  masked :
      (start j : ℕ)
      → start / 64 * 64 ≤ j
      → is_set
          (update m (start >>> 6) (bit_and (m (start >>> 6)) (u64 (not64 0 <<< bit_and start 63))))
          j
        ≡ (if leb start j then is_set m j else 0)
  masked start j h = ground (
    arith,
    bit_and-mask 6 start,
    bit-bit_and (j % 64) (m (start / 64)) (u64 (not64 0 <<< bit_and start 63)),
    bit_from (start % 64) (j % 64),
    bit-le-one (j % 64) (m (start / 64)),
  )

  unmask :
      (start hi r : ℕ)
      → IsNext
          (update m (start >>> 6) (bit_and (m (start >>> 6)) (u64 (not64 0 <<< bit_and start 63))))
          (start / 64 * 64)
          hi
          r
      → IsNext m start hi r
  unmask start hi r (found p q here below) =
      found (ground (arith, masked start r p, here)) q (ground (arith, masked start r p, here))
        (λ j a b. ground (arith, masked start j, below j))
  unmask start hi r (missing e below) = missing e (λ j a b. ground (arith, masked start j, below j))

  -- On words of 64 bits, with the start inside the bitmap and the bitmap no longer than 2^32 bits,
  -- the scan returns the first active place from the start on, or `UINT32_MAX` when there is none.
  pub find_next_set_bit-IsNext :
      (size start : ℕ)
      → start < size * 64
      → size * 64 ≤ 2 ^ 32
      → IsNext m start (size * 64) (find_next_set_bit m size start)
  unfolding find_next_set_bit
  find_next_set_bit-IsNext size start inside fits = unmask start (size * 64) _ (
      next_words-IsNext (size - 1 - start / 64) (start / 64) _ (size * 64)
        (omega (arith, words (start / 64), bit_and-le (m (start / 64)) (m (start / 64))))
        (omega arith) fits)
