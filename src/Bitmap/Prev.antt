-- ===== src/Bitmap/Prev.antt =====
-- `find_prev_set_bit` of src/core/OrderBook.cpp finds the last active level.
use nanomatch.Base.{
  ℕ, zero, suc, ◌+◌, ◌-◌, ◌*◌, ◌/◌, ◌%◌, ◌^◌, ◌≤◌, ◌<◌, bit_and, bit_or, ◌≡◌, refl, ◌≢◌, inl, inr,
  ◌==◌, if◌then◌else◌, leb, update, u32, not64, ◌<<<◌, ◌>>>◌, arith, Bool-cases, eq_of_==, ne_of_==,
}
use nanomatch.Bits.{
  bit_up_to, bit-zero_word, count_leading_zeros, count_leading_zeros-IsHighest, bit-bit_and,
  bit-le-one, bit_and-mask, bit_and-le,
}
use nanomatch.Bitmap.{Bitmap, is_set, prev_words, find_prev_set_bit}
use nanomatch.Bitmap.Scan.{IsWords, IsPrev, found, missing, place, bit_of}

module _ (m : Bitmap) (words : IsWords m) where
  IsPrev-hit :
      (word bits : ℕ)
      → bits < 2 ^ 64
      → bits ≢ 0
      → word < 2 ^ 26
      → IsPrev
          (update m word bits)
          (word * 64 + 63)
          (bit_or (u32 (word <<< 6)) (63 - count_leading_zeros 64 bits))
  IsPrev-hit word bits small ne fits =
      let high = count_leading_zeros-IsHighest 64 bits small ne in
      rw (place word (63 - count_leading_zeros 64 bits) high.inside fits) (
        found (omega (arith, high.inside))
          (rw (bit_of (update m word bits) word _ high.inside) (ground (arith, high.here)))
          (λ j p q. ground (arith, high.above (j % 64))))

  IsPrev-miss :
      (word bits r : ℕ)
      → bits ≡ 0
      → IsPrev (update m word (m word)) (word * 64 + 63) r
      → IsPrev (update m (suc word) bits) (suc word * 64 + 63) r
  IsPrev-miss word bits r empty (found p here above) =
      found (omega arith) (ground (arith, here))
        (λ j a b. ground (arith, above j, bit-zero_word (j % 64)))
  IsPrev-miss word bits r empty (missing e above) =
      missing e (λ j b. ground (arith, above j, bit-zero_word (j % 64)))

  prev_words-IsPrev :
      (word bits : ℕ)
      → bits < 2 ^ 64
      → word < 2 ^ 26
      → IsPrev (update m word bits) (word * 64 + 63) (prev_words m word bits)
  unfolding prev_words
  prev_words-IsPrev zero bits small fits = elim (Bool-cases (bits == 0)) [
    | inl empty ↦
        rw empty
          (missing refl (λ j b. ground (arith, eq_of_== bits 0 empty, bit-zero_word (j % 64))))
    | inr some_bit ↦ rw some_bit (IsPrev-hit zero bits small (ne_of_== _ _ some_bit) fits)
  ]
  prev_words-IsPrev (suc word) bits small fits = elim (Bool-cases (bits == 0)) [
    | inl empty ↦ rw empty (
        IsPrev-miss word bits _ (eq_of_== _ _ empty)
          (prev_words-IsPrev word (m word) (words word) (omega arith)))
    | inr some_bit ↦ rw some_bit (IsPrev-hit (suc word) bits small (ne_of_== _ _ some_bit) fits)
  ]

  -- The first word is masked: up to the start of the scan it is the map's.
  masked :
      (start j : ℕ)
      → j ≤ start / 64 * 64 + 63
      → is_set
          (update m (start >>> 6) (bit_and (m (start >>> 6)) (not64 0 >>> (63 - bit_and start 63))))
          j
        ≡ (if leb j start then is_set m j else 0)
  masked start j h = ground (
    arith,
    bit_and-mask 6 start,
    bit-bit_and (j % 64) (m (start / 64)) (not64 0 >>> (63 - bit_and start 63)),
    bit_up_to (start % 64) (j % 64),
    bit-le-one (j % 64) (m (start / 64)),
  )

  unmask :
      (start r : ℕ)
      → IsPrev
          (update m (start >>> 6) (bit_and (m (start >>> 6)) (not64 0 >>> (63 - bit_and start 63))))
          (start / 64 * 64 + 63)
          r
      → IsPrev m start r
  unmask start r (found p here above) =
      found (ground (arith, masked start r p, here)) (ground (arith, masked start r p, here))
        (λ j a b. ground (arith, masked start j, above j))
  unmask start r (missing e above) = missing e (λ j b. ground (arith, masked start j, above j))

  -- On words of 64 bits, with the start below 2^32, the scan returns the last active place up to
  -- the start, or `UINT32_MAX` when there is none.
  pub find_prev_set_bit-IsPrev :
      (start : ℕ) → start < 2 ^ 32 → IsPrev m start (find_prev_set_bit m start)
  unfolding find_prev_set_bit
  find_prev_set_bit-IsPrev start fits = unmask start _ (
      prev_words-IsPrev (start / 64) _
        (omega (arith, words (start / 64), bit_and-le (m (start / 64)) (m (start / 64))))
        (omega arith))
