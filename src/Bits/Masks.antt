-- ===== src/Bits/Masks.antt =====
-- The masks that src/core/OrderBook.cpp builds from a place below 64, by evaluation at all places, and
-- the lowest and the highest bit of a word.
use native.Mathlib.Nat.{pow-suc, pow-succ', div-lt_iff_lt-mul, one-le-pow}
use nanomatch.Base.{
  ℕ, zero, suc, ◌-◌, ◌/◌, ◌%◌, ◌^◌, ◌<◌, ◌≡◌, refl, ◌≢◌, Bool, true, ◌&&◌, ◌==◌, leb, if◌then◌else◌,
  eq_of_==, ne_of_==, Bool-cases, inl, inr, ◌∙◌, not64, u64, ◌<<<◌, ◌>>>◌, arith,
}
use nanomatch.Bits.Digits.{bit, bit-zero, bit-suc, bit-le-one}

-- `__builtin_ctzll`: the zero bits below the lowest one, of a word of `n` bits.
unfoldable pub count_trailing_zeros : ℕ → ℕ → ℕ
count_trailing_zeros zero w = 0
count_trailing_zeros (suc n) w =
    let above = count_trailing_zeros n (w / 2) in if w % 2 == 1 then 0 else suc above

-- `__builtin_clzll`: the zero bits above the highest one, of a word of `n` bits.
unfoldable pub count_leading_zeros : ℕ → ℕ → ℕ
count_leading_zeros zero w = 0
count_leading_zeros (suc n) w =
    let below = count_leading_zeros n w in if bit n w == 1 then 0 else suc below

every_below : ℕ → (ℕ → Bool) → Bool
every_below zero p = true
every_below (suc n) p = p n && every_below n p

every_below-true : (n : ℕ) (p : ℕ → Bool) (i : ℕ) → every_below n p ≡ true → i < n → p i ≡ true
unfolding every_below
every_below-true zero p i h lt = absurd (omega arith)
every_below-true (suc n) p i h lt = ground (arith, every_below-true n p i)

-- A statement about two places below 64, checked at all of them.
table :
    (f g : ℕ → ℕ → ℕ)
    → every_below 64 (λ k. every_below 64 (λ j. f k j == g k j)) ≡ true
    → (k j : ℕ) → k < 64
    → j < 64
    → f k j ≡ g k j
table f g h k j hk hj = eq_of_== _ _ (every_below-true 64 _ j (every_below-true 64 _ k h hk) hj)

-- `1ull << k`
pub bit_one : (k j : ℕ) → k < 64 → j < 64 → bit j (1 <<< k) ≡ (if k == j then 1 else 0)
unfolding bit every_below
bit_one = table (λ k j. bit j (1 <<< k)) (λ k j. if k == j then 1 else 0) refl

-- `~(1ull << k)`
pub bit_not_one : (k j : ℕ) → k < 64 → j < 64 → bit j (not64 (1 <<< k)) ≡ (if k == j then 0 else 1)
unfolding bit every_below
bit_not_one = table (λ k j. bit j (not64 (1 <<< k))) (λ k j. if k == j then 0 else 1) refl

-- `~uint64_t{0} >> (63 - k)` and `~uint64_t{0} << k`
pub bit_up_to :
    (k j : ℕ) → k < 64 → j < 64 → bit j (not64 0 >>> (63 - k)) ≡ (if leb j k then 1 else 0)
unfolding bit every_below
bit_up_to = table (λ k j. bit j (not64 0 >>> (63 - k))) (λ k j. if leb j k then 1 else 0) refl

pub bit_from :
    (k j : ℕ) → k < 64 → j < 64 → bit j (u64 (not64 0 <<< k)) ≡ (if leb k j then 1 else 0)
unfolding bit every_below
bit_from = table (λ k j. bit j (u64 (not64 0 <<< k))) (λ k j. if leb k j then 1 else 0) refl

pub bit-zero_word : (j : ℕ) → bit j 0 ≡ 0
bit-zero_word zero = bit-zero 0
bit-zero_word (suc j) = rw (bit-suc j 0) (bit-zero_word j)

-- The lowest bit of a word that is not zero.
pub record IsLowest (n w r : ℕ) : Type 0 where
  pub inside : r < n
  pub here : bit r w ≡ 1
  pub below : (j : ℕ) → j < r → bit j w ≡ 0

pub count_trailing_zeros-IsLowest :
    (n w : ℕ) → w < 2 ^ n → w ≢ 0 → IsLowest n w (count_trailing_zeros n w)
unfolding count_trailing_zeros
count_trailing_zeros-IsLowest zero w small ne = absurd (ne (omega arith))
count_trailing_zeros-IsLowest (suc n) w small ne = elim (Bool-cases (w % 2 == 1)) [
  | inl odd ↦ rw odd (record {
    inside = omega arith;
    here = ground (arith, bit-zero w);
    below = λ j h. absurd (omega arith);
  })
  | inr even ↦
      let rest =
        count_trailing_zeros-IsLowest n (w / 2) (omega (arith, pow-suc 2 n)) (ground arith) in
      rw even (record {
        inside = omega (arith, rest.inside);
        here = rw bit-suc rest.here;
        below = λ j h. lower j (ground arith) (λ i. rest.below i) h;
      })
]
  where
    lower :
        (j : ℕ)
        → w % 2 ≡ 0
        → ((i : ℕ) → i < count_trailing_zeros n (w / 2) → bit i (w / 2) ≡ 0)
        → j < suc (count_trailing_zeros n (w / 2))
        → bit j w ≡ 0
    lower zero e below h = bit-zero w ∙ e
    lower (suc i) e below h = bit-suc i w ∙ below i (omega arith)

small_of_clear : (n w : ℕ) → w < 2 ^ suc n → bit n w ≢ 1 → w < 2 ^ n
unfolding bit
small_of_clear n w small clear =
    let below : w / 2 ^ n < 2 =
      (div-lt_iff_lt-mul (one-le-pow n 2 (omega arith))).1 (omega (arith, pow-succ' 2 n)) in
    let none : w / 2 ^ n < 1 = omega arith in
    omega (arith, (div-lt_iff_lt-mul (one-le-pow n 2 (omega arith))).0 none)

pub record IsHighest (n w r : ℕ) : Type 0 where
  pub inside : r < n
  pub here : bit r w ≡ 1
  pub above : (j : ℕ) → r < j → j < n → bit j w ≡ 0

pub count_leading_zeros-IsHighest :
    (n w : ℕ) → w < 2 ^ n → w ≢ 0 → IsHighest n w (n - 1 - count_leading_zeros n w)
unfolding count_leading_zeros
count_leading_zeros-IsHighest zero w small ne = absurd (ne (omega arith))
count_leading_zeros-IsHighest (suc n) w small ne = elim (Bool-cases (bit n w == 1)) [
  | inl top ↦
      rw (top, whole n)
        (record {
          inside = omega arith;
          here = eq_of_== (bit n w) 1 top;
          above = λ j h k. absurd (omega arith);
        })
  | inr clear ↦
      let rest =
        count_leading_zeros-IsHighest n w (small_of_clear n w small (ne_of_== _ _ clear)) ne in
      rw (clear, shift n (count_leading_zeros n w))
        (record {
          inside = omega (arith, rest.inside);
          here = rest.here;
          above = λ j h k. ground (arith, rest.above j, ne_of_== (bit n w) 1, bit-le-one n w);
        })
]
  where
    whole : (n : ℕ) → suc n - 1 - 0 ≡ n
    whole n = omega arith

    shift : (n c : ℕ) → suc n - 1 - suc c ≡ n - 1 - c
    shift n c = omega arith
