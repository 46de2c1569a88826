-- ===== src/Bitmap/Scan.antt =====
-- What setting, clearing and scanning a bitmap does, bit by bit.
use native.Mathlib.Nat.{pow-le-pow_right}
use nanomatch.Base.{
  ℕ, ◌+◌, ◌*◌, ◌/◌, ◌%◌, ◌^◌, ◌≤◌, ◌<◌, bit_and, bit_or, ◌≡◌, ◌==◌, if◌then◌else◌, u32, not64,
  uint32_max, ◌<<<◌, arith,
}
use nanomatch.Bits.{
  bit, bit_one, bit_not_one, bit-le-one, bit-bit_or, bit-bit_and, bit_and-mask, bit_or-lt,
  bit_and-le, bit_or-shifted,
}
use nanomatch.Bitmap.{Bitmap, is_set, set_bit, clear_bit}

-- Every word has 64 bits.
abbrev pub IsWords : Bitmap → Type 0
IsWords m = (k : ℕ) → m k < 2 ^ 64

-- After `set_bit` of a place exactly that place is active besides the ones that were.
pub is_set-set_bit :
    (m : Bitmap) (i j : ℕ) → is_set (set_bit m i) j ≡ (if i == j then 1 else is_set m j)
unfolding set_bit
is_set-set_bit m i j = ground (
  arith,
  bit_and-mask 6 i,
  bit-bit_or (j % 64) (m (i / 64)) (1 <<< bit_and i 63),
  bit_one (i % 64) (j % 64),
  bit-le-one (j % 64) (m (j / 64)),
)

-- After `clear_bit` of a place that place is not active, and every other place is what it was.
pub is_set-clear_bit :
    (m : Bitmap) (i j : ℕ) → is_set (clear_bit m i) j ≡ (if i == j then 0 else is_set m j)
unfolding clear_bit
is_set-clear_bit m i j = ground (
  arith,
  bit_and-mask 6 i,
  bit-bit_and (j % 64) (m (i / 64)) (not64 (1 <<< bit_and i 63)),
  bit_not_one (i % 64) (j % 64),
  bit-le-one (j % 64) (m (j / 64)),
)

one_shift-lt : (k : ℕ) → k < 64 → 1 <<< k < 2 ^ 64
one_shift-lt k h =
    omega (arith, pow-le-pow_right {n = 2} (omega arith) {i = k} {j = 63} (omega arith))

pub IsWords-set_bit : (m : Bitmap) (i : ℕ) → IsWords m → IsWords (set_bit m i)
unfolding set_bit
IsWords-set_bit m i h k = ground (
  arith,
  h k,
  bit_and-mask 6 i,
  one_shift-lt (bit_and i 63),
  bit_or-lt 64 (m (i / 64)) (1 <<< bit_and i 63),
)

pub IsWords-clear_bit : (m : Bitmap) (i : ℕ) → IsWords m → IsWords (clear_bit m i)
unfolding clear_bit
IsWords-clear_bit m i h k =
    ground (arith, h k, bit_and-le (m (i / 64)) (m (i / 64)) (not64 (1 <<< bit_and i 63)))

-- The result of a scan for the first active place from `lo` on, below `hi`.
pub data IsNext (m : Bitmap) (lo hi r : ℕ) : Type 0 where
  found :
      lo ≤ r
      → r < hi
      → is_set m r ≡ 1
      → ((j : ℕ) → lo ≤ j → j < r → is_set m j ≡ 0)
      → IsNext m lo hi r
  missing : r ≡ uint32_max → ((j : ℕ) → lo ≤ j → j < hi → is_set m j ≡ 0) → IsNext m lo hi r

-- The result of a scan for the last active place up to `hi`.
pub data IsPrev (m : Bitmap) (hi r : ℕ) : Type 0 where
  found : r ≤ hi → is_set m r ≡ 1 → ((j : ℕ) → r < j → j ≤ hi → is_set m j ≡ 0) → IsPrev m hi r
  missing : r ≡ uint32_max → ((j : ℕ) → j ≤ hi → is_set m j ≡ 0) → IsPrev m hi r

-- The place that a hit in a word stands for.
pub place : (word c : ℕ) → c < 64 → word < 2 ^ 26 → bit_or (u32 (word <<< 6)) c ≡ word * 64 + c
place word c h small =
    let e : u32 (word <<< 6) ≡ word * 2 ^ 6 = omega arith in rw e (bit_or-shifted 6 word c h)

pub bit_of : (m : Bitmap) (word c : ℕ) → c < 64 → is_set m (word * 64 + c) ≡ bit c (m word)
bit_of m word c h =
    let a : (word * 64 + c) % 64 ≡ c = omega arith in
    let b : (word * 64 + c) / 64 ≡ word = omega arith in rw (a, b)
