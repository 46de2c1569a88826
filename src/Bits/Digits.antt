-- ===== src/Bits/Digits.antt =====
-- The native `&` and `|` one binary digit at a time, and bit by bit.
use Prim.Native.Nat.{digits, bit_and-bitwise, bit_or-bitwise}
use native.Mathlib.Nat.{le_refl, pow-suc, pow-succ', div-div-eq-div-mul, div-add-mod, one-le-pow}
use nanomatch.Base.{
  ℕ, zero, suc, ◌+◌, ◌-◌, ◌*◌, ◌/◌, ◌%◌, ◌^◌, ◌≤◌, ◌<◌, min, max, bit_and, bit_or, ◌≡◌, refl, sym,
  ◌∙◌, ap, arith,
}

-- More fuel than the left number is worth makes no difference.
module _ (end : ℕ → ℕ) (join : ℕ → ℕ → ℕ) where
  fuel_irrelevant : (m k x y : ℕ) → x ≤ m → x ≤ k → digits end join m x y ≡ digits end join k x y
  fuel_irrelevant zero zero x y p q = refl
  fuel_irrelevant zero (suc k) zero y p q = refl
  fuel_irrelevant (suc m) zero zero y p q = refl
  fuel_irrelevant (suc m) (suc k) zero y p q = refl
  fuel_irrelevant zero k (suc x) y p q = absurd (omega arith)
  fuel_irrelevant (suc m) zero (suc x) y p q = absurd (omega arith)
  fuel_irrelevant (suc m) (suc k) (suc x) y p q =
      rw (fuel_irrelevant m k (suc x / 2) (y / 2) (omega arith) (omega arith))

pub bit_or-digit : (x y : ℕ) → bit_or x y ≡ bit_or (x / 2) (y / 2) * 2 + max (x % 2) (y % 2)
bit_or-digit zero y = simp bit_or-bitwise (omega arith)
bit_or-digit (suc x) y = simp bit_or-bitwise (
    omega (
      arith,
      fuel_irrelevant (λ b. b) max x (suc x / 2) (suc x / 2) (y / 2) (omega arith) (le_refl _),
    ))

pub bit_and-digit : (x y : ℕ) → bit_and x y ≡ bit_and (x / 2) (y / 2) * 2 + min (x % 2) (y % 2)
bit_and-digit zero y = simp bit_and-bitwise (omega arith)
bit_and-digit (suc x) y = simp bit_and-bitwise (
    omega (
      arith,
      fuel_irrelevant (λ _. 0) min x (suc x / 2) (suc x / 2) (y / 2) (omega arith) (le_refl _),
    ))

-- Bit `k` of `w`.
unfoldable pub bit : ℕ → ℕ → ℕ
bit k w = w / 2 ^ k % 2

pub bit-zero : (w : ℕ) → bit 0 w ≡ w % 2
unfolding bit
bit-zero w = omega arith

pub bit-suc : (k w : ℕ) → bit (suc k) w ≡ bit k (w / 2)
unfolding bit
bit-suc k w =
    ap (λ t. t % 2) (ap (λ t. w / t) (pow-succ' 2 k) ∙ sym (div-div-eq-div-mul w 2 (2 ^ k)))

pub bit-le-one : (k w : ℕ) → bit k w ≤ 1
unfolding bit
bit-le-one k w = omega arith

pub bit-bit_or : (k x y : ℕ) → bit k (bit_or x y) ≡ max (bit k x) (bit k y)
bit-bit_or zero x y = omega (arith, bit_or-digit x y, bit-zero)
bit-bit_or (suc k) x y =
    let half : bit_or x y / 2 ≡ bit_or (x / 2) (y / 2) = omega (arith, bit_or-digit x y) in
    rw (bit-suc k (bit_or x y), bit-suc k x, bit-suc k y, half) (bit-bit_or k (x / 2) (y / 2))

pub bit-bit_and : (k x y : ℕ) → bit k (bit_and x y) ≡ min (bit k x) (bit k y)
bit-bit_and zero x y = omega (arith, bit_and-digit x y, bit-zero)
bit-bit_and (suc k) x y =
    let half : bit_and x y / 2 ≡ bit_and (x / 2) (y / 2) = omega (arith, bit_and-digit x y) in
    rw (bit-suc k (bit_and x y), bit-suc k x, bit-suc k y, half) (bit-bit_and k (x / 2) (y / 2))

-- `x & (2 ^ k - 1)` is the remainder by `2 ^ k`.
pub bit_and-mask : (k x : ℕ) → bit_and x (2 ^ k - 1) ≡ x % 2 ^ k
bit_and-mask zero x = low x x (omega arith)
  where
    low : (n x : ℕ) → x ≤ n → bit_and x 0 ≡ x % 1
    low n zero h = refl
    low zero (suc x) h = absurd (omega arith)
    low (suc n) (suc x) h = omega (arith, bit_and-digit (suc x) 0, low n (suc x / 2) (omega arith))
bit_and-mask (suc k) x = ground (
  arith,
  bit_and-digit x (2 ^ suc k - 1),
  pow-suc 2 k,
  one-le-pow k 2,
  bit_and-mask k (x / 2),
  split,
)
  where
    split : x % 2 ^ suc k ≡ x / 2 % 2 ^ k * 2 + x % 2
    split = rw (pow-succ' 2 k) (
        omega (
          arith,
          div-add-mod x (2 * 2 ^ k),
          div-add-mod (x / 2) (2 ^ k),
          ap (λ t. 2 ^ k * t) (div-div-eq-div-mul x 2 (2 ^ k)),
        ))

pub bit_or-lt : (n x y : ℕ) → x < 2 ^ n → y < 2 ^ n → bit_or x y < 2 ^ n
bit_or-lt zero x y p q = rw (zero_of_lt_one x p, zero_of_lt_one y q) (omega arith)
  where
    zero_of_lt_one : (t : ℕ) → t < 1 → t ≡ 0
    zero_of_lt_one t h = omega arith
bit_or-lt (suc n) x y p q = omega (
  arith,
  bit_or-digit x y,
  pow-suc 2 n,
  bit_or-lt n (x / 2) (y / 2) (omega (arith, pow-suc 2 n)) (omega (arith, pow-suc 2 n)),
)

pub bit_and-le : (n x y : ℕ) → x ≤ n → bit_and x y ≤ x
bit_and-le n zero y h = simp bit_and-bitwise (omega arith)
bit_and-le zero (suc x) y h = absurd (omega arith)
bit_and-le (suc n) (suc x) y h =
    omega (arith, bit_and-digit (suc x) y, bit_and-le n (suc x / 2) (y / 2) (omega arith))

bit_or-zero : (n x : ℕ) → x ≤ n → bit_or x 0 ≡ x
bit_or-zero n zero h = refl
bit_or-zero zero (suc x) h = absurd (omega arith)
bit_or-zero (suc n) (suc x) h =
    omega (arith, bit_or-digit (suc x) 0, bit_or-zero n (suc x / 2) (omega arith))

-- `(hi << k) | lo` is a sum, when `lo` has `k` bits.
pub bit_or-shifted : (k hi lo : ℕ) → lo < 2 ^ k → bit_or (hi * 2 ^ k) lo ≡ hi * 2 ^ k + lo
bit_or-shifted zero hi lo h =
    let e : lo ≡ 0 = omega arith in rw e (bit_or-zero _ (hi * 2 ^ 0) (le_refl _) ∙ omega arith)
bit_or-shifted (suc k) hi lo h =
    let double : hi * 2 ^ suc k ≡ 2 * (hi * 2 ^ k) =
      omega (arith, ap (λ (t : ℕ). hi * t) (pow-suc 2 k)) in
    let half : 2 * (hi * 2 ^ k) / 2 ≡ hi * 2 ^ k = omega arith in
    let rest = bit_or-shifted k hi (lo / 2) (omega (arith, pow-suc 2 k)) in
    rw double (bit_or-digit (2 * (hi * 2 ^ k)) lo ∙ rw half (omega (arith, rest)))
