-- ===== src/Wire/Range.antt =====
-- A swapped number fits its width.
use native.Mathlib.Nat.{pow-suc, mul-le-mul_right}
use nanomatch.Base.{ℕ, zero, suc, ◌/◌, ◌%◌, ◌^◌, ◌<◌, arith}
use nanomatch.Wire.{bswap}

pub bswap-lt : (n v : ℕ) → bswap n v < 256 ^ n
unfolding bswap
bswap-lt zero v = omega arith
bswap-lt (suc n) v = omega (
  arith,
  pow-suc 256 n,
  bswap-lt n (v / 256),
  mul-le-mul_right {m = v % 256} {n = 255} (256 ^ n) (omega arith),
)
