-- ===== src/Base/Word.antt =====
-- Machine words: a `w`-bit integer is a number below `2 ^ w`.
use Prim.Native.Nat.{ℕ, ◌+◌, ◌-◌, ◌*◌, ◌/◌, ◌%◌, ◌^◌}

abbrev pub u32 : ℕ → ℕ
u32 n = n % 2 ^ 32

abbrev pub u64 : ℕ → ℕ
u64 n = n % 2 ^ 64

-- `UINT32_MAX`, which is also `NULL_IDX` and `IdMap::EMPTY`.
abbrev pub uint32_max : ℕ
uint32_max = 2 ^ 32 - 1

abbrev pub null_idx : ℕ
null_idx = uint32_max

-- `a - b` on `uint32_t`
abbrev pub sub32 : ℕ → ℕ → ℕ
sub32 a b = (a + 2 ^ 32 - b) % 2 ^ 32

abbrev pub add32 : ℕ → ℕ → ℕ
add32 a b = (a + b) % 2 ^ 32

-- `~x` on `uint64_t`
abbrev pub not64 : ℕ → ℕ
not64 x = 2 ^ 64 - 1 - x

infixl 75 ◌<<<◌ ◌>>>◌
abbrev pub ◌<<<◌ : ℕ → ℕ → ℕ
x <<< k = x * 2 ^ k

abbrev pub ◌>>>◌ : ℕ → ℕ → ℕ
x >>> k = x / 2 ^ k
