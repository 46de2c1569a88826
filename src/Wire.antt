-- ===== src/Wire.antt =====
-- Reads of packed structs (src/ingestion/ItchProtocols.hpp, src/ingestion/MmapParser.hpp). A pointer into the mapped file is the list of the
-- bytes from there to its end, and a read past the end gives nothing.
pub mod Length
pub mod Order
pub mod Range
use nanomatch.Base.{ℕ, zero, suc, ◌+◌, ◌*◌, ◌/◌, ◌%◌, ◌^◌, Option, none, some, List, [], ◌∷◌}

-- A pointer `n` bytes on.
abbrev pub drop : ℕ → List ℕ → List ℕ
drop zero bytes = bytes
drop (suc n) [] = []
drop (suc n) (b ∷ bytes) = drop n bytes

-- What stands at a pointer, and the pointer behind it.
abbrev pub Reader {ℓ} : Type ℓ → Type ℓ
Reader A = List ℕ → Option (A × List ℕ)

abbrev pub pure {ℓ} : {A : Type ℓ} → A → Reader A
pure a bytes = some (a, bytes)

-- The rest of a read.
abbrev pub pass {ℓ κ} :
    {A : Type ℓ} {B : Type κ} → Option (A × List ℕ) → (A → Reader B) → Option (B × List ℕ)
pass none f = none
pass (some (a, bytes)) f = f a bytes

infixl 5 ◌>>=◌
unfoldable pub ◌>>=◌ {ℓ κ} : {A : Type ℓ} {B : Type κ} → Reader A → (A → Reader B) → Reader B
(r >>= f) bytes = pass (r bytes) f

-- An unsigned integer of `n` bytes, as the machine loads it: lowest byte first.
unfoldable pub word : ℕ → Reader ℕ
word zero bytes = some (0, bytes)
word (suc n) [] = none
word (suc n) (b ∷ bytes) = pass (word n bytes) (λ v. pure (b + 256 * v))

-- `uint8_t[n]` and `char[n]`
unfoldable pub chars : ℕ → Reader (List ℕ)
chars zero bytes = some ([], bytes)
chars (suc n) [] = none
chars (suc n) (b ∷ bytes) = pass (chars n bytes) (λ cs. pure (b ∷ cs))

-- `__builtin_bswap16`, `bswap32` and `bswap64`, on 2, 4 and 8 bytes.
unfoldable pub bswap : (bytes value : ℕ) → ℕ
bswap zero v = 0
bswap (suc n) v = v % 256 * 256 ^ n + bswap n (v / 256)
