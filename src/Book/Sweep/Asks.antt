-- ===== src/Book/Sweep/Asks.antt =====
-- `update_best_ask` (src/core/OrderBook.cpp).
use nanomatch.Base.{
  ℕ, ◌+◌, ◌*◌, ◌^◌, ◌≤◌, ◌<◌, ◌≡◌, ◌≢◌, inl, inr, refl, List, [], ltb, leb, ◌==◌, arith,
  if◌then◌else◌, uint32_max, Bool-cases, ==-true, ==-false,
}
use nanomatch.Bitmap.Scan.{IsNext, found, missing}
use nanomatch.Bitmap.Next.{find_next_set_bit-IsNext}
use nanomatch.Orders.{sell}
use nanomatch.Book.State.{Book, bitmap_size}
use nanomatch.Book.Top.{update_best_ask}
use nanomatch.Book.Reference.{Resting, Ladder}
use nanomatch.Book.Represents.{Represents}
use nanomatch.Book.Sweep.{empty_of_bit, full_of_bit}

-- The cached best ask is the lowest level that has orders.
pub data AskTop (b : Book) (row : ℕ → List Resting) : Type 0 where
  at_level :
      b.tob.best_ask < b.band
      → row b.tob.best_ask ≢ []
      → ((j : ℕ) → j < b.tob.best_ask → row j ≡ [])
      → AskTop b row
  no_level : b.tob.best_ask ≡ uint32_max → ((j : ℕ) → row j ≡ []) → AskTop b row

-- Orders rest at levels that exist.
abbrev pub Inside : (band : ℕ) → (ℕ → List Resting) → Type 0
Inside band row = (j : ℕ) → band ≤ j → row j ≡ []

abbrev pub ask_start : Book → ℕ
ask_start b = if leb b.band b.tob.best_ask then 0 else b.tob.best_ask

start_inside :
    (band best : ℕ) → 0 < band → (if leb band best then 0 else best) < bitmap_size band * 64
start_inside band best some_level = ground arith

-- The book once the scan has found `next`.
abbrev shown : Book → ℕ → Book
shown b next = record b {
  tob =
      if next == uint32_max
      then record (b.tob) { best_ask = uint32_max; ask_qty = 0 }
      else record (b.tob) { best_ask = next; ask_qty = (b.levels sell next).total_volume };
}

AskTop-of_scan :
    (b : Book) (l : Ladder) (start hi next : ℕ)
    → Represents b l
    → Inside b.band (l sell)
    → b.band ≤ hi
    → b.band + 64 ≤ 2 ^ 32
    → ((j : ℕ) → j < start → l sell j ≡ [])
    → IsNext (b.bitmaps sell) start hi next
    → AskTop (shown b next) (l sell)
AskTop-of_scan b l start hi next r inside wide fits lower (found low high on below) =
    let full = full_of_bit b l r sell next on in
    let near : next < b.band = elim (Bool-cases (ltb next b.band)) [
      | inl k ↦ ground (arith, k)
      | inr k ↦ absurd (full (inside next (ground (arith, k))))
    ] in
    rw (==-false {a = next} {b = uint32_max} (omega (arith, near, fits))) (
      at_level near full (λ j p. elim (Bool-cases (ltb j start)) [
        | inl k ↦ lower j (ground (arith, k))
        | inr k ↦ empty_of_bit b l r sell j (below j (ground (arith, k)) p)
      ]))
AskTop-of_scan b l start hi next r inside wide fits lower (missing e below) =
    rw (==-true {a = next} {b = uint32_max} e) (
      no_level refl (λ j. elim (Bool-cases (ltb j start)) [
        | inl k ↦ lower j (ground (arith, k))
        | inr k ↦ elim (Bool-cases (ltb j hi)) [
          | inl m ↦ empty_of_bit b l r sell j (below j (ground (arith, k)) (ground (arith, m)))
          | inr m ↦ inside j (ground (arith, m, wide))
        ]
      ]))

-- On a book that represents `l`, where no ask rests outside a band of between 1 and 2^32 - 64
-- levels, and no level before the start of the scan has orders, the best ask that `update_best_ask`
-- caches is the lowest level with orders, or `UINT32_MAX` when no level has any.
pub update_best_ask-AskTop :
    (b : Book) (l : Ladder)
    → Represents b l
    → Inside b.band (l sell)
    → 0 < b.band
    → b.band + 64 ≤ 2 ^ 32
    → ((j : ℕ) → j < ask_start b → l sell j ≡ [])
    → AskTop (update_best_ask b) (l sell)
unfolding update_best_ask
update_best_ask-AskTop b l r inside some_level fits lower =
    AskTop-of_scan b l (ask_start b) (bitmap_size b.band * 64) _ r inside (omega arith) fits lower (
      find_next_set_bit-IsNext (b.bitmaps sell) (r.book.words sell) (bitmap_size b.band)
        (ask_start b) (start_inside b.band b.tob.best_ask some_level) (omega (arith, fits)))
