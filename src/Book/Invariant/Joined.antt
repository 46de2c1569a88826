-- ===== src/Book/Invariant/Joined.antt =====
-- What `level_append` (src/core/OrderBook.cpp) does to each array.
use nanomatch.Base.{
  ℕ, ◌+◌, ◌≡◌, ◌≢◌, refl, true, false, List, [], ◌∷◌, ◌++◌, ◌==◌, if◌then◌else◌, add32, null_idx,
  arith,
}
use nanomatch.Bitmap.{set_bit}
use nanomatch.Orders.{Side, PriceLevel}
use nanomatch.Queue.{Slots, has, Distinct, has-append}
use nanomatch.Book.State.{Book, same_place, set_side}
use nanomatch.Book.Level.{level_append}
use nanomatch.Book.Invariant.{nonempty, total_qty, same_place_self}
use nanomatch.Book.Invariant.Remove.{bitmap_side_here}

module _ (sd : Side) (at x : ℕ) (b : Book) where
  abbrev before : PriceLevel
  before = b.levels sd at

  abbrev pub level_with : PriceLevel
  level_with = record before {
    head_idx = if before.head_idx == null_idx then x else before.head_idx;
    tail_idx = x;
    total_volume = add32 before.total_volume (b.pool.slots x).qty;
    order_count = add32 before.order_count 1;
  }

  pub levels_here : (level_append sd at x b).levels sd at ≡ level_with
  unfolding level_append
  levels_here = ground (arith, same_place_self sd at)

  pub levels_other :
      (t : Side) (j : ℕ)
      → same_place sd at t j ≡ false
      → (level_append sd at x b).levels t j ≡ b.levels t j
  unfolding level_append
  levels_other t j other = ground arith

  pub pool_same :
      ((level_append sd at x b).pool.free_head ≡ b.pool.free_head)
      × ((level_append sd at x b).pool.capacity ≡ b.pool.capacity)
  unfolding level_append
  pool_same = ground arith

  pub slots_self :
      before.tail_idx ≢ x
      → (level_append sd at x b).pool.slots x
        ≡ record (b.pool.slots x) { prev_idx = before.tail_idx; next_idx = null_idx }
  unfolding level_append
  slots_self ne = ground arith

  pub slots_other :
      (z : ℕ)
      → z ≢ x
      → (level_append sd at x b).pool.slots z ≡ (
          let o = b.pool.slots z in
          record o {
            next_idx =
                if before.head_idx == null_idx
                then o.next_idx
                else if before.tail_idx == z
                then x
                else o.next_idx;
          })
  unfolding level_append
  slots_other z ne = ground arith

  pub bitmaps_after :
      (b.pool.slots x).price ≡ at
      → (level_append sd at x b).bitmaps ≡ (
          if before.head_idx == null_idx
          then set_side b.bitmaps sd (set_bit (b.bitmaps sd) at)
          else b.bitmaps)
  unfolding level_append
  bitmaps_after e = ground (arith, bitmap_side_here sd at x b e)

pub total-append :
    (s : Slots) (xs : List ℕ) (x : ℕ) → total_qty s (xs ++ x ∷ []) ≡ total_qty s xs + (s x).qty
total-append s [] x = omega arith
total-append s (y ∷ xs) x = omega (arith, total-append s xs x)

pub Distinct-append :
    (xs : List ℕ) (x : ℕ) → has x xs ≡ false → Distinct xs → Distinct (xs ++ x ∷ [])
Distinct-append [] x out d = (refl, tt)
Distinct-append (y ∷ xs) x out d =
    (ground (arith, has-append y xs (x ∷ [])), Distinct-append xs x (ground arith) d.1)

pub nonempty-append : (xs : List ℕ) (x : ℕ) → nonempty (xs ++ x ∷ []) ≡ true
nonempty-append [] x = refl
nonempty-append (y ∷ xs) x = refl
