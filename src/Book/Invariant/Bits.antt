-- ===== src/Book/Invariant/Bits.antt =====
-- The bitmaps after one bit of one side is written.
use nanomatch.Base.{ℕ, ◌≡◌, refl, if◌then◌else◌}
use nanomatch.Bitmap.{Bitmap, is_set, set_bit, clear_bit}
use nanomatch.Bitmap.Scan.{
  IsWords, is_set-set_bit, is_set-clear_bit, IsWords-set_bit, IsWords-clear_bit,
}
use nanomatch.Orders.{Side, buy, sell}
use nanomatch.Book.State.{same_place, set_side}

module _ (m : Side → Bitmap) (at : ℕ) where
  pub bit_cleared :
      (s t : Side) (j : ℕ)
      → is_set (set_side m s (clear_bit (m s) at) t) j
        ≡ (if same_place s at t j then 0 else is_set (m t) j)
  bit_cleared buy buy j = is_set-clear_bit (m buy) at j
  bit_cleared sell sell j = is_set-clear_bit (m sell) at j
  bit_cleared buy sell j = refl
  bit_cleared sell buy j = refl

  pub bit_added :
      (s t : Side) (j : ℕ)
      → is_set (set_side m s (set_bit (m s) at) t) j
        ≡ (if same_place s at t j then 1 else is_set (m t) j)
  bit_added buy buy j = is_set-set_bit (m buy) at j
  bit_added sell sell j = is_set-set_bit (m sell) at j
  bit_added buy sell j = refl
  bit_added sell buy j = refl

  pub IsWords-cleared :
      ((t : Side) → IsWords (m t)) → (s t : Side) → IsWords (set_side m s (clear_bit (m s) at) t)
  IsWords-cleared h buy buy = IsWords-clear_bit (m buy) at (h buy)
  IsWords-cleared h sell sell = IsWords-clear_bit (m sell) at (h sell)
  IsWords-cleared h buy sell = h sell
  IsWords-cleared h sell buy = h buy

  pub IsWords-added :
      ((t : Side) → IsWords (m t)) → (s t : Side) → IsWords (set_side m s (set_bit (m s) at) t)
  IsWords-added h buy buy = IsWords-set_bit (m buy) at (h buy)
  IsWords-added h sell sell = IsWords-set_bit (m sell) at (h sell)
  IsWords-added h buy sell = h sell
  IsWords-added h sell buy = h buy
