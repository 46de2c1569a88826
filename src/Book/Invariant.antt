-- ===== src/Book/Invariant.antt =====
-- What holds of the arrays of an `OrderBook` (src/core/OrderBook.hpp): each level is the queue of its
-- slots, no slot is in two queues or in a queue and free, and the bitmaps show the levels that have
-- orders. The queues and the list of free slots are named beside the book.
mod Places
pub mod Frame
pub mod Remove
pub mod Joined
pub mod Append
pub mod Bits
pub mod Slot
pub mod Unlink
pub mod Count
pub use Places.*
use nanomatch.Base.{
  ℕ, suc, ◌+◌, ◌≤◌, ◌<◌, ◌^◌, ◌≡◌, ◌≢◌, Bool, true, false, List, [], ◌∷◌, if◌then◌else◌, length,
  u32, null_idx,
}
use nanomatch.Bitmap.{Bitmap, is_set}
use nanomatch.Bitmap.Scan.{IsWords}
use nanomatch.Orders.{Side, Order, PriceLevel}
use nanomatch.Queue.{Slots, has, Distinct, Linked}
use nanomatch.Book.State.{Book}

abbrev pub Queues : Type 0
Queues = Side → ℕ → List ℕ

abbrev pub nonempty : List ℕ → Bool
nonempty [] = false
nonempty (x ∷ xs) = true

abbrev pub total_qty : Slots → List ℕ → ℕ
total_qty s [] = 0
total_qty s (x ∷ xs) = (s x).qty + total_qty s xs

-- The order stands at the level where it is queued.
pub record IsQueued (o : Order) (sd : Side) (at : ℕ) : Type 0 where
  pub here : o.price ≡ at
  pub side : o.side ≡ sd
  pub small : o.qty < 2 ^ 32

pub record IsLevel (s : Slots) (l : PriceLevel) (sd : Side) (at : ℕ) (xs : List ℕ) : Type 0 where
  pub linked : Linked s null_idx l.head_idx xs l.tail_idx
  pub volume : l.total_volume ≡ u32 (total_qty s xs)
  pub count : l.order_count ≡ u32 (length xs)
  pub orders : (x : ℕ) → has x xs ≡ true → IsQueued (s x) sd at

-- The slots that `next_idx` chains from `head`.
abbrev pub FreeChain : Slots → ℕ → List ℕ → Type 0
FreeChain s head [] = head ≡ null_idx
FreeChain s head (x ∷ xs) = (head ≡ x) × (x ≢ null_idx) × FreeChain s (s x).next_idx xs

pub record Holds (s : Slots) (free_head capacity : ℕ) (levels : Side → ℕ → PriceLevel)
    (bitmaps : Side → Bitmap) (q : Queues) (free : List ℕ) : Type 0 where
  pub level : (sd : Side) (i : ℕ) → IsLevel s (levels sd i) sd i (q sd i)
  pub distinct : (sd : Side) (i : ℕ) → Distinct (q sd i)
  pub queued_inside : (sd : Side) (i x : ℕ) → has x (q sd i) ≡ true → x < capacity
  pub chain : FreeChain s free_head free
  pub free_distinct : Distinct free
  pub free_inside : (x : ℕ) → has x free ≡ true → x < capacity
  pub apart : (x : ℕ) → has x free ≡ true → (sd : Side) (i : ℕ) → has x (q sd i) ≡ false
  pub active : (sd : Side) (i : ℕ) → is_set (bitmaps sd) i ≡ (if nonempty (q sd i) then 1 else 0)
  pub words : (sd : Side) → IsWords (bitmaps sd)
  pub room : capacity ≤ null_idx

abbrev pub IsBook : Book → Queues → List ℕ → Type 0
IsBook b q free = Holds b.pool.slots b.pool.free_head b.pool.capacity b.levels b.bitmaps q free
