-- ===== src/Book/Sweep.antt =====
-- What the outer loops of `match_against_asks` and `match_against_bids` (src/core/OrderBook.cpp) share:
-- the bits, the levels and the rows of resting orders tell the same.
pub mod Asks
pub mod AskLevel
pub mod MatchAsks
pub mod Bids
pub mod BidLevel
pub mod MatchBids
use nanomatch.Base.{
  ℕ, suc, ◌+◌, ◌≤◌, ◌<◌, ◌≡◌, ◌≢◌, ◌⊎◌, inl, inr, refl, ap, sym, ◌∙◌, Bool, true, false, List, [],
  ◌∷◌, length, arith, if◌then◌else◌, Returns, Bool-cases,
}
use nanomatch.Bitmap.{is_set}
use nanomatch.Orders.{Side, TopOfBook, is_empty}
use nanomatch.Queue.{Slots}
use nanomatch.Book.State.{Book}
use nanomatch.Book.Matching.{fill_level}
use nanomatch.Book.Invariant.{nonempty}
use nanomatch.Book.Invariant.Count.{length-queue}
use nanomatch.Book.Invariant.Frame.{empty_iff}
use nanomatch.Book.Reference.{Resting, Ladder}
use nanomatch.Book.Represents.{Represents, contents}
use nanomatch.Book.FillLevel.{Filled, fill_level-fill_queue, length-contents}

-- The best prices take no part in what a book represents.
pub Represents_top :
    (b : Book) (t : TopOfBook) (l : Ladder) → Represents b l → Represents (record b { tob = t }) l
Represents_top b t l r = record {
  queues = r.queues;
  free = r.free;
  book = r.book;
  table = r.table;
  room = r.room;
  view = r.view;
}

contents-nonempty : (s : Slots) (xs : List ℕ) → nonempty xs ≡ true → contents s xs ≢ []
contents-nonempty s [] m = cc
contents-nonempty s (x ∷ xs) m = λ e. cc

contents-empty : (s : Slots) (xs : List ℕ) → nonempty xs ≡ false → contents s xs ≡ []
contents-empty s [] m = refl
contents-empty s (x ∷ xs) m = cc

module _ (b : Book) (l : Ladder) (r : Represents b l) (sd : Side) (at : ℕ) where
  level_cases :
      ((l sd at ≡ []) × (is_set (b.bitmaps sd) at ≡ 0) × (is_empty (b.levels sd at) ≡ true))
      ⊎ ((l sd at ≢ []) × (is_set (b.bitmaps sd) at ≡ 1) × (is_empty (b.levels sd at) ≡ false))
  level_cases =
      let bits = r.book.active sd at in
      let empties =
        empty_iff b.pool.slots (b.levels sd at) sd at (r.queues sd at) (r.book.level sd at) in
      elim (Bool-cases (nonempty (r.queues sd at))) [
        | inl full ↦ inr (
          λ e. contents-nonempty b.pool.slots (r.queues sd at) full (r.view sd at ∙ e),
          rw full at bits,
          rw full at empties,
        )
        | inr none_there ↦ inl (
          sym (r.view sd at) ∙ contents-empty b.pool.slots (r.queues sd at) none_there,
          rw none_there at bits,
          rw none_there at empties,
        )
      ]

  pub empty_of_bit : is_set (b.bitmaps sd) at ≡ 0 → l sd at ≡ []
  empty_of_bit z = elim level_cases [
    | inl (e, _, _) ↦ e
    | inr (_, o, _) ↦ absurd (omega (arith, z, o))
  ]

  pub full_of_bit : is_set (b.bitmaps sd) at ≡ 1 → l sd at ≢ []
  full_of_bit o = elim level_cases [
    | inl (_, z, _) ↦ absurd (omega (arith, z, o))
    | inr (f, _, _) ↦ f
  ]

  pub is_empty_of : l sd at ≡ [] → is_empty (b.levels sd at) ≡ true
  is_empty_of e = elim level_cases [ inl (_, _, m) ↦ m | inr (f, _, _) ↦ absurd (f e) ]

  pub empty_of_level : is_empty (b.levels sd at) ≡ true → l sd at ≡ []
  empty_of_level m = elim level_cases [ inl (e, _, _) ↦ e | inr (_, _, n) ↦ cc ]

  pub full_of_level : is_empty (b.levels sd at) ≡ false → l sd at ≢ []
  full_of_level m = elim level_cases [ inl (_, _, n) ↦ cc | inr (f, _, _) ↦ f ]

  -- The pool is as large as any queue, so its size is fuel for the walk over one.
  pub fill_whole_level :
      (taker_id price remaining : ℕ)
      → (b.levels sd at).price ≡ price
      → Returns
          (fill_level (suc b.pool.capacity) sd at taker_id (b.levels sd at).head_idx remaining b)
          (Filled sd at taker_id price b l remaining)
  fill_whole_level taker_id price remaining priced =
      let short : length (l sd at) ≤ b.pool.capacity =
        rw (← r.view sd at, length-contents b.pool.slots (r.queues sd at))
          (length-queue b r.queues r.free r.book sd at) in
      fill_level-fill_queue sd at taker_id price (suc b.pool.capacity) (b.levels sd at).head_idx
        remaining b l (omega (arith, short)) r refl priced
