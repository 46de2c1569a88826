-- ===== src/Book/Sweep/BidLevel.antt =====
-- What follows the walk over one level in `match_against_bids` (src/core/OrderBook.cpp).
use nanomatch.Base.{
  ℕ, ◌+◌, ◌^◌, ◌≤◌, ◌<◌, ◌≡◌, ◌≢◌, ◌⊎◌, inl, inr, refl, ap, ◌∙◌, List, [], ltb, arith, uint32_max,
  Bool-cases,
}
use nanomatch.Orders.{Side, sell, buy, is_empty}
use nanomatch.Book.State.{Book, put, set_side}
use nanomatch.Book.Top.{update_best_bid}
use nanomatch.Book.Matching.{after_level}
use nanomatch.Book.Reference.{Resting, Ladder}
use nanomatch.Book.Represents.{Represents}
use nanomatch.Book.Sweep.{Represents_top, full_of_level}
use nanomatch.Book.Sweep.Asks.{Inside}
use nanomatch.Book.Sweep.Bids.{BidTop, at_level, no_level, bid_start, update_best_bid-BidTop}

-- What stays, whatever trades.
pub record SameBidShape (b b' : Book) : Type 0 where
  pub best_ask : b'.tob.best_ask ≡ b.tob.best_ask
  pub ask_qty : b'.tob.ask_qty ≡ b.tob.ask_qty
  pub band : b'.band ≡ b.band
  pub base : b'.base ≡ b.base
  pub prices : (sd : Side) (at : ℕ) → (b'.levels sd at).price ≡ (b.levels sd at).price

pub put_row :
    (l : Ladder) (at : ℕ) (os : List Resting) (row : ℕ → List Resting) (t : Side) (j : ℕ)
    → set_side (put l buy at os) buy row t j ≡ set_side l buy row t j
put_row l at os row sell j = refl
put_row l at os row buy j = refl

pub same_row : (l : Ladder) (t : Side) (j : ℕ) → l t j ≡ set_side l buy (l buy) t j
same_row l sell j = refl
same_row l buy j = refl

pub higher_levels :
    (b : Book) (row : ℕ → List Resting) → BidTop b row → (j : ℕ) → b.tob.best_bid < j → row j ≡ []
higher_levels b row (at_level near full below) = below
higher_levels b row (no_level e none_there) = λ j _. none_there j

pub some_level :
    (b : Book) (row : ℕ → List Resting)
    → BidTop b row
    → b.tob.best_bid ≢ uint32_max
    → b.tob.best_bid < b.band
some_level b row (at_level near full above) p = near
some_level b row (no_level e none_there) p = absurd (p e)

pub full_level :
    (b : Book) (row : ℕ → List Resting)
    → BidTop b row
    → b.tob.best_bid ≢ uint32_max
    → row b.tob.best_bid ≢ []
full_level b row (at_level near full above) p = full
full_level b row (no_level e none_there) p = absurd (p e)

pub no_bids :
    (b : Book) (row : ℕ → List Resting)
    → BidTop b row
    → b.tob.best_bid ≡ uint32_max
    → b.band ≤ uint32_max
    → (j : ℕ) → row j ≡ []
no_bids b row (at_level near full above) e fits = absurd (omega (arith, near, e, fits))
no_bids b row (no_level e none_there) p fits = none_there

-- Where the level that was met is left, the cached best bid is right again.
module _ (b : Book) (best : ℕ) (here : b.tob.best_bid ≡ best) (k : Ladder) (r : Represents b k)
    (inside : Inside b.band (k buy)) (some_level : best < b.band) (fits : b.band + 64 ≤ 2 ^ 32)
    (higher : (j : ℕ) → best < j → k buy j ≡ []) where
  start_here : bid_start b ≡ best
  start_here = ground (arith, some_level, here, fits)

  pub after_level-BidTop :
      let c = after_level buy best b in
      Represents c k
      × BidTop c (k buy)
      × SameBidShape b c
      × (c.trades ≡ b.trades)
      × (c.pool ≡ b.pool)
  unfolding update_best_bid
  after_level-BidTop = elim (Bool-cases (is_empty (b.levels buy best))) [
    | inl gone ↦ rw gone (
      Represents_top b _ k r,
      update_best_bid-BidTop b k r inside fits (omega (arith, some_level, here, fits))
          (λ j p. higher j (rw start_here at p)),
      record {
        best_ask = ground arith;
        ask_qty = ground arith;
        band = refl;
        base = refl;
        prices = λ _ _. refl;
      },
      refl,
      refl,
    )
    | inr stays ↦ rw stays (
      Represents_top b _ k r,
      at_level (rw here some_level) (rw here (full_of_level b k r buy best stays)) (rw here higher),
      record { best_ask = refl; ask_qty = refl; band = refl; base = refl; prices = λ _ _. refl },
      refl,
      refl,
    )
  ]

-- Where the levels from `best` on are empty, the cached best bid is below it.
pub moves_down :
    (c : Book) (row : ℕ → List Resting) (best : ℕ)
    → ((j : ℕ) → best < j → row j ≡ [])
    → row best ≡ []
    → BidTop c row
    → (c.tob.best_bid ≡ uint32_max) ⊎ (c.tob.best_bid < best)
moves_down c row best higher gone (no_level e _) = inl e
moves_down c row best higher gone (at_level near full below) =
    elim (Bool-cases (ltb c.tob.best_bid best)) [
      | inl h ↦ inr (ground (arith, h))
      | inr h ↦
          let same : c.tob.best_bid ≡ best = elim (Bool-cases (ltb best c.tob.best_bid)) [
            | inl m ↦ absurd (full (higher c.tob.best_bid (ground (arith, m))))
            | inr m ↦ ground (arith, h, m)
          ] in
          absurd (full (ap row same ∙ gone))
    ]
