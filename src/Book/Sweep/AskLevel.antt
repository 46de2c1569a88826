-- ===== src/Book/Sweep/AskLevel.antt =====
-- What follows the walk over one level in `match_against_asks` (src/core/OrderBook.cpp).
use nanomatch.Base.{
  ℕ, ◌+◌, ◌^◌, ◌≤◌, ◌<◌, ◌≡◌, ◌⊎◌, inl, inr, refl, ap, ◌∙◌, List, [], ltb, arith, uint32_max,
  Bool-cases, ==-false, update,
}
use nanomatch.Orders.{Side, buy, sell, is_empty}
use nanomatch.Book.State.{Book, put, set_side}
use nanomatch.Book.Top.{update_best_ask}
use nanomatch.Book.Matching.{after_level}
use nanomatch.Book.Reference.{Resting, Ladder}
use nanomatch.Book.Represents.{Represents}
use nanomatch.Book.Sweep.{Represents_top, full_of_level}
use nanomatch.Book.Sweep.Asks.{
  AskTop, at_level, no_level, Inside, ask_start, update_best_ask-AskTop,
}

-- What stays, whatever trades.
pub record SameShape (b b' : Book) : Type 0 where
  pub best_bid : b'.tob.best_bid ≡ b.tob.best_bid
  pub bid_qty : b'.tob.bid_qty ≡ b.tob.bid_qty
  pub band : b'.band ≡ b.band
  pub base : b'.base ≡ b.base
  pub prices : (sd : Side) (at : ℕ) → (b'.levels sd at).price ≡ (b.levels sd at).price

pub put_row :
    (l : Ladder) (at : ℕ) (os : List Resting) (row : ℕ → List Resting) (t : Side) (j : ℕ)
    → set_side (put l sell at os) sell row t j ≡ set_side l sell row t j
put_row l at os row buy j = refl
put_row l at os row sell j = refl

pub same_row : (l : Ladder) (t : Side) (j : ℕ) → l t j ≡ set_side l sell (l sell) t j
same_row l buy j = refl
same_row l sell j = refl

pub lower_levels :
    (b : Book) (row : ℕ → List Resting) → AskTop b row → (j : ℕ) → j < b.tob.best_ask → row j ≡ []
lower_levels b row (at_level near full below) = below
lower_levels b row (no_level e none_there) = λ j _. none_there j

pub some_level :
    (b : Book) (row : ℕ → List Resting)
    → AskTop b row
    → b.tob.best_ask < uint32_max
    → b.tob.best_ask < b.band
some_level b row (at_level near full below) p = near
some_level b row (no_level e none_there) p = absurd (omega (arith, p, e))

pub Inside-update :
    (band at : ℕ) (row : ℕ → List Resting) (os : List Resting)
    → at < band
    → Inside band row
    → Inside band (update row at os)
Inside-update band at row os near inside j far =
    rw (==-false {a = at} {b = j} (omega (arith, near, far))) (inside j far)

-- Where the level that was met is left, the cached best ask is right again.
module _ (b : Book) (best : ℕ) (here : b.tob.best_ask ≡ best) (k : Ladder) (r : Represents b k)
    (inside : Inside b.band (k sell)) (some_level : best < b.band) (fits : b.band + 64 ≤ 2 ^ 32)
    (lower : (j : ℕ) → j < best → k sell j ≡ []) where
  start_here : ask_start b ≡ best
  start_here = ground (arith, some_level, here)

  pub after_level-AskTop :
      let c = after_level sell best b in
      Represents c k × AskTop c (k sell) × SameShape b c × (c.trades ≡ b.trades) × (c.pool ≡ b.pool)
  unfolding update_best_ask
  after_level-AskTop = elim (Bool-cases (is_empty (b.levels sell best))) [
    | inl gone ↦ rw gone (
      Represents_top b _ k r,
      update_best_ask-AskTop b k r inside (omega (arith, some_level)) fits
          (λ j p. lower j (rw start_here at p)),
      record {
        best_bid = ground arith;
        bid_qty = ground arith;
        band = refl;
        base = refl;
        prices = λ _ _. refl;
      },
      refl,
      refl,
    )
    | inr stays ↦ rw stays (
      Represents_top b _ k r,
      at_level (rw here some_level) (rw here (full_of_level b k r sell best stays)) (rw here lower),
      record { best_bid = refl; bid_qty = refl; band = refl; base = refl; prices = λ _ _. refl },
      refl,
      refl,
    )
  ]

-- Where the levels up to `best` are empty, the cached best ask is above it.
pub moves_up :
    (c : Book) (row : ℕ → List Resting) (best : ℕ)
    → ((j : ℕ) → j < best → row j ≡ [])
    → row best ≡ []
    → AskTop c row
    → (c.tob.best_ask ≡ uint32_max) ⊎ (best < c.tob.best_ask)
moves_up c row best lower gone (no_level e _) = inl e
moves_up c row best lower gone (at_level near full below) =
    elim (Bool-cases (ltb best c.tob.best_ask)) [
      | inl h ↦ inr (ground (arith, h))
      | inr h ↦
          let same : c.tob.best_ask ≡ best = elim (Bool-cases (ltb c.tob.best_ask best)) [
            | inl m ↦ absurd (full (lower c.tob.best_ask (ground (arith, m))))
            | inr m ↦ ground (arith, h, m)
          ] in
          absurd (full (ap row same ∙ gone))
    ]
