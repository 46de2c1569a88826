-- ===== src/Book/Limit.antt =====
-- `insert_limit_order` of src/core/OrderBook.cpp, where the window need not slide.
pub mod Left
pub mod Window
use nanomatch.Base.{
  ℕ, zero, suc, ◌+◌, ◌-◌, ◌^◌, ◌≤◌, ◌<◌, ◌≡◌, refl, ap, ◌∙◌, Bool, true, false, not, ◌&&◌, leb,
  some, ◌>>=◌, List, [], ◌∷◌, ◌++◌, ◌==◌, if◌then◌else◌, arith, Returns, Bool-cases, inl, inr,
  Option,
}
use mathlib.Core.Path.{subst}
use nanomatch.Orders.{Side, buy, sell}
use nanomatch.Book.State.{Book, set_side, bootstrap_rebase_limit}
use nanomatch.Book.Insert.{
  insert_limit_order, rest_order, anchor, in_band, bring_in_band, cross, centered_base,
}
use nanomatch.Book.Reference.{Resting, Ladder, Swept, fills, sweep_up, sweep_down}
use nanomatch.Book.Represents.{Represents}
use nanomatch.Book.Sweep.Asks.{Inside}
use nanomatch.Book.Sweep.MatchAsks.{Asked, match_against_asks-sweep_up}
use nanomatch.Book.Sweep.MatchBids.{Hit, match_against_bids-sweep_down}
use nanomatch.Book.Tops.{Tops, AskTop-along, BidTop-along, Tops-along}
use nanomatch.Book.Rest.Cases.{Rested, rest_order-Rested}
use nanomatch.Book.Limit.Left.{sweep_up-le, sweep_down-le}
use nanomatch.Book.Limit.Window.{
  Ready, anchor-Ready, after_cross, in_band_runs, out_of_band_runs, KeepsWindow,
}

-- The order of quantity `left` after matching has made the book `m`, which represents `l`: it is gone, or
-- it rests unless the pool is used up.
abbrev pub Settled : Side → (id pidx left : ℕ) → Book → Ladder → Bool × Book → Type 0
Settled s id pidx left m l out =
    if left == 0 then out ≡ (false, m) else Rested s id pidx left m l out

after_cross-Settled :
    (s : Side) (id price pidx : ℕ) (r : ℕ × Book) (l : Ladder)
    → Represents r.1 l
    → Tops r.1 l
    → pidx < r.1.band
    → r.1.band + 64 ≤ 2 ^ 32
    → r.0 < 2 ^ 32
    → Returns (after_cross s id price pidx r) (Settled s id pidx r.0 r.1 l)
after_cross-Settled s id price pidx r l rep tops near fits small = elim (Bool-cases (r.0 == 0)) [
  | inl gone ↦ rw gone ((false, r.1), refl, refl)
  | inr more ↦ rw more (rest_order-Rested s id price pidx r.0 r.1 l rep tops near fits small)
]

-- What matching the order gives on the way.
abbrev Crossed : (other : Side) (swept : Swept) → Book → Ladder → ℕ × Book → Type 0
Crossed other swept b l r =
    (r.0 ≡ swept.remaining)
    × Represents r.1 (set_side l other swept.row)
    × Tops r.1 (set_side l other swept.row)
    × (r.1.band ≡ b.band)
    × (fills r.1.trades ≡ fills b.trades ++ swept.made)

-- The levels that matching reads are those of the book before.
module _ (id pidx qty : ℕ) (b b' : Book) (l : Ladder) (ready : Ready b b' l) (out : ℕ × Book) where
  Crossed-of_Asked :
      Asked id pidx (λ at. (b'.levels sell at).price) b' l qty out
      → Crossed sell
          (sweep_up id (λ at. (b.levels sell at).price) qty (l sell) (suc pidx) 0)
          b
          l
          out
  Crossed-of_Asked (left, rep, top, same, made) = (
    rw ready.levels at left,
    rw ready.levels at rep,
    record {
      asks = rw ready.levels at top;
      bids = BidTop-along b' out.1 (l buy) same.best_bid same.band ready.tops.bids;
    },
    same.band ∙ ready.band,
    rw (ready.levels, ready.trades) at made,
  )

  Crossed-of_Hit :
      Hit id pidx (b'.band - pidx) (λ at. (b'.levels buy at).price) b' l qty out
      → Crossed buy
          (sweep_down id (λ at. (b.levels buy at).price) qty (l buy) (b.band - pidx) pidx)
          b
          l
          out
  Crossed-of_Hit (left, rep, top, same, made) = (
    rw (ready.levels, ready.band) at left,
    rw (ready.levels, ready.band) at rep,
    record {
      asks = AskTop-along b' out.1 (l sell) same.best_ask same.band ready.tops.asks;
      bids = rw (ready.levels, ready.band) at top;
    },
    same.band ∙ ready.band,
    rw (ready.levels, ready.band, ready.trades) at made,
  )

-- What placing an order in the window leaves: matching has walked the levels of the other side up to the
-- limit, and what is left of the order is settled on the book that leaves.
pub record Placed (s other : Side) (id pidx : ℕ) (swept : Swept) (b : Book) (l : Ladder)
    (out : Bool × Book) : Type 0 where
  pub matched : Book
  pub represents : Represents matched (set_side l other swept.row)
  pub tops : Tops matched (set_side l other swept.row)
  pub band : matched.band ≡ b.band
  pub trades : fills matched.trades ≡ fills b.trades ++ swept.made
  pub settled : Settled s id pidx swept.remaining matched (set_side l other swept.row) out

-- The order is placed, or it is outside the window and only the window may have changed.
abbrev pub BuyPlaced : (id price qty : ℕ) → Book → Ladder → Bool × Book → Type 0
BuyPlaced id price qty b l out =
    let pidx = price - (anchor price b).base in
    let swept = sweep_up id (λ at. (b.levels sell at).price) qty (l sell) (suc pidx) 0 in
    if in_band price (anchor price b)
    then Placed buy sell id pidx swept b l out
    else out ≡ (false, anchor price b)

abbrev pub SellPlaced : (id price qty : ℕ) → Book → Ladder → Bool × Book → Type 0
SellPlaced id price qty b l out =
    let pidx = price - (anchor price b).base in
    let swept = sweep_down id (λ at. (b.levels buy at).price) qty (l buy) (b.band - pidx) pidx in
    if in_band price (anchor price b)
    then Placed sell buy id pidx swept b l out
    else out ≡ (false, anchor price b)

-- The index of a price inside the window.
in_band_below : (price : ℕ) (b : Book) → in_band price b ≡ true → price - b.base < b.band
in_band_below price b inside = ground (arith, inside)

module _ (id price qty : ℕ) (b : Book) (l : Ladder) (r : Represents b l) (tops : Tops b l)
    (fits : b.band + 64 ≤ 2 ^ 32) (small : qty < 2 ^ 32) where
  Placed-of_Crossed :
      (s other : Side) (swept : Swept)
      → in_band price (anchor price b) ≡ true
      → Returns
          (cross s id (price - (anchor price b).base) qty (anchor price b))
          (Crossed other swept b l)
      → swept.remaining ≤ qty
      → Returns
          (insert_limit_order id s price qty b)
          (Placed s other id (price - (anchor price b).base) swept b l)
  Placed-of_Crossed s other swept inside (c, ran, (left, rep, top, band, made)) le =
      let pidx = price - (anchor price b).base in
      let near = in_band_below price (anchor price b) inside in
      let ready = anchor-Ready price b l r tops in
      let (out, ends, settled) =
        after_cross-Settled s id price pidx c (set_side l other swept.row) rep top
          (omega (arith, near, band, ready.band)) (omega (arith, fits, band))
          (omega (arith, left, le, small)) in
      (
        out,
        in_band_runs id s price qty b inside
            ∙ ap (λ o. o >>= after_cross s id price pidx) ran
            ∙ ends,
        record {
          matched = c.1;
          represents = rep;
          tops = top;
          band = band;
          trades = made;
          settled =
              subst (λ x. Settled s id pidx x c.1 (set_side l other swept.row) out) left settled;
        },
      )

  module _ (asks_inside : Inside b.band (l sell)) (bids_inside : Inside b.band (l buy))
      (window : KeepsWindow price b) where
    buy-Placed : Returns (insert_limit_order id buy price qty b) (BuyPlaced id price qty b l)
    unfolding cross
    buy-Placed = elim (Bool-cases (in_band price (anchor price b))) [
      | inl inside ↦
          let b' = anchor price b in
          let pidx = price - b'.base in
          let near = in_band_below price b' inside in
          let ready = anchor-Ready price b l r tops in
          let (out, ran, asked) =
            match_against_asks-sweep_up id pidx qty b' l ready.represents ready.tops.asks
              (λ j far. asks_inside j (omega (arith, far, ready.band)))
              (omega (arith, fits, ready.band)) (omega (arith, near, fits, ready.band)) in
          rw inside (
            Placed-of_Crossed buy sell _ inside
              (out, ran, Crossed-of_Asked id pidx qty b b' l ready out asked)
              (sweep_up-le id (λ at. (b.levels sell at).price) qty (l sell) (suc pidx) 0))
      | inr outside ↦ rw outside (_, out_of_band_runs id buy price qty b outside window, refl)
    ]

    sell-Placed : Returns (insert_limit_order id sell price qty b) (SellPlaced id price qty b l)
    unfolding cross
    sell-Placed = elim (Bool-cases (in_band price (anchor price b))) [
      | inl inside ↦
          let b' = anchor price b in
          let pidx = price - b'.base in
          let ready = anchor-Ready price b l r tops in
          let (out, ran, hit) =
            match_against_bids-sweep_down id pidx qty b' l ready.represents ready.tops.bids
              (λ j far. bids_inside j (omega (arith, far, ready.band)))
              (omega (arith, fits, ready.band)) in
          rw inside (
            Placed-of_Crossed sell buy _ inside
              (out, ran, Crossed-of_Hit id pidx qty b b' l ready out hit)
              (sweep_down-le id (λ at. (b.levels buy at).price) qty (l buy) (b.band - pidx) pidx))
      | inr outside ↦ rw outside (_, out_of_band_runs id sell price qty b outside window, refl)
    ]

    -- On a book that represents `l`, with right cached best prices, a band of at most 2^32 - 64
    -- levels and no orders outside it, for a 32-bit quantity and a price that is in the band once
    -- the window has a base or a book of more than 64 orders, `insert_limit_order` returns for
    -- either side. For a price outside the band it returns `false` and the book with that base. For
    -- a price in the band, the book first gets the resting orders and the trades of the walk over
    -- the other side's levels up to the limit, the best one first. Then, where nothing is left,
    -- `false` is returned with that book; where the pool is used up, `false` is returned and the
    -- resting orders stay; else `true` is returned and what is left rests behind the orders at its
    -- price. At the end both cached best prices are right again.
    pub insert_limit_order-Placed :
        Returns (insert_limit_order id buy price qty b) (BuyPlaced id price qty b l)
        × Returns (insert_limit_order id sell price qty b) (SellPlaced id price qty b l)
    insert_limit_order-Placed = (buy-Placed, sell-Placed)
