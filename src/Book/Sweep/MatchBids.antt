-- ===== src/Book/Sweep/MatchBids.antt =====
-- The outer loop of `match_against_bids` (src/core/OrderBook.cpp) and the walk down the plain lists.
use nanomatch.Base.{
  ℕ, zero, suc, ◌+◌, ◌^◌, ◌≤◌, ◌<◌, ◌≡◌, ◌≢◌, inl, inr, refl, ap, sym, ◌∙◌, false, ◌||◌, ◌-◌, Bool,
  true, Option, some, ◌>>=◌, [], ◌++◌, ltb, ◌==◌, arith, if◌then◌else◌, uint32_max, Returns,
  Bool-cases, ==-true, ==-false, eq_of_==, ne_of_==,
}
use mathlib.Core.List.{append_assoc, append-nil}
use nanomatch.Orders.{buy, is_empty}
use nanomatch.Book.State.{Book, put, set_side}
use nanomatch.Book.Matching.{fill_level, after_level, sweep_bids, match_against_bids}
use nanomatch.Book.Reference.{Ladder, fills, fill_queue, sweep_down}
use nanomatch.Book.Reference.Down.{sweep_down-front, sweep_down-empty, sweep_down-zero}
use nanomatch.Book.Reference.Walk.{fill_queue-exhausts, unswept}
use nanomatch.Book.Represents.{Represents}
use nanomatch.Book.FillLevel.{Filled}
use nanomatch.Book.FillOrder.{Represents_along}
use nanomatch.Book.Sweep.{empty_of_level, fill_whole_level}
use nanomatch.Book.Sweep.AskLevel.{Inside-update}
use nanomatch.Book.Sweep.Asks.{Inside}
use nanomatch.Book.Sweep.Bids.{BidTop}
use nanomatch.Book.Sweep.BidLevel.{
  SameBidShape, put_row, same_row, higher_levels, some_level, full_level, no_bids,
  after_level-BidTop, moves_down,
}

module _ (taker_id limit count : ℕ) (price : ℕ → ℕ) where
  -- The result of the loop, from the book `b` that stands for `l`.
  abbrev pub Hit : Book → Ladder → (remaining : ℕ) → ℕ × Book → Type 0
  Hit b l remaining out =
      let swept = sweep_down taker_id price remaining (l buy) count limit in
      (out.0 ≡ swept.remaining)
      × Represents out.1 (set_side l buy swept.row)
      × BidTop out.1 swept.row
      × SameBidShape b out.1
      × (fills out.1.trades ≡ fills b.trades ++ swept.made)

  -- Nothing is met: the taker has nothing left, or the bids are below the limit.
  unmet :
      (b : Book) (l : Ladder) (remaining : ℕ)
      → Represents b l
      → BidTop b (l buy)
      → sweep_down taker_id price remaining (l buy) count limit ≡ unswept remaining (l buy)
      → Hit b l remaining (remaining, b)
  unmet b l remaining r top e = rw e (
    refl,
    Represents_along b l _ (same_row l) r,
    top,
    record { best_ask = refl; ask_qty = refl; band = refl; base = refl; prices = λ _ _. refl },
    sym (append-nil (fills b.trades)),
  )

  -- The level at the best bid is met, and the loop goes on from `out`.
  met :
      (b : Book) (l : Ladder) (remaining : ℕ) (out fin : ℕ × Book)
      → limit ≤ b.tob.best_bid
      → b.tob.best_bid < limit + count
      → ((j : ℕ) → b.tob.best_bid < j → l buy j ≡ [])
      → Filled buy b.tob.best_bid taker_id (price b.tob.best_bid) b l remaining out
      → (c : Book) → SameBidShape out.1 c
      → c.trades ≡ out.1.trades
      → Hit c
          (put l buy b.tob.best_bid
            (fill_queue taker_id (price b.tob.best_bid) remaining (l buy b.tob.best_bid)).queue)
          out.0
          fin
      → Hit b l remaining fin
  met b l remaining out fin near below higher (f0, f1, f2, f3) c shape trades (s0, s1, s2, s3, s4) =
      let done = fill_queue taker_id (price b.tob.best_bid) remaining (l buy b.tob.best_bid) in
      rw
        (sweep_down-front taker_id price b.tob.best_bid limit count remaining (l buy) near below
          (λ j p _. higher j p))
        (
          rw f0 at s0,
          Represents_along fin.1 _ _ (put_row l b.tob.best_bid done.queue _) (rw f0 at s1),
          rw f0 at s2,
          record {
            best_ask = s3.best_ask ∙ shape.best_ask ∙ ap (λ t. t.best_ask) f2.tob;
            ask_qty = s3.ask_qty ∙ shape.ask_qty ∙ ap (λ t. t.ask_qty) f2.tob;
            band = s3.band ∙ shape.band ∙ f2.band;
            base = s3.base ∙ shape.base ∙ f2.base;
            prices = λ sd at. s3.prices sd at ∙ shape.prices sd at ∙ f2.prices sd at;
          },
          s4 ∙ rw (trades, f3, f0) (append_assoc (fills b.trades) _ _),
        )

  -- Rounds that are enough: one for each level from the best bid on, and one to end.
  abbrev Enough : ℕ → Book → ℕ → Type 0
  Enough n b remaining =
      (0 < n) × (remaining ≢ 0 → b.tob.best_bid < b.band → suc b.tob.best_bid < n)

  -- The loop from a book on, with `n` rounds.
  abbrev Sweeps : ℕ → Type 0
  Sweeps n =
      (remaining : ℕ) (b : Book) (l : Ladder)
      → Enough n b remaining
      → Represents b l
      → BidTop b (l buy)
      → Inside b.band (l buy)
      → b.band + 64 ≤ 2 ^ 32
      → b.band ≤ limit + count
      → ((at : ℕ) → (b.levels buy at).price ≡ price at)
      → Returns (sweep_bids n taker_id limit remaining b) (Hit b l remaining)

  module _ (n remaining : ℕ) (b : Book) (l : Ladder) (enough : Enough (suc n) b remaining)
      (r : Represents b l) (top : BidTop b (l buy)) (inside : Inside b.band (l buy))
      (fits : b.band + 64 ≤ 2 ^ 32) (priced : (at : ℕ) → (b.levels buy at).price ≡ price at)
      (left : (remaining == 0) ≡ false) (near : limit ≤ b.tob.best_bid)
      (wide : b.band ≤ limit + count) (level : b.tob.best_bid < b.band) where
    abbrev at : ℕ
    at = b.tob.best_bid

    abbrev k : Ladder
    k = put l buy at (fill_queue taker_id (price at) remaining (l buy at)).queue

    k_higher : (j : ℕ) → at < j → k buy j ≡ []
    k_higher j p =
        rw (==-false {a = at} {b = j} (omega (arith, p))) (higher_levels b (l buy) top j p)

    k_here : k buy at ≡ (fill_queue taker_id (price at) remaining (l buy at)).queue
    k_here = rw (==-true {a = at} {b = at} refl) refl

    Enough-after :
        (c : Book) (rem : ℕ)
        → c.band ≡ b.band
        → BidTop c (k buy)
        → rem ≡ (fill_queue taker_id (price at) remaining (l buy at)).remaining
        → Enough n c rem
    Enough-after c rem band top' e =
        let start = enough.1 (ne_of_== remaining 0 left) level in
        (
          omega (arith, start, level),
          λ more inside'. elim (fill_queue-exhausts taker_id (price at) remaining (l buy at)) [
            | inl z ↦ absurd (more (e ∙ z))
            | inr gone ↦ elim (moves_down c (k buy) at k_higher (k_here ∙ gone) top') [
              | inl none_left ↦ absurd (omega (arith, none_left, inside', band, fits))
              | inr down ↦ omega (arith, down, start)
            ]
          ],
        )

    -- After the level at the best bid, from what its walk left.
    goes_on :
        Sweeps n
        → (out : ℕ × Book) → Filled buy at taker_id (price at) b l remaining out
        → Returns (sweep_bids n taker_id limit out.0 (after_level buy at out.1)) (Hit b l remaining)
    goes_on go out (f0, f1, f2, f3) =
        let inside' : Inside out.1.band (k buy) =
          rw f2.band (Inside-update b.band at (l buy) _ level inside) in
        let best : out.1.tob.best_bid ≡ at = ap (λ t. t.best_bid) f2.tob in
        let (rep, top', shape, trades, _) =
          after_level-BidTop out.1 at best k f1 inside' (rw f2.band level) (rw f2.band fits)
            k_higher in
        let band = shape.band ∙ f2.band in
        let (fin, ran, asked) =
          go out.0 (after_level buy at out.1) k
            (Enough-after (after_level buy at out.1) out.0 band top' f0) rep top'
            (rw shape.band inside') (rw band fits) (rw band wide)
            (λ j. shape.prices buy j ∙ f2.prices buy j ∙ priced j) in
        (
          fin,
          ran,
          met b l remaining out fin near (omega (arith, level, wide)) (higher_levels b (l buy) top)
              (f0, f1, f2, f3) (after_level buy at out.1) shape trades asked,
        )

  -- Why the loop ends before a level, in the order of its tests.
  abbrev stops : Book → ℕ → Bool
  stops b remaining =
      remaining == 0
      || (b.tob.best_bid == uint32_max || ltb b.tob.best_bid limit)
      || is_empty (b.levels buy b.tob.best_bid)

  abbrev rounds : ℕ → ℕ → Book → Option (ℕ × Book)
  rounds n remaining b =
      fill_level (suc b.pool.capacity) buy b.tob.best_bid taker_id
        (b.levels buy b.tob.best_bid).head_idx remaining b
      >>= λ r. sweep_bids n taker_id limit r.0 (after_level buy b.tob.best_bid r.1)

  three_tests {ℓ} :
      {A : Type ℓ} (p q r : Bool) (x y : A)
      → (if p then x else if q then x else if r then x else y) ≡ (if p || q || r then x else y)
  three_tests true q r x y = refl
  three_tests false true r x y = refl
  three_tests false false r x y = refl

  sweep_bids_lem :
      (n remaining : ℕ) (b : Book)
      → sweep_bids (suc n) taker_id limit remaining b
        ≡ (if stops b remaining then some (remaining, b) else rounds n remaining b)
  unfolding sweep_bids
  sweep_bids_lem n remaining b =
      three_tests (remaining == 0) (b.tob.best_bid == uint32_max || ltb b.tob.best_bid limit)
        (is_empty (b.levels buy b.tob.best_bid)) (some (remaining, b)) (rounds n remaining b)

  -- A taker with nothing left, a best bid under the limit and a book with no bids all end the loop.
  stopped :
      (b : Book) (l : Ladder) (remaining : ℕ)
      → Represents b l
      → BidTop b (l buy)
      → b.band ≤ uint32_max
      → stops b remaining ≡ true
      → Hit b l remaining (remaining, b)
  stopped b l remaining r top fits stop = elim (Bool-cases (remaining == 0)) [
    | inl z ↦
        unmet b l remaining r top
          (rw (eq_of_== remaining 0 z) (sweep_down-zero taker_id price count limit (l buy)))
    | inr left ↦ elim (Bool-cases (b.tob.best_bid == uint32_max)) [
      | inl none_there ↦ unmet b l remaining r top (
          sweep_down-empty taker_id price count limit remaining (l buy)
            (λ j _ _. no_bids b (l buy) top (eq_of_== _ _ none_there) fits j))
      | inr some_bid ↦ elim (Bool-cases (ltb b.tob.best_bid limit)) [
        | inl under ↦ unmet b l remaining r top (
            sweep_down-empty taker_id price count limit remaining (l buy)
              (λ j p _. higher_levels b (l buy) top j (ground (arith, under, p))))
        | inr near ↦ absurd (
            full_level b (l buy) top (ne_of_== _ _ some_bid) (
              empty_of_level b l r buy b.tob.best_bid (ground (arith, stop, left, some_bid, near))))
      ]
    ]
  ]

  pub sweep_bids-sweep_down :
      (n remaining : ℕ) (b : Book) (l : Ladder)
      → Enough n b remaining
      → Represents b l
      → BidTop b (l buy)
      → Inside b.band (l buy)
      → b.band + 64 ≤ 2 ^ 32
      → b.band ≤ limit + count
      → ((at : ℕ) → (b.levels buy at).price ≡ price at)
      → Returns (sweep_bids n taker_id limit remaining b) (Hit b l remaining)
  sweep_bids-sweep_down zero remaining b l enough r top inside fits wide priced =
      absurd (omega (arith, enough.0))
  sweep_bids-sweep_down (suc n) remaining b l enough r top inside fits wide priced =
      let shape = sweep_bids_lem n remaining b in
      elim (Bool-cases (stops b remaining)) [
        | inl stop ↦ (
          (remaining, b),
          shape ∙ rw stop refl,
          stopped b l remaining r top (omega (arith, fits)) stop,
        )
        | inr go ↦
            let left : (remaining == 0) ≡ false = ground (arith, go) in
            let some_bid : (b.tob.best_bid == uint32_max) ≡ false = ground (arith, go) in
            let near : limit ≤ b.tob.best_bid = ground (arith, go) in
            let level = some_level b (l buy) top (ne_of_== _ _ some_bid) in
            let (out, filled, f) =
              fill_whole_level b l r buy b.tob.best_bid taker_id (price b.tob.best_bid) remaining
                (priced b.tob.best_bid) in
            let (fin, ran, asked) =
              goes_on n remaining b l enough r top inside fits priced left near wide level
                (λ rem c m e s t i f w p. sweep_bids-sweep_down n rem c m e s t i f w p) out f in
            (
              fin,
              shape
                  ∙ ap (λ stop. if stop then some (remaining, b) else rounds n remaining b) go
                  ∙ ap
                      (λ o. o >>= λ r.
                        sweep_bids n taker_id limit r.0 (after_level buy b.tob.best_bid r.1))
                      filled
                  ∙ ran,
              asked,
            )
      ]

-- Where a book represents the resting orders `l`, the cached best bid is the highest bid level with
-- orders, no bid rests outside the band, and the band is at most 2^32 - 64, `match_against_bids`
-- returns. The quantity left, the resting orders and the trades are those of the walk down the
-- plain lists from the last level of the band to the limit; the cached best bid is again the
-- highest level with orders; the top of the asks, the band, the base and the prices of the levels
-- stay.
pub match_against_bids-sweep_down :
    (taker_id limit qty : ℕ) (b : Book) (l : Ladder)
    → Represents b l
    → BidTop b (l buy)
    → Inside b.band (l buy)
    → b.band + 64 ≤ 2 ^ 32
    → Returns
        (match_against_bids taker_id limit qty b)
        (Hit taker_id limit (b.band - limit) (λ at. (b.levels buy at).price) b l qty)
unfolding match_against_bids
match_against_bids-sweep_down taker_id limit qty b l r top inside fits =
    sweep_bids-sweep_down taker_id limit (b.band - limit) (λ at. (b.levels buy at).price)
      (b.band + 2) qty b l (omega arith, λ _ p. omega (arith, p)) r top inside fits (omega arith)
      (λ _. refl)
