-- ===== src/Book/Sweep/MatchAsks.antt =====
-- The outer loop of `match_against_asks` (src/core/OrderBook.cpp) and the walk up the plain lists.
use nanomatch.Base.{
  ℕ, zero, suc, ◌+◌, ◌^◌, ◌≤◌, ◌<◌, ◌≡◌, ◌≢◌, inl, inr, refl, ap, sym, ◌∙◌, false, ◌||◌, Option,
  some, ◌>>=◌, [], ◌++◌, ltb, ◌==◌, arith, if◌then◌else◌, uint32_max, Returns, Bool-cases, ==-true,
  ==-false, eq_of_==, ne_of_==,
}
use mathlib.Core.List.{append_assoc, append-nil}
use nanomatch.Orders.{sell}
use nanomatch.Book.State.{Book, put, set_side}
use nanomatch.Book.Matching.{fill_level, after_level, sweep_asks, match_against_asks}
use nanomatch.Book.Reference.{Ladder, fills, fill_queue, sweep_up}
use nanomatch.Book.Reference.Up.{sweep_up-front, sweep_up-empty, sweep_up-zero}
use nanomatch.Book.Reference.Walk.{fill_queue-exhausts, unswept}
use nanomatch.Book.Represents.{Represents}
use nanomatch.Book.FillLevel.{Filled}
use nanomatch.Book.FillOrder.{Represents_along}
use nanomatch.Book.Sweep.{fill_whole_level}
use nanomatch.Book.Sweep.Asks.{AskTop, Inside}
use nanomatch.Book.Sweep.AskLevel.{
  SameShape, put_row, same_row, lower_levels, some_level, Inside-update, after_level-AskTop,
  moves_up,
}

module _ (taker_id limit : ℕ) (price : ℕ → ℕ) where
  -- The result of the loop, from the book `b` that stands for `l`.
  abbrev pub Asked : Book → Ladder → (remaining : ℕ) → ℕ × Book → Type 0
  Asked b l remaining out =
      let swept = sweep_up taker_id price remaining (l sell) (suc limit) 0 in
      (out.0 ≡ swept.remaining)
      × Represents out.1 (set_side l sell swept.row)
      × AskTop out.1 swept.row
      × SameShape b out.1
      × (fills out.1.trades ≡ fills b.trades ++ swept.made)

  -- Nothing is met: the taker has nothing left, or the asks are above the limit.
  unmet :
      (b : Book) (l : Ladder) (remaining : ℕ)
      → Represents b l
      → AskTop b (l sell)
      → sweep_up taker_id price remaining (l sell) (suc limit) 0 ≡ unswept remaining (l sell)
      → Asked b l remaining (remaining, b)
  unmet b l remaining r top e = rw e (
    refl,
    Represents_along b l _ (same_row l) r,
    top,
    record { best_bid = refl; bid_qty = refl; band = refl; base = refl; prices = λ _ _. refl },
    sym (append-nil (fills b.trades)),
  )

  -- The level at the best ask is met, and the loop goes on from `out`.
  met :
      (b : Book) (l : Ladder) (remaining : ℕ) (out fin : ℕ × Book)
      → b.tob.best_ask ≤ limit
      → ((j : ℕ) → j < b.tob.best_ask → l sell j ≡ [])
      → Filled sell b.tob.best_ask taker_id (price b.tob.best_ask) b l remaining out
      → (c : Book) → SameShape out.1 c
      → c.trades ≡ out.1.trades
      → Asked c
          (put l sell b.tob.best_ask
            (fill_queue taker_id (price b.tob.best_ask) remaining (l sell b.tob.best_ask)).queue)
          out.0
          fin
      → Asked b l remaining fin
  met b l remaining out fin near lower (f0, f1, f2, f3) c shape trades (s0, s1, s2, s3, s4) =
      let done = fill_queue taker_id (price b.tob.best_ask) remaining (l sell b.tob.best_ask) in
      rw (sweep_up-front taker_id price b.tob.best_ask limit remaining (l sell) near lower) (
        rw f0 at s0,
        Represents_along fin.1 _ _ (put_row l b.tob.best_ask done.queue _) (rw f0 at s1),
        rw f0 at s2,
        record {
          best_bid = s3.best_bid ∙ shape.best_bid ∙ ap (λ t. t.best_bid) f2.tob;
          bid_qty = s3.bid_qty ∙ shape.bid_qty ∙ ap (λ t. t.bid_qty) f2.tob;
          band = s3.band ∙ shape.band ∙ f2.band;
          base = s3.base ∙ shape.base ∙ f2.base;
          prices = λ sd at. s3.prices sd at ∙ shape.prices sd at ∙ f2.prices sd at;
        },
        s4 ∙ rw (trades, f3, f0) (append_assoc (fills b.trades) _ _),
      )

  -- Rounds that are enough: one for each level from the best ask on, and one to end.
  abbrev Enough : ℕ → Book → ℕ → Type 0
  Enough n b remaining =
      (0 < n) × (remaining ≢ 0 → b.tob.best_ask < b.band → b.band < n + b.tob.best_ask)

  -- The loop from a book on, with `n` rounds.
  abbrev Sweeps : ℕ → Type 0
  Sweeps n =
      (remaining : ℕ) (b : Book) (l : Ladder)
      → Enough n b remaining
      → Represents b l
      → AskTop b (l sell)
      → Inside b.band (l sell)
      → b.band + 64 ≤ 2 ^ 32
      → ((at : ℕ) → (b.levels sell at).price ≡ price at)
      → Returns (sweep_asks n taker_id limit remaining b) (Asked b l remaining)

  module _ (n remaining : ℕ) (b : Book) (l : Ladder) (enough : Enough (suc n) b remaining)
      (r : Represents b l) (top : AskTop b (l sell)) (inside : Inside b.band (l sell))
      (fits : b.band + 64 ≤ 2 ^ 32) (priced : (at : ℕ) → (b.levels sell at).price ≡ price at)
      (left : (remaining == 0) ≡ false) (near : b.tob.best_ask ≤ limit)
      (level : b.tob.best_ask < b.band) where
    abbrev at : ℕ
    at = b.tob.best_ask

    abbrev k : Ladder
    k = put l sell at (fill_queue taker_id (price at) remaining (l sell at)).queue

    k_lower : (j : ℕ) → j < at → k sell j ≡ []
    k_lower j p =
        rw (==-false {a = at} {b = j} (omega (arith, p))) (lower_levels b (l sell) top j p)

    k_here : k sell at ≡ (fill_queue taker_id (price at) remaining (l sell at)).queue
    k_here = rw (==-true {a = at} {b = at} refl) refl

    Enough-after :
        (c : Book) (rem : ℕ)
        → c.band ≡ b.band
        → AskTop c (k sell)
        → rem ≡ (fill_queue taker_id (price at) remaining (l sell at)).remaining
        → Enough n c rem
    Enough-after c rem band top' e =
        let start = enough.1 (ne_of_== remaining 0 left) level in
        (
          omega (arith, start, level),
          λ more inside'. elim (fill_queue-exhausts taker_id (price at) remaining (l sell at)) [
            | inl z ↦ absurd (more (e ∙ z))
            | inr gone ↦ elim (moves_up c (k sell) at k_lower (k_here ∙ gone) top') [
              | inl none_left ↦ absurd (omega (arith, none_left, inside', band, fits))
              | inr up ↦ omega (arith, up, band, start)
            ]
          ],
        )

    -- After the level at the best ask, from what its walk left.
    goes_on :
        Sweeps n
        → (out : ℕ × Book) → Filled sell at taker_id (price at) b l remaining out
        → Returns
            (sweep_asks n taker_id limit out.0 (after_level sell at out.1))
            (Asked b l remaining)
    goes_on go out (f0, f1, f2, f3) =
        let inside' : Inside out.1.band (k sell) =
          rw f2.band (Inside-update b.band at (l sell) _ level inside) in
        let best : out.1.tob.best_ask ≡ at = ap (λ t. t.best_ask) f2.tob in
        let (rep, top', shape, trades, _) =
          after_level-AskTop out.1 at best k f1 inside' (rw f2.band level) (rw f2.band fits)
            k_lower in
        let band = shape.band ∙ f2.band in
        let (fin, ran, asked) =
          go out.0 (after_level sell at out.1) k
            (Enough-after (after_level sell at out.1) out.0 band top' f0) rep top'
            (rw shape.band inside') (rw band fits)
            (λ j. shape.prices sell j ∙ f2.prices sell j ∙ priced j) in
        (
          fin,
          ran,
          met b l remaining out fin near (lower_levels b (l sell) top) (f0, f1, f2, f3)
              (after_level sell at out.1) shape trades asked,
        )

  one_round :
      (n remaining : ℕ) (b : Book) (out : ℕ × Book)
      → (remaining == 0) ≡ false
      → ltb limit b.tob.best_ask ≡ false
      → fill_level
          (suc b.pool.capacity)
          sell
          b.tob.best_ask
          taker_id
          (b.levels sell b.tob.best_ask).head_idx
          remaining
          b
        ≡ some out
      → sweep_asks (suc n) taker_id limit remaining b
        ≡ sweep_asks n taker_id limit out.0 (after_level sell b.tob.best_ask out.1)
  unfolding sweep_asks
  one_round n remaining b out left near filled =
      let next : ℕ × Book → Option (ℕ × Book) =
        λ r. sweep_asks n taker_id limit r.0 (after_level sell b.tob.best_ask r.1) in
      let goes : (remaining == 0 || ltb limit b.tob.best_ask) ≡ false = rw (left, near) refl in
      ap
        (λ stop.
          if stop
          then some (remaining, b)
          else (fill_level (suc b.pool.capacity) sell b.tob.best_ask taker_id
                (b.levels sell b.tob.best_ask).head_idx remaining b
              >>= next))
        goes
      ∙ ap (λ o. o >>= next) filled

  pub sweep_asks-sweep_up :
      (n remaining : ℕ) (b : Book) (l : Ladder)
      → Enough n b remaining
      → Represents b l
      → AskTop b (l sell)
      → Inside b.band (l sell)
      → b.band + 64 ≤ 2 ^ 32
      → limit < uint32_max
      → ((at : ℕ) → (b.levels sell at).price ≡ price at)
      → Returns (sweep_asks n taker_id limit remaining b) (Asked b l remaining)
  unfolding sweep_asks
  sweep_asks-sweep_up zero remaining b l enough r top inside fits low priced =
      absurd (omega (arith, enough.0))
  sweep_asks-sweep_up (suc n) remaining b l enough r top inside fits low priced =
      elim (Bool-cases (remaining == 0)) [
        | inl z ↦
            let e = eq_of_== remaining 0 z in
            (
              (remaining, b),
              rw z refl,
              unmet b l remaining r top
                  (rw e (sweep_up-zero taker_id price (suc limit) 0 (l sell))),
            )
        | inr left ↦ elim (Bool-cases (ltb limit b.tob.best_ask)) [
          | inl above ↦ (
            (remaining, b),
            rw (left, above) refl,
            unmet b l remaining r top (
                sweep_up-empty taker_id price (suc limit) 0 remaining (l sell)
                  (λ j _ p. lower_levels b (l sell) top j (ground (arith, p, above)))),
          )
          | inr near ↦
              let below : b.tob.best_ask ≤ limit = ground (arith, near) in
              let level = some_level b (l sell) top (omega (arith, below, low)) in
              let (out, filled, f) =
                fill_whole_level b l r sell b.tob.best_ask taker_id (price b.tob.best_ask) remaining
                  (priced b.tob.best_ask) in
              let (fin, ran, asked) =
                goes_on n remaining b l enough r top inside fits priced left below level
                  (λ rem c m e s t i f p. sweep_asks-sweep_up n rem c m e s t i f low p) out f in
              (fin, one_round n remaining b out left near filled ∙ ran, asked)
        ]
      ]

-- Where a book represents the resting orders `l`, the cached best ask is the lowest ask level with
-- orders, no ask rests outside the band, the band is at most 2^32 - 64 and the limit is below
-- `UINT32_MAX`, `match_against_asks` returns. The quantity left, the resting orders and the trades
-- are those of the walk up the plain lists from level 0 to the limit; the cached best ask is again
-- the lowest level with orders; the top of the bids, the band, the base and the prices of the
-- levels stay.
pub match_against_asks-sweep_up :
    (taker_id limit qty : ℕ) (b : Book) (l : Ladder)
    → Represents b l
    → AskTop b (l sell)
    → Inside b.band (l sell)
    → b.band + 64 ≤ 2 ^ 32
    → limit < uint32_max
    → Returns
        (match_against_asks taker_id limit qty b)
        (Asked taker_id limit (λ at. (b.levels sell at).price) b l qty)
unfolding match_against_asks
match_against_asks-sweep_up taker_id limit qty b l r top inside fits low =
    sweep_asks-sweep_up taker_id limit (λ at. (b.levels sell at).price) (b.band + 2) qty b l
      (omega arith, λ _ _. omega arith) r top inside fits low (λ _. refl)
