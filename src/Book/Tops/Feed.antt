-- ===== src/Book/Tops/Feed.antt =====
-- The cached best prices after `cancel_order`, `execute_order` and `reduce_order_qty` of
-- src/core/OrderBook.cpp.
use nanomatch.Base.{
  ℕ, ◌+◌, ◌-◌, ◌^◌, ◌≤◌, ◌<◌, ◌≡◌, ◌≢◌, refl, ap, sym, ◌∙◌, Bool, true, false, List, [], ◌∷◌, ◌++◌,
  ◌==◌, ltb, leb, if◌then◌else◌, some, ◌>>=◌, arith, Bool-cases, inl, inr, Returns, ==-false,
}
use nanomatch.IdMap
use nanomatch.Orders.{Side, buy, sell}
use nanomatch.Book.State.{Book, put, enqueue_trade, one_less_live}
use nanomatch.Book.Feed.{
  cancel_order, execute_order, reduce_order_qty, shrink_order, refresh_top, set_side_qty, best_of,
}
use nanomatch.Book.Reference.{Resting, Ladder}
use nanomatch.Book.Represents.{Represents, contents, contents-append}
use nanomatch.Book.FillOrder.{less_live-Represents}
use nanomatch.Book.TakeOut.{take_out-Represents}
use nanomatch.Book.Cancel.{cancel_order_runs}
use nanomatch.Book.Execute.{
  left, logged, partly, logged-Represents, reduce_order_qty_lem, execute_order_lem,
}
use nanomatch.Book.Sweep.Asks.{AskTop, Inside}
use nanomatch.Book.Sweep.Bids.{BidTop}
use nanomatch.Book.Tops.{Tops, Tops-along, append_some}
use nanomatch.Book.Tops.Refresh.{refresh_top-Tops}

-- What a book that loses quantity keeps.
record SameBest (b b' : Book) : Type 0 where
  ask : b'.tob.best_ask ≡ b.tob.best_ask
  bid : b'.tob.best_bid ≡ b.tob.best_bid
  band : b'.band ≡ b.band

set_side_qty-SameBest :
    (c : Bool) (s : Side) (q : ℕ) (b : Book) → SameBest b (if c then set_side_qty s q b else b)
set_side_qty-SameBest true buy q b = record { ask = refl; bid = refl; band = refl }
set_side_qty-SameBest true sell q b = record { ask = refl; bid = refl; band = refl }
set_side_qty-SameBest false s q b = record { ask = refl; bid = refl; band = refl }

shrink_order-SameBest : (x lost : ℕ) (b : Book) → SameBest b (shrink_order x lost b)
unfolding shrink_order
shrink_order-SameBest x lost b =
    let o = b.pool.slots x in
    let same = set_side_qty-SameBest (o.price == best_of o.side b.tob) o.side _ _ in
    record { ask = same.ask; bid = same.bid; band = same.band }

-- A level that has orders before and after.
module _ (b : Book) (at : ℕ) (os : List Resting) (some_left : os ≢ []) where
  abbrev written : (ℕ → List Resting) → ℕ → List Resting
  written row j = if at == j then os else row j

  written_some : (row : ℕ → List Resting) (j : ℕ) → row j ≢ [] → written row j ≢ []
  written_some row j some_there = elim (Bool-cases (at == j)) [
    | inl k ↦ rw k some_left
    | inr k ↦ rw k some_there
  ]

  written_none : (row : ℕ → List Resting) (j : ℕ) → row at ≢ [] → row j ≡ [] → written row j ≡ []
  written_none row j some_there none_there =
      rw (==-false {a = at} {b = j} (λ same. some_there (rw same none_there))) none_there

  written-AskTop : (row : ℕ → List Resting) → row at ≢ [] → AskTop b row → AskTop b (written row)
  written-AskTop row some_there (AskTop.at_level p q r) =
      AskTop.at_level p (written_some row b.tob.best_ask q)
        (λ j below. written_none row j some_there (r j below))
  written-AskTop row some_there (AskTop.no_level e all) = absurd (some_there (all at))

  written-BidTop : (row : ℕ → List Resting) → row at ≢ [] → BidTop b row → BidTop b (written row)
  written-BidTop row some_there (BidTop.at_level p q r) =
      BidTop.at_level p (written_some row b.tob.best_bid q)
        (λ j above. written_none row j some_there (r j above))
  written-BidTop row some_there (BidTop.no_level e all) = absurd (some_there (all at))

  written-Tops : (sd : Side) (l : Ladder) → l sd at ≢ [] → Tops b l → Tops b (put l sd at os)
  written-Tops buy l some_there t = record {
    asks = t.asks;
    bids = written-BidTop (l buy) some_there t.bids;
  }
  written-Tops sell l some_there t = record {
    asks = written-AskTop (l sell) some_there t.asks;
    bids = t.bids;
  }

module _ (b : Book) (l : Ladder) (r : Represents b l) (sd : Side) (at x : ℕ) (ys zs : List ℕ)
    (e : r.queues sd at ≡ ys ++ x ∷ zs) (tops : Tops b l) (fits : b.band + 64 ≤ 2 ^ 32)
    (inside : (t : Side) → Inside b.band (l t)) where
  some_there : l sd at ≢ []
  some_there none_there = append_some (contents b.pool.slots ys) _ (contents b.pool.slots zs) (
      sym (contents-append b.pool.slots ys (x ∷ zs))
      ∙ sym (ap (contents b.pool.slots) e)
      ∙ r.view sd at
      ∙ none_there)

  near : at < b.band
  near = elim (Bool-cases (ltb at b.band)) [
    | inl k ↦ ground (arith, k)
    | inr k ↦ absurd (some_there (inside sd at (ground (arith, k))))
  ]

  -- The top is refreshed on a book with the cached prices of `b`, once the order is out.
  refreshed :
      (os : List Resting) (c : Book)
      → SameBest b c
      → Represents c (put l sd at os)
      → Tops (refresh_top sd at c) (put l sd at os)
  refreshed os c same rep =
      refresh_top-Tops c at os l (omega (arith, near, same.band)) (omega (arith, fits, same.band))
        (Tops-along b c l same.ask same.bid same.band tops)
        (λ j far. inside sell j (omega (arith, far, same.band)))
        (λ j far. inside buy j (omega (arith, far, same.band))) sd some_there rep

  module _ (id : ℕ) (found : IdMap.find b.id_map id ≡ some x) where
    cancel-Tops :
        Returns (cancel_order id b) (λ b'. Tops b' (put l sd at (contents b.pool.slots (ys ++ zs))))
    cancel-Tops =
        let (c, ran, (rep, _, _, _, same, _, _, _)) =
          take_out-Represents sd at x id ys zs b l r e in
        (
          refresh_top sd at c,
          cancel_order_runs b l r id sd at x ys zs e found c ran,
          refreshed _ c
              (record {
                ask = ap (λ t. t.best_ask) same.tob;
                bid = ap (λ t. t.best_bid) same.tob;
                band = same.band;
              })
              rep,
        )

    module _ (lost : ℕ) where
      -- What the order's queue becomes.
      abbrev after : Ladder
      after = left b l r sd at x ys zs e id lost found

      -- The order that stays has less, in a book with the cached prices of `b`.
      shrunk :
          (c : Book)
          → SameBest b c
          → leb (b.pool.slots x).qty lost ≡ false
          → Tops (shrink_order x lost c) after
      shrunk c same part =
          let os =
            contents b.pool.slots ys
            ++ record { id = (b.pool.slots x).id; qty = (b.pool.slots x).qty - lost }
              ∷ contents b.pool.slots zs in
          let kept = shrink_order-SameBest x lost c in
          rw part (
            Tops-along b (shrink_order x lost c) (put l sd at os) (kept.ask ∙ same.ask)
              (kept.bid ∙ same.bid) (kept.band ∙ same.band)
              (written-Tops b at os
                (append_some (contents b.pool.slots ys) _ (contents b.pool.slots zs)) sd l
                some_there tops))

      reduce-Tops : Returns (reduce_order_qty id lost b) (λ out. Tops out.1 after)
      reduce-Tops = elim (Bool-cases (leb (b.pool.slots x).qty lost)) [
        | inl whole ↦
            let (c, ran, t) = cancel-Tops in
            (
              (true, c),
              reduce_order_qty_lem b l r sd at x ys zs e id lost found
                  ∙ rw whole (ap (λ q. q >>= λ b'. some (true, b')) ran),
              rw whole (rw (contents-append b.pool.slots ys zs) at t),
            )
        | inr part ↦ (
          (false, shrink_order x lost b),
          reduce_order_qty_lem b l r sd at x ys zs e id lost found ∙ rw part refl,
          shrunk b (record { ask = refl; bid = refl; band = refl }) part,
        )
      ]

      execute-Tops : Returns (execute_order id lost b) (λ out. Tops out.1 after)
      unfolding enqueue_trade
      execute-Tops = elim (Bool-cases (leb (b.pool.slots x).qty lost)) [
        | inl whole ↦
            let q = (b.pool.slots x).qty in
            let (lr, same) = logged-Represents b l r sd at x ys zs e id lost found q in
            let (c, ran, (rep, _, _, _, kept, _, _, _)) =
              take_out-Represents sd at x id ys zs (logged b l r sd at x ys zs e id lost found q) l
                lr (ap (λ q. q sd at) same ∙ e) in
            (
              (true, refresh_top sd at (one_less_live c)),
              execute_order_lem b l r sd at x ys zs e id lost found
                  ∙ rw whole
                      (ap (λ q. q >>= λ b'. some (true, refresh_top sd at (one_less_live b'))) ran),
              rw whole (
                  refreshed _ (one_less_live c)
                    (record {
                      ask = ap (λ t. t.best_ask) kept.tob;
                      bid = ap (λ t. t.best_bid) kept.tob;
                      band = kept.band;
                    })
                    (less_live-Represents c _ (rw (contents-append b.pool.slots ys zs) at rep))),
            )
        | inr part ↦ (
          (false, partly b l r sd at x ys zs e id lost found sd at),
          execute_order_lem b l r sd at x ys zs e id lost found ∙ rw part refl,
          shrunk (logged b l r sd at x ys zs e id lost found lost)
              (record { ask = refl; bid = refl; band = refl }) part,
        )
      ]

      -- On a book that represents `l`, with right cached best prices, a band of at most 2^32 - 64
      -- levels and no orders outside it, where the map gives slot `x` for the id and `x` is queued
      -- at a level, `cancel_order`, `reduce_order_qty` and `execute_order` return, and the cached
      -- best price of each side is again the best level with orders of the ladder that the order
      -- has left or shrunk in.
      pub feed-Tops :
          Returns
            (cancel_order id b)
            (λ b'. Tops b' (put l sd at (contents b.pool.slots (ys ++ zs))))
          × Returns (reduce_order_qty id lost b) (λ out. Tops out.1 after)
          × Returns (execute_order id lost b) (λ out. Tops out.1 after)
      feed-Tops = (cancel-Tops, reduce-Tops, execute-Tops)
