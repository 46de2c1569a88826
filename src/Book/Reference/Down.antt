-- ===== src/Book/Reference/Down.antt =====
-- The walk downwards over the plain lists of one side.
use nanomatch.Base.{
  ℕ, zero, suc, ◌+◌, ◌-◌, ◌≤◌, ◌<◌, ◌≡◌, refl, ap, sym, ◌∙◌, List, [], update, arith, ==-true,
  ==-false,
}
use nanomatch.Book.Reference.{Resting, fill_queue, sweep_down}
use nanomatch.Book.Reference.Walk.{
  update_same, fill_queue-zero, fill_queue-settled, fill_queue-empty, unswept, before,
}

module _ (taker_id : ℕ) (price : ℕ → ℕ) where
  pub sweep_down-empty :
      (n limit remaining : ℕ) (row : ℕ → List Resting)
      → ((j : ℕ) → limit ≤ j → j < limit + n → row j ≡ [])
      → sweep_down taker_id price remaining row n limit ≡ unswept remaining row
  unfolding sweep_down
  sweep_down-empty zero limit remaining row none_there = refl
  sweep_down-empty (suc n) limit remaining row none_there =
      let here = none_there (limit + n) (omega arith) (omega arith) in
      rw
        (
          fill_queue-empty taker_id (price (limit + n)) remaining (row (limit + n)) here,
          update_same row (limit + n) (row (limit + n)) refl,
        )
        (rw (sweep_down-empty n limit remaining row (λ j a b. none_there j a (omega (arith, b))))
          refl)

  sweep_down-skip :
      (gap n m limit remaining : ℕ) (row : ℕ → List Resting)
      → m ≡ gap + n
      → ((j : ℕ) → limit + n ≤ j → j < limit + m → row j ≡ [])
      → sweep_down taker_id price remaining row m limit
        ≡ sweep_down taker_id price remaining row n limit
  unfolding sweep_down
  sweep_down-skip zero n m limit remaining row count none_there =
      let a : m ≡ n = omega (arith, count) in rw a refl
  sweep_down-skip (suc gap) n m limit remaining row count none_there =
      let a : m ≡ suc (gap + n) = omega (arith, count) in
      let here = none_there (limit + (gap + n)) (omega arith) (omega (arith, count)) in
      rw
        (
          a,
          fill_queue-empty taker_id (price (limit + (gap + n))) remaining (row (limit + (gap + n)))
              here,
          update_same row (limit + (gap + n)) (row (limit + (gap + n))) refl,
        )
        (sweep_down-skip gap n (gap + n) limit remaining row refl
          (λ j p q. none_there j p (omega (arith, q, count))))

  pub sweep_down-front :
      (at limit n remaining : ℕ) (row : ℕ → List Resting)
      → limit ≤ at
      → at < limit + n
      → ((j : ℕ) → at < j → j < limit + n → row j ≡ [])
      → let done = fill_queue taker_id (price at) remaining (row at) in
        sweep_down taker_id price remaining row n limit
        ≡ before done.made
            (sweep_down taker_id price done.remaining (update row at done.queue) n limit)
  unfolding sweep_down
  sweep_down-front at limit n remaining row inside below higher =
      let done = fill_queue taker_id (price at) remaining (row at) in
      let left = at - limit in
      let place : limit + left ≡ at = omega (arith, inside) in
      let settled = fill_queue-settled taker_id (price at) remaining (row at) in
      let twice : update (update row at done.queue) at done.queue ≡ update row at done.queue =
        update_same (update row at done.queue) at done.queue
          (rw (==-true {a = at} {b = at} refl) refl) in
      let second : sweep_down taker_id price done.remaining (update row at done.queue) n limit
          ≡ sweep_down taker_id price done.remaining (update row at done.queue) left limit =
        sweep_down-skip (n - suc left) (suc left) n limit done.remaining (update row at done.queue)
          (omega (arith, below, inside))
          (λ j p q.
            rw (==-false {a = at} {b = j} (omega (arith, p, place)))
              (higher j (omega (arith, p, place)) q))
        ∙ rw (place, ==-true {a = at} {b = at} refl, settled, twice) refl in
      sweep_down-skip (n - suc left) (suc left) n limit remaining row (omega (arith, below, inside))
        (λ j p. higher j (omega (arith, p, place)))
      ∙ rw place (ap (before done.made) (sym second))

  pub sweep_down-zero :
      (n limit : ℕ) (row : ℕ → List Resting)
      → sweep_down taker_id price 0 row n limit ≡ unswept 0 row
  unfolding sweep_down
  sweep_down-zero zero limit row = refl
  sweep_down-zero (suc n) limit row =
      rw
        (
          fill_queue-zero taker_id (price (limit + n)) (row (limit + n)),
          update_same row (limit + n) (row (limit + n)) refl,
        )
        (rw (sweep_down-zero n limit row) refl)
