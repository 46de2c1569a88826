-- ===== src/Book/Limit/Left.antt =====
-- What matching leaves of an order (the reference of src/core/OrderBook.cpp) is at most the order.
use nanomatch.Base.{ℕ, zero, suc, ◌+◌, ◌-◌, ◌≤◌, List, [], ◌∷◌, arith, update, min}
use nanomatch.Book.Reference.{Resting, fill_queue, sweep_up, sweep_down}

-- No more is left than there was.
pub fill_queue-le :
    (taker_id price remaining : ℕ) (os : List Resting)
    → (fill_queue taker_id price remaining os).remaining ≤ remaining
unfolding fill_queue
fill_queue-le taker_id price remaining [] = omega arith
fill_queue-le taker_id price remaining (o ∷ os) =
    ground (arith, fill_queue-le taker_id price (remaining - min remaining o.qty) os)

pub sweep_up-le :
    (taker_id : ℕ) (price : ℕ → ℕ) (remaining : ℕ) (row : ℕ → List Resting) (n at : ℕ)
    → (sweep_up taker_id price remaining row n at).remaining ≤ remaining
unfolding sweep_up
sweep_up-le taker_id price remaining row zero at = omega arith
sweep_up-le taker_id price remaining row (suc n) at =
    let done = fill_queue taker_id (price at) remaining (row at) in
    omega (
      arith,
      fill_queue-le taker_id (price at) remaining (row at),
      sweep_up-le taker_id price done.remaining (update row at done.queue) n (suc at),
    )

pub sweep_down-le :
    (taker_id : ℕ) (price : ℕ → ℕ) (remaining : ℕ) (row : ℕ → List Resting) (n limit : ℕ)
    → (sweep_down taker_id price remaining row n limit).remaining ≤ remaining
unfolding sweep_down
sweep_down-le taker_id price remaining row zero limit = omega arith
sweep_down-le taker_id price remaining row (suc n) limit =
    let done = fill_queue taker_id (price (limit + n)) remaining (row (limit + n)) in
    omega (
      arith,
      fill_queue-le taker_id (price (limit + n)) remaining (row (limit + n)),
      sweep_down-le taker_id price done.remaining (update row (limit + n) done.queue) n limit,
    )
