-- ===== src/Book/Reference.antt =====
-- What matching promises, with no pool, no links, no bitmap and no cached best price: for each side and
-- price index the resting orders in their order of arrival.
pub mod Walk
pub mod Up
pub mod Down
use nanomatch.Base.{ℕ, zero, suc, ◌+◌, ◌-◌, List, [], ◌∷◌, ◌++◌, ◌==◌, if◌then◌else◌, min, update}
use nanomatch.Orders.{Side, Trade}
use nanomatch.Book.State.{put}

pub record Resting : Type 0 where
  pub id : ℕ
  pub qty : ℕ

-- A trade without its time stamp.
pub record Fill : Type 0 where
  pub maker_id : ℕ
  pub taker_id : ℕ
  pub price : ℕ
  pub qty : ℕ

abbrev pub fill_of : Trade → Fill
fill_of t = record { maker_id = t.maker_id; taker_id = t.taker_id; price = t.price; qty = t.qty }

abbrev pub fills : List Trade → List Fill
fills [] = []
fills (t ∷ ts) = fill_of t ∷ fills ts

-- All resting orders.
abbrev pub Ladder : Type 0
Ladder = Side → ℕ → List Resting

-- What matching leaves: the open quantity of the taker, the queue, and the trades.
pub record Outcome : Type 0 where
  pub remaining : ℕ
  pub queue : List Resting
  pub made : List Fill

-- The taker trades with the front of the queue, until one of them is used up.
unfoldable pub fill_queue : (taker_id price remaining : ℕ) → List Resting → Outcome
fill_queue taker_id price remaining [] = record { remaining = remaining; queue = []; made = [] }
fill_queue taker_id price remaining (o ∷ os) =
    let m = min remaining o.qty in
    let fill : Fill = record { maker_id = o.id; taker_id = taker_id; price = price; qty = m } in
    let rest = fill_queue taker_id price (remaining - m) os in
    if remaining == 0
    then record { remaining = remaining; queue = o ∷ os; made = [] }
    else if o.qty - m == 0
    then record rest { made = fill ∷ rest.made }
    else record {
      remaining = remaining - m;
      queue = record o { qty = o.qty - m } ∷ os;
      made = fill ∷ [];
    }

-- The level prices of one side, and what a sweep leaves of them.
pub record Swept : Type 0 where
  pub remaining : ℕ
  pub row : ℕ → List Resting
  pub made : List Fill

-- The taker meets `n` levels, upwards from `at`.
unfoldable pub sweep_up :
    (taker_id : ℕ) (price : ℕ → ℕ) (remaining : ℕ) (row : ℕ → List Resting) (n at : ℕ) → Swept
unfolding fill_queue
sweep_up taker_id price remaining row zero at = record {
  remaining = remaining;
  row = row;
  made = [];
}
sweep_up taker_id price remaining row (suc n) at =
    let done = fill_queue taker_id (price at) remaining (row at) in
    let rest = sweep_up taker_id price done.remaining (update row at done.queue) n (suc at) in
    record rest { made = done.made ++ rest.made }

-- The taker meets `n` levels, downwards to `limit`.
unfoldable pub sweep_down :
    (taker_id : ℕ) (price : ℕ → ℕ) (remaining : ℕ) (row : ℕ → List Resting) (n limit : ℕ) → Swept
unfolding fill_queue
sweep_down taker_id price remaining row zero limit = record {
  remaining = remaining;
  row = row;
  made = [];
}
sweep_down taker_id price remaining row (suc n) limit =
    let at = limit + n in
    let done = fill_queue taker_id (price at) remaining (row at) in
    let rest = sweep_down taker_id price done.remaining (update row at done.queue) n limit in
    record rest { made = done.made ++ rest.made }
