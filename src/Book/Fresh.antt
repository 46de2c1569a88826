-- ===== src/Book/Fresh.antt =====
-- The constructor of `OrderBook` (src/core/OrderBook.cpp).
use nanomatch.Base.{
  ℕ, zero, suc, ◌+◌, ◌≤◌, ◌<◌, ◌≡◌, refl, ap, sym, leb, false, ◌^◌, ◌*◌, [], ◌==◌, if◌then◌else◌,
  u32, null_idx, arith, ==-false, ◌%◌,
}
use mathlib.Core.Path.{subst}
use nanomatch.Bits.{bit-zero_word}
use nanomatch.IdMap
use nanomatch.IdMap.Probe.{IsTable, capacity_pos}
use nanomatch.IdMap.Power.{IsLeastPower, round_up_pow2-IsLeastPower, new-IsTable}
use nanomatch.Orders.{new_level}
use nanomatch.Pool
use nanomatch.Pool.Fresh.{count_up, has-count_up, Distinct-count_up, new_next}
use nanomatch.Queue.{Slots}
use nanomatch.Book.State.{Book}
use nanomatch.Book.State
use nanomatch.Book.Invariant.{FreeChain, Holds}
use nanomatch.Book.Represents.{Represents}

pub chain_from :
    (cap : ℕ)
    → 0 < cap
    → cap ≤ null_idx
    → (n i : ℕ) → i + n ≡ cap
    → FreeChain (Pool.new cap).slots (if i == cap then null_idx else i) (count_up i n)
chain_from cap some_slot fits zero i e = ground (arith, e)
chain_from cap some_slot fits (suc n) i e =
    let next = new_next cap i some_slot fits (omega (arith, e)) in
    (
      ground (arith, e),
      omega (arith, e, fits),
      rw next (chain_from cap some_slot fits n (suc i) (omega (arith, e))),
    )

pub fresh-Holds :
    (s : Slots) (cap : ℕ)
    → FreeChain s 0 (count_up 0 cap)
    → cap ≤ null_idx
    → Holds s 0 cap (λ _ _. new_level) (λ _ _. 0) (λ _ _. []) (count_up 0 cap)
fresh-Holds s cap chained fits = record {
  level = λ sd i. record { linked = (refl, refl); volume = refl; count = refl; orders = λ x m. cc };
  distinct = λ _ _. tt;
  queued_inside = λ _ _ x m. cc;
  chain = chained;
  free_distinct = Distinct-count_up 0 cap;
  free_inside = λ x m. ground (arith, has-count_up x 0 cap, m);
  apart = λ _ _ _ _. refl;
  active = λ sd i. bit-zero_word (i % 64);
  words = λ _ _. omega arith;
  room = fits;
}

-- The two functions of this name agree.
round_up_pow2-same : (v : ℕ) → State.round_up_pow2 v ≡ IdMap.round_up_pow2 v
unfolding State.round_up_pow2 IdMap.round_up_pow2
round_up_pow2-same zero = refl
round_up_pow2-same (suc zero) = refl
round_up_pow2-same (suc (suc n)) =
    let large : leb (suc (suc n)) 1 ≡ false = ground arith in
    let some_of : (suc (suc n) == 0) ≡ false = ground arith in rw (large, some_of) refl

-- For an argument of at most 2^31, `round_up_pow2` of `IdMap` and the function of this name beside
-- the constructor give the least power of two that is not below it.
pub round_up_pow2-least :
    (v : ℕ)
    → v ≤ 2 ^ 31
    → IsLeastPower v (IdMap.round_up_pow2 v) × IsLeastPower v (State.round_up_pow2 v)
round_up_pow2-least v narrow =
    let both = round_up_pow2-IsLeastPower v narrow in
    (both, subst (IsLeastPower v) (sym (round_up_pow2-same v)) both)

fresh-IsTable :
    (price_band max_orders : ℕ) (clock : ℕ → ℕ)
    → IsTable (State.new price_band max_orders clock).id_map
unfolding State.new
fresh-IsTable price_band max_orders clock =
    let double = u32 (u32 max_orders * 2) in
    subst (λ c. IsTable (IdMap.new c)) (sym (round_up_pow2-same double))
      (new-IsTable double (omega arith))

-- Where there are between 1 and 2^32 - 1 orders, a new book represents the ladder with no resting
-- order, and its free list is all slots of the pool, from 0 on.
pub new-Represents :
    (price_band max_orders : ℕ) (clock : ℕ → ℕ)
    → 0 < max_orders
    → max_orders ≤ null_idx
    → (rep : Represents (State.new price_band max_orders clock) (λ _ _. [])) × (rep.free
        ≡ count_up 0 max_orders)
unfolding State.new
new-Represents price_band max_orders clock some_slot fits =
    let cap : u32 max_orders ≡ max_orders = omega (arith, fits) in
    let table = fresh-IsTable price_band max_orders clock in
    let chained =
      chain_from (u32 max_orders) (rw cap some_slot) (rw cap fits) (u32 max_orders) 0
        (omega arith) in
    (
      record {
        queues = λ _ _. [];
        free = count_up 0 (u32 max_orders);
        book =
            fresh-Holds (Pool.new (u32 max_orders)).slots (u32 max_orders)
              (rw (==-false {a = 0} {b = u32 max_orders} (rw cap (omega (arith, some_slot)))) at
                chained)
              (rw cap fits);
        table = table;
        room = record { slot = 0; inside = capacity_pos _ table; vacant = refl };
        view = λ _ _. refl;
      },
      ap (count_up 0) cap,
    )
