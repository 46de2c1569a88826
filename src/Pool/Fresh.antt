-- ===== src/Pool/Fresh.antt =====
-- The constructor of `OrderPool` (src/core/OrderBook.hpp) chains all slots.
use nanomatch.Base.{
  ℕ, zero, suc, ◌+◌, ◌-◌, ◌≤◌, ◌<◌, ◌≡◌, ◌&&◌, List, [], ◌∷◌, ◌==◌, ltb, leb, if◌then◌else◌, update,
  sub32, null_idx, arith,
}
use nanomatch.Orders.{Order}
use nanomatch.Pool.{zeroed, link_slots}
use nanomatch.Pool
use nanomatch.Queue.{has, Distinct}

-- `i`, `i + 1` and so on, `n` of them.
abbrev pub count_up : (i n : ℕ) → List ℕ
count_up i zero = []
count_up i (suc n) = i ∷ count_up (suc i) n

pub has-count_up : (x i n : ℕ) → has x (count_up i n) ≡ (leb i x && ltb x (i + n))
has-count_up x i zero = ground arith
has-count_up x i (suc n) = ground (arith, has-count_up x (suc i) n)

pub Distinct-count_up : (i n : ℕ) → Distinct (count_up i n)
Distinct-count_up i zero = tt
Distinct-count_up i (suc n) =
    (ground (arith, has-count_up i (suc i) n), Distinct-count_up (suc i) n)

link_slots_next :
    (n i : ℕ) (s : ℕ → Order) (j : ℕ)
    → (link_slots n i s j).next_idx ≡ (if leb i j && ltb j (i + n) then j + 1 else (s j).next_idx)
unfolding link_slots
link_slots_next zero i s j = ground arith
link_slots_next (suc n) i s j =
    ground (arith, link_slots_next n (i + 1) (update s i (record (s i) { next_idx = i + 1 })) j)

pub new_next :
    (cap j : ℕ)
    → 0 < cap
    → cap ≤ null_idx
    → j < cap
    → ((Pool.new cap).slots j).next_idx ≡ (if suc j == cap then null_idx else suc j)
unfolding Pool.new
new_next cap j some_slot fits inside =
    let last : sub32 cap 1 ≡ cap - 1 = omega (arith, some_slot, fits) in
    rw last (ground (arith, link_slots_next (cap - 1) 0 (λ _. zeroed) j))
