-- ===== src/Pool.antt =====
-- `OrderPool` of src/core/OrderBook.hpp: a fixed array of orders, whose free slots are chained through
-- their `next_idx`. The array is a function of the index.
pub mod Fresh
use nanomatch.Base.{ℕ, zero, suc, ◌+◌, ◌==◌, if◌then◌else◌, update, sub32, null_idx}
use nanomatch.Orders.{Order, buy}

pub record Pool : Type 0 where
  pub slots : ℕ → Order
  pub free_head : ℕ
  pub capacity : ℕ

-- A page that `mmap` has just mapped holds zeros.
abbrev pub zeroed : Order
zeroed = record { id = 0; next_idx = 0; prev_idx = 0; price = 0; qty = 0; side = buy }

-- `for (i = 0; i < capacity_ - 1; ++i) pool_[i].next_idx = i + 1`, with `n` rounds left.
link_slots : (n i : ℕ) → (ℕ → Order) → ℕ → Order
link_slots zero i s = s
link_slots (suc n) i s = link_slots n (i + 1) (update s i (record (s i) { next_idx = i + 1 }))

unfoldable pub new : ℕ → Pool
unfolding link_slots
new capacity =
    let last = sub32 capacity 1 in
    let s = link_slots last 0 (λ _. zeroed) in
    record {
      slots = update s last (record (s last) { next_idx = null_idx });
      free_head = 0;
      capacity = capacity;
    }

-- The slot that is handed out, or `NULL_IDX` when there is none.
unfoldable pub allocate : Pool → ℕ × Pool
allocate p =
    if p.free_head == null_idx
    then (null_idx, p)
    else let idx = p.free_head in
      let o = p.slots idx in
      (
        idx,
        record p {
          slots = update p.slots idx (record o { next_idx = null_idx; prev_idx = null_idx });
          free_head = o.next_idx;
        },
      )

unfoldable pub deallocate : ℕ → Pool → Pool
deallocate idx p = record p {
  slots = update p.slots idx (record (p.slots idx) { next_idx = p.free_head });
  free_head = idx;
}
