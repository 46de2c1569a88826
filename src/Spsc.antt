-- ===== src/Spsc.antt =====
-- `SPSCQueue` (src/logging/SPSCQueue.hpp): a bounded queue for one producer and one consumer.
pub mod Index
pub mod Window
pub mod Moves
pub mod Calls
pub mod Threads
use nanomatch.Base.{
  ℕ, ◌+◌, ◌-◌, ◌%◌, ◌^◌, Bool, true, false, Option, none, some, ◌==◌, leb, if◌then◌else◌, update,
  u64, bit_and,
}

-- `a - b` on `size_t`
abbrev pub sub64 : ℕ → ℕ → ℕ
sub64 a b = (a + 2 ^ 64 - b) % 2 ^ 64

-- `head` and `tail` are the atomics `head_` and `tail_`. The producer alone has `head_cached` and
-- `tail_cached`, and the consumer alone `tail_cached_consumer` and `head_cached_consumer`.
pub record SpscQueue {ℓ} (A : Type ℓ) : Type ℓ where
  pub head : ℕ
  pub tail : ℕ
  pub head_cached : ℕ
  pub tail_cached : ℕ
  pub tail_cached_consumer : ℕ
  pub head_cached_consumer : ℕ
  pub buffer : ℕ → A

-- The constructor, over the memory that it gets.
abbrev pub new {ℓ} : {A : Type ℓ} → (ℕ → A) → SpscQueue A
new memory = record {
  head = 0;
  tail = 0;
  head_cached = 0;
  tail_cached = 0;
  tail_cached_consumer = 0;
  head_cached_consumer = 0;
  buffer = memory;
}

-- `i & (Capacity - 1)`
abbrev pub slot : (capacity i : ℕ) → ℕ
slot capacity i = bit_and i (capacity - 1)

-- `(tail - head_cached_) >= Capacity`
abbrev pub seems_full {ℓ} : {A : Type ℓ} → ℕ → SpscQueue A → Bool
seems_full capacity q = leb capacity (sub64 q.tail_cached q.head_cached)

-- `head == tail_cached_consumer_`
abbrev pub seems_empty {ℓ} : {A : Type ℓ} → SpscQueue A → Bool
seems_empty q = q.head_cached_consumer == q.tail_cached_consumer

abbrev pub load_head {ℓ} : {A : Type ℓ} → SpscQueue A → SpscQueue A
load_head q = record q { head_cached = q.head }

abbrev pub load_tail {ℓ} : {A : Type ℓ} → SpscQueue A → SpscQueue A
load_tail q = record q { tail_cached_consumer = q.tail }

abbrev pub write_slot {ℓ} : {A : Type ℓ} → ℕ → A → SpscQueue A → SpscQueue A
write_slot capacity item q = record q {
  buffer = update q.buffer (slot capacity q.tail_cached) item;
}

abbrev pub publish_tail {ℓ} : {A : Type ℓ} → SpscQueue A → SpscQueue A
publish_tail q = record q { tail = u64 (q.tail_cached + 1); tail_cached = u64 (q.tail_cached + 1) }

abbrev pub read_slot {ℓ} : {A : Type ℓ} → ℕ → SpscQueue A → A
read_slot capacity q = q.buffer (slot capacity q.head_cached_consumer)

abbrev pub release_head {ℓ} : {A : Type ℓ} → SpscQueue A → SpscQueue A
release_head q = record q {
  head = u64 (q.head_cached_consumer + 1);
  head_cached_consumer = u64 (q.head_cached_consumer + 1);
}

-- The end of `emplace`, where there is room.
abbrev pub put {ℓ} : {A : Type ℓ} → ℕ → A → SpscQueue A → Bool × SpscQueue A
put capacity item q = (true, publish_tail (write_slot capacity item q))

unfoldable pub emplace {ℓ} : {A : Type ℓ} → ℕ → A → SpscQueue A → Bool × SpscQueue A
emplace capacity item q =
    if seems_full capacity q
    then (if seems_full capacity (load_head q)
        then (false, load_head q)
        else put capacity item (load_head q))
    else put capacity item q

-- The end of `pop`, where there is an item.
abbrev pub take {ℓ} : {A : Type ℓ} → ℕ → SpscQueue A → Option A × SpscQueue A
take capacity q = (some (read_slot capacity q), release_head q)

-- `item` is the result: `none` is `false`.
unfoldable pub pop {ℓ} : {A : Type ℓ} → ℕ → SpscQueue A → Option A × SpscQueue A
pop capacity q =
    if seems_empty q
    then (if seems_empty (load_tail q) then (none, load_tail q) else take capacity (load_tail q))
    else take capacity q
