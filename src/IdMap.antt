-- ===== src/IdMap.antt =====
-- `IdMap` of src/core/OrderBook.hpp: an open-addressing table from order ids to slots of the pool.
-- The vector of entries is a function of the index. A probe loop runs on `capacity` rounds of fuel,
-- one for each entry: `none` is a loop that has seen every entry and would go on for ever.
pub mod Lookup
pub mod Lost
pub mod Probe
pub mod Ends
pub mod Power
use nanomatch.Base.{
  ℕ, zero, suc, ◌+◌, ◌*◌, Bool, ◌||◌, Option, none, some, ◌>>=◌, ◌==◌, leb, if◌then◌else◌, update,
  bit_and, bit_or, bit_xor, u32, u64, sub32, null_idx, ◌>>>◌,
}

pub record Entry : Type 0 where
  pub key : ℕ
  pub val : ℕ

abbrev pub empty : ℕ
empty = null_idx

pub record IdMap : Type 0 where
  pub capacity : ℕ
  pub mask : ℕ
  pub entries : ℕ → Entry

-- The five doubling steps that fill the bits below the highest one.
unfoldable pub smear : ℕ → ℕ
smear v =
    let a = bit_or v (v >>> 1) in
    let b = bit_or a (a >>> 2) in
    let c = bit_or b (b >>> 4) in let d = bit_or c (c >>> 8) in bit_or d (d >>> 16)

unfoldable pub round_up_pow2 : ℕ → ℕ
unfolding smear
round_up_pow2 v = if leb v 1 then 1 else u32 (smear (sub32 v 1) + 1)

unfoldable pub new : ℕ → IdMap
unfolding round_up_pow2
new cap =
    let capacity = round_up_pow2 cap in
    record {
      capacity = capacity;
      mask = sub32 capacity 1;
      entries = λ _. record { key = 0; val = empty };
    }

-- Murmur's finalizer.
unfoldable pub hash : ℕ → ℕ
hash key =
    let a = bit_xor key (key >>> 33) in
    let b = u64 (a * 0xff51afd7ed558ccd) in u32 (bit_xor b (b >>> 33))

-- `hash(key) & mask_`
unfoldable pub home : IdMap → ℕ → ℕ
unfolding hash
home m key = bit_and (hash key) m.mask

-- `(slot + 1) & mask_`
unfoldable pub next_slot : IdMap → ℕ → ℕ
next_slot m slot = bit_and (slot + 1) m.mask

-- A slot where the probe loop of `insert` and `erase` stops.
abbrev pub stops : IdMap → ℕ → ℕ → Bool
stops m key slot = (m.entries slot).val == empty || (m.entries slot).key == key

unfoldable pub probe : IdMap → (fuel key slot : ℕ) → Option ℕ
probe m zero key slot = none
probe m (suc n) key slot =
    let rest = probe m n key (next_slot m slot) in if stops m key slot then some slot else rest

unfoldable pub insert : IdMap → (key val : ℕ) → Option IdMap
insert m key val = probe m m.capacity key (home m key) >>= λ slot.
    some (record m { entries = update m.entries slot (record { key = key; val = val }) })

unfoldable pub find_from : IdMap → (fuel key slot : ℕ) → Option ℕ
find_from m zero key slot = none
find_from m (suc n) key slot =
    let rest = find_from m n key (next_slot m slot) in
    let e = m.entries slot in
    if e.val == empty then some empty else if e.key == key then some e.val else rest

-- `EMPTY` for a key that is not there.
unfoldable pub find : IdMap → ℕ → Option ℕ
find m key = find_from m m.capacity key (home m key)

abbrev pub set_entry : IdMap → ℕ → Entry → IdMap
set_entry m slot e = record m { entries = update m.entries slot e }

-- `entries_[slot].val = EMPTY`
abbrev pub vacate : IdMap → ℕ → IdMap
vacate m slot = set_entry m slot (record (m.entries slot) { val = empty })

-- The test that lets the entry at `nxt` move back to `cur`.
unfoldable pub displaced : IdMap → (cur nxt : ℕ) → Bool
displaced m cur nxt =
    let nat = home m (m.entries nxt).key in
    leb (bit_and (sub32 nxt cur) m.mask) (bit_and (sub32 nxt nat) m.mask)

unfoldable pub shift_back : (fuel : ℕ) → IdMap → ℕ → Option IdMap
shift_back zero m cur = none
shift_back (suc n) m cur =
    let nxt = next_slot m cur in
    let rest = shift_back n (vacate (set_entry m cur (m.entries nxt)) nxt) nxt in
    if (m.entries nxt).val == empty then some m else if displaced m cur nxt then rest else some m

unfoldable pub erase : IdMap → ℕ → Option IdMap
erase m key = probe m m.capacity key (home m key) >>= λ slot.
    if (m.entries slot).val == empty then some m else shift_back m.capacity (vacate m slot) slot
