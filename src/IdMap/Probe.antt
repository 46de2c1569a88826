-- ===== src/IdMap/Probe.antt =====
-- The probe loops of `IdMap` (src/core/OrderBook.hpp) end when some entry is empty.
use native.Mathlib.Nat.{mod-lt, mod-eq_of_lt, mod_self, one-le-pow}
use nanomatch.Base.{
  ℕ, zero, suc, ◌+◌, ◌-◌, ◌%◌, ◌^◌, ◌<◌, ◌≡◌, ◌≢◌, ◌∙◌, ap, true, ◌==◌, leb, if◌then◌else◌, arith,
  Bool-cases, inl, inr, Returns, eq_of_==, ne_of_==,
}
use nanomatch.Bits.{bit_and-mask}
use nanomatch.IdMap.{IdMap, empty, home, next_slot, stops, probe, hash}

-- The capacity is a power of two, and the mask has one bit less.
pub record IsTable (m : IdMap) : Type 0 where
  pub exponent : ℕ
  pub capacity : m.capacity ≡ 2 ^ exponent
  pub mask : m.mask ≡ 2 ^ exponent - 1

-- Some entry is empty.
pub record HasRoom (m : IdMap) : Type 0 where
  pub slot : ℕ
  pub inside : slot < m.capacity
  pub vacant : (m.entries slot).val ≡ empty

pub capacity_pos : (m : IdMap) → IsTable m → 0 < m.capacity
capacity_pos m t = rw (t.capacity) (one-le-pow t.exponent 2 (omega arith))

pub home-lt : (m : IdMap) (key : ℕ) → IsTable m → home m key < m.capacity
unfolding home
home-lt m key t =
    rw (t.mask, bit_and-mask, t.capacity)
      (mod-lt (hash key) (one-le-pow t.exponent 2 (omega arith)))

-- Stepping from slot to slot goes round the table.
pub next_slot_lem :
    (m : IdMap) (s : ℕ)
    → IsTable m
    → s < m.capacity
    → next_slot m s ≡ (if suc s == m.capacity then 0 else suc s)
unfolding next_slot
next_slot_lem m s t h =
    rw (t.mask, bit_and-mask, ← t.capacity)
      (elim (Bool-cases (suc s == m.capacity)) [
        | inl wraps ↦ rw wraps (
            ap (λ k. k % m.capacity)
              (let e : s + 1 ≡ m.capacity = omega (arith, eq_of_== (suc s) m.capacity wraps) in e)
            ∙ mod_self m.capacity)
        | inr inner ↦
            rw inner (mod-eq_of_lt (omega (arith, ne_of_== (suc s) m.capacity inner)) ∙ omega arith)
      ])

pub next_slot-lt : (m : IdMap) (s : ℕ) → IsTable m → s < m.capacity → next_slot m s < m.capacity
next_slot-lt m s t h = ground (arith, next_slot_lem m s t h)

-- The steps from `s` to `e`.
abbrev pub steps : (cap s e : ℕ) → ℕ
steps cap s e = if leb s e then e - s else e + cap - s

pub steps_next :
    (m : IdMap) (s e : ℕ)
    → IsTable m
    → s < m.capacity
    → e < m.capacity
    → s ≢ e
    → steps m.capacity s e ≡ suc (steps m.capacity (next_slot m s) e)
steps_next m s e t hs he ne = ground (arith, next_slot_lem m s t hs)

module _ (m : IdMap) (t : IsTable m) (key : ℕ) where
  -- With enough rounds to reach a slot where it would stop, a probe returns such a slot.
  pub probe-Returns :
      (n s e : ℕ)
      → s < m.capacity
      → e < m.capacity
      → stops m key e ≡ true
      → steps m.capacity s e < n
      → Returns (probe m n key s) (λ r. (r < m.capacity) × (stops m key r ≡ true))
  unfolding probe
  probe-Returns zero s e hs he stop few = absurd (omega arith)
  probe-Returns (suc n) s e hs he stop few = elim (Bool-cases (stops m key s)) [
    | inl here ↦ (s, rw here, (hs, here))
    | inr on ↦
        let ne : s ≢ e = λ i. cc (on, stop) in
        let step = steps_next m s e t hs he ne in
        let (r, p, q) =
          probe-Returns n (next_slot m s) e (next_slot-lt m s t hs) he stop (omega arith) in
        (r, rw on p, q)
  ]

  pub steps-lt : (s e : ℕ) → s < m.capacity → e < m.capacity → steps m.capacity s e < m.capacity
  steps-lt s e hs he = ground arith

  pub probe-HasRoom :
      HasRoom m
      → Returns
          (probe m m.capacity key (home m key))
          (λ r. (r < m.capacity) × (stops m key r ≡ true))
  probe-HasRoom room =
      probe-Returns m.capacity (home m key) room.slot (home-lt m key t) room.inside
        (ground (arith, room.vacant))
        (steps-lt (home m key) room.slot (home-lt m key t) room.inside)
