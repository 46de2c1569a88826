-- ===== src/IdMap/Lost.antt =====
-- A defect of `IdMap::erase` (src/core/OrderBook.hpp): its loop stops at the first entry that stands at
-- its home, though entries behind that one may have been displaced past the slot that is now empty.
use native.Mathlib.Nat.{mod-eq_of_lt, zero-mod}
use nanomatch.Base.{
  ℕ, zero, suc, ◌+◌, ◌^◌, ◌≤◌, ◌<◌, ◌≡◌, ◌≢◌, refl, ◌∙◌, ap, true, false, Option, some, ◌>>=◌,
  sub32, arith,
}
use nanomatch.Bits.{bit_and-mask}
use nanomatch.IdMap.{
  IdMap, Entry, empty, home, next_slot, stops, probe, find, insert, displaced, shift_back, vacate,
  set_entry, erase,
}
use nanomatch.IdMap.Lookup.{find-probe}
use nanomatch.IdMap.Probe.{IsTable, home-lt, next_slot_lem, next_slot-lt}

probe_here : (m : IdMap) (n key s : ℕ) → stops m key s ≡ true → 0 < n → probe m n key s ≡ some s
unfolding probe
probe_here m zero key s h pos = absurd (omega arith)
probe_here m (suc n) key s h pos = rw h

-- A probe that goes past two slots and stops at the third.
probe_third :
    (m : IdMap) (n key s : ℕ)
    → 3 ≤ n
    → stops m key s ≡ false
    → stops m key (next_slot m s) ≡ false
    → stops m key (next_slot m (next_slot m s)) ≡ true
    → probe m n key s ≡ some (next_slot m (next_slot m s))
unfolding probe
probe_third m zero key s few h₀ h₁ h₂ = absurd (omega arith)
probe_third m (suc zero) key s few h₀ h₁ h₂ = absurd (omega arith)
probe_third m (suc (suc zero)) key s few h₀ h₁ h₂ = absurd (omega arith)
probe_third m (suc (suc (suc n))) key s few h₀ h₁ h₂ = rw (h₀, h₁, h₂)

-- The loop of `erase` that stops at once.
shift_back_stuck :
    (m : IdMap) (n cur : ℕ)
    → 0 < n
    → displaced m cur (next_slot m cur) ≡ false
    → shift_back n m cur ≡ some m
unfolding shift_back
shift_back_stuck m zero cur few h = absurd (omega arith)
shift_back_stuck m (suc n) cur few h = ground arith

-- An entry that stands at its home does not move back.
displaced-home :
    (m : IdMap)
    → IsTable m
    → (cur nxt : ℕ) → nxt ≡ suc cur
    → 2 ≤ m.capacity
    → home m (m.entries nxt).key ≡ nxt
    → displaced m cur nxt ≡ false
unfolding displaced
displaced-home m t cur nxt e wide here =
    let one_step : sub32 nxt cur ≡ 1 = omega arith in
    let no_step : sub32 nxt nxt ≡ 0 = omega arith in
    let small : 1 < 2 ^ t.exponent = omega (arith, t.capacity) in
    rw (here, one_step, no_step, t.mask, bit_and-mask, bit_and-mask)
      (ground (arith, mod-eq_of_lt small, zero-mod (2 ^ t.exponent)))

abbrev entry : ℕ → ℕ → Entry
entry k v = record { key = k; val = v }

same_next :
    (m : IdMap) (f : ℕ → Entry) (s : ℕ) → next_slot (record m { entries = f }) s ≡ next_slot m s
unfolding next_slot
same_next m f s = refl

same_home : (m : IdMap) (f : ℕ → Entry) (k : ℕ) → home (record m { entries = f }) k ≡ home m k
unfolding home
same_home m f k = refl

-- The keys `a` and `c` have one home, and `b` has the slot behind it for its home; the three slots
-- from there on are empty.
pub record Clash (m : IdMap) (a b c : ℕ) : Type 0 where
  pub table : IsTable m
  pub inner : home m a + 3 ≤ m.capacity
  pub a_ne_b : a ≢ b
  pub a_ne_c : a ≢ c
  pub b_ne_c : b ≢ c
  pub home_b : home m b ≡ next_slot m (home m a)
  pub home_c : home m c ≡ home m a
  pub free₀ : (m.entries (home m a)).val ≡ empty
  pub free₁ : (m.entries (next_slot m (home m a))).val ≡ empty
  pub free₂ : (m.entries (next_slot m (next_slot m (home m a)))).val ≡ empty

module _ (m : IdMap) (a b c x y z : ℕ) (clash : Clash m a b c) (x_real : x ≢ empty)
    (y_real : y ≢ empty) (z_real : z ≢ empty) where
  open clash use {table, inner, a_ne_b, a_ne_c, b_ne_c, home_b, home_c, free₀, free₁, free₂}

  abbrev s₀ : ℕ
  s₀ = home m a

  abbrev s₁ : ℕ
  s₁ = next_slot m s₀

  abbrev s₂ : ℕ
  s₂ = next_slot m s₁

  in₀ : s₀ < m.capacity
  in₀ = home-lt m a table

  apart : (s₀ ≢ s₁) × (s₁ ≢ s₂) × (s₀ ≢ s₂)
  apart =
      ground (
        arith,
        next_slot_lem m s₀ table in₀,
        next_slot_lem m s₁ table (next_slot-lt m s₀ table in₀),
      )

  abbrev m₁ : IdMap
  m₁ = set_entry m s₀ (entry a x)

  abbrev m₂ : IdMap
  m₂ = set_entry m₁ s₁ (entry b y)

  abbrev m₃ : IdMap
  m₃ = set_entry m₂ s₂ (entry c z)

  first : insert m a x ≡ some m₁
  unfolding insert
  first = rw (probe_here m m.capacity a s₀ (ground (arith, free₀)) (omega arith))

  second : insert m₁ b y ≡ some m₂
  unfolding insert
  second = rw (
    same_home m m₁.entries b,
    home_b,
    probe_here m₁ m.capacity b s₁ (ground (arith, free₁, apart)) (omega arith),
  )

  next₁ : s₁ ≡ suc s₀
  next₁ = ground (arith, next_slot_lem m s₀ table in₀)

  miss₀ :
      (f : ℕ → Entry)
      → (f s₀).key ≡ a
      → (f s₀).val ≡ x
      → stops (record m { entries = f }) c s₀ ≡ false
  miss₀ f k v = ground arith

  third : insert m₂ c z ≡ some m₃
  unfolding insert
  third =
      rw (same_home m m₂.entries c, home_c)
        (rw
          (probe_third m₂ m.capacity c s₀ (omega arith) (ground (arith, apart))
            (ground (arith, apart, same_next m m₂.entries s₀))
            (ground (arith, apart, same_next m m₂.entries s₀, same_next m m₂.entries s₁, free₂)))
          (rw (same_next m m₂.entries s₀, same_next m m₂.entries s₁)))

  found : find m₃ c ≡ some z
  found =
      find-probe m₃ c s₂ (
        rw (same_home m m₃.entries c, home_c)
          (probe_third m₃ m.capacity c s₀ (omega arith) (ground (arith, apart))
              (ground (arith, apart, same_next m m₃.entries s₀))
              (ground (arith, apart, same_next m m₃.entries s₀, same_next m m₃.entries s₁))
            ∙ rw (same_next m m₃.entries s₀, same_next m m₃.entries s₁)))
      ∙ ap some (ground arith)

  abbrev m₄ : IdMap
  m₄ = vacate m₃ s₀

  stuck : displaced m₄ s₀ (next_slot m₄ s₀) ≡ false
  stuck = rw (same_next m m₄.entries s₀) (
      displaced-home m₄
        (record { exponent = table.exponent; capacity = table.capacity; mask = table.mask }) s₀ s₁
        next₁ (omega arith)
        (let k : (m₄.entries s₁).key ≡ b = ground (arith, apart) in
          rw k (same_home m m₄.entries b ∙ home_b)))

  erased : erase m₃ a ≡ some m₄
  unfolding erase
  erased =
      rw
        (
          same_home m m₃.entries a,
          probe_here m₃ m.capacity a s₀ (ground (arith, apart)) (omega arith),
        )
        (ground (arith, apart, shift_back_stuck m₄ m.capacity s₀ (omega arith) stuck))

  lost : find m₄ c ≡ some empty
  lost =
      find-probe m₄ c s₀ (
        rw (same_home m m₄.entries c, home_c)
          (probe_here m₄ m.capacity c s₀ (ground arith) (omega arith)))
      ∙ ap some (ground arith)

  abbrev inserted : Option IdMap
  inserted = insert m a x >>= λ m₁. insert m₁ b y >>= λ m₂. insert m₂ c z

  inserted-eq : inserted ≡ some m₃
  inserted-eq = rw first (rw second third)

  -- On a table whose capacity is a power of two, for three different keys where the first and the
  -- third have one home, that is at least three slots before the end of the table, the second has
  -- the slot behind it as home, and the three slots from there on are empty: after their insertion
  -- in this order the third key is found as its value, and after `erase` of the first key it is not
  -- found any more.
  pub erase_loses :
      (inserted >>= (λ m'. find m' c) ≡ some z)
      × (inserted >>= (λ m'. erase m' a) >>= (λ m'. find m' c) ≡ some empty)
  erase_loses = (rw inserted-eq found, rw inserted-eq (rw erased lost))
