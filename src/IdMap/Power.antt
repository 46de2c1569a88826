-- ===== src/IdMap/Power.antt =====
-- `round_up_pow2` of `IdMap` (src/core/OrderBook.hpp) gives powers of two.
use native.Mathlib.Nat.{pow-succ', pow-le-pow_right, div-le_self, one-le-pow, div-div-eq-div-mul}
use nanomatch.Base.{
  ℕ, zero, suc, ◌+◌, ◌-◌, ◌/◌, ◌^◌, ◌≤◌, ◌<◌, ◌≡◌, refl, ap, sym, ◌∙◌, ltb, leb, bit_or, ◌>>>◌, u32,
  sub32, arith, true, false, Bool-cases, inl, inr, ◌⊎◌,
}
use nanomatch.Bits.{bit, bit-zero, bit-suc, bit-bit_or, bit-le-one, bit_or-lt}
use nanomatch.IdMap.{smear, round_up_pow2}
use nanomatch.IdMap
use nanomatch.IdMap.Probe.{IsTable}

-- The highest bit.
highest : (n x : ℕ) → 0 < x → x < 2 ^ n → (h : ℕ) × (h < n) × (2 ^ h ≤ x) × (x < 2 ^ suc h)
highest zero x some_bit small = absurd (omega (arith, some_bit, small))
highest (suc n) x some_bit small = elim (Bool-cases (ltb x (2 ^ n))) [
  | inl k ↦
      let (h, inside, above, below) = highest n x some_bit (ground (arith, k)) in
      (h, omega (arith, inside), above, below)
  | inr k ↦ (n, omega arith, ground (arith, k), small)
]

bit_of_highest : (h x : ℕ) → 2 ^ h ≤ x → x < 2 ^ suc h → bit h x ≡ 1
bit_of_highest zero x above below = rw (bit-zero x) (omega (arith, above, below))
bit_of_highest (suc h) x above below = rw (bit-suc h x) (
    bit_of_highest h (x / 2) (omega (arith, above, pow-succ' 2 h))
      (omega (arith, below, pow-succ' 2 (suc h))))

bit-shift : (j n w : ℕ) → bit j (w >>> n) ≡ bit (j + n) w
bit-shift j zero w = ap (λ t. bit j t) (div-one w) ∙ ap (λ i. bit i w) (omega arith)
  where
    div-one : (w : ℕ) → w / 2 ^ 0 ≡ w
    div-one w = omega arith
bit-shift j (suc n) w =
    ap (λ t. bit j (w / t)) (pow-succ' 2 n)
    ∙ ap (λ t. bit j t) (sym (div-div-eq-div-mul w 2 (2 ^ n)))
    ∙ bit-shift j n (w / 2)
    ∙ sym (bit-suc (j + n) w)
    ∙ ap (λ i. bit i w) (omega arith)

-- The top `n` bits below `h` are set.
abbrev Full : (h n w : ℕ) → Type 0
Full h n w = (j : ℕ) → j ≤ h → h < j + n → bit j w ≡ 1

Full-double : (h n w : ℕ) → Full h n w → Full h (n + n) (bit_or w (w >>> n))
Full-double h n w full j low near =
    rw (bit-bit_or j w (w >>> n), bit-shift j n w)
      (elim (Bool-cases (ltb h (j + n))) [
        | inl k ↦ omega (arith, full j low (ground (arith, k)), bit-le-one (j + n) w)
        | inr k ↦
            omega (arith, full (j + n) (ground (arith, k)) (omega (arith, near)), bit-le-one j w)
      ])

shift_lt : (h n w : ℕ) → w < 2 ^ h → w >>> n < 2 ^ h
shift_lt h n w small = omega (arith, small, div-le_self w (2 ^ n))

step_lt : (h n w : ℕ) → w < 2 ^ h → bit_or w (w >>> n) < 2 ^ h
step_lt h n w small = bit_or-lt h w (w >>> n) small (shift_lt h n w small)

all_ones : (h w : ℕ) → Full h (suc h) w → w < 2 ^ suc h → w + 1 ≡ 2 ^ suc h
all_ones zero w full small = omega (arith, bit-zero w, full 0 (omega arith) (omega arith), small)
all_ones (suc h) w full small =
    let odd = full 0 (omega arith) (omega arith) in
    let half =
      all_ones h (w / 2)
        (λ j low near. sym (bit-suc j w) ∙ full (suc j) (omega (arith, low)) (omega (arith, near)))
        (omega (arith, small, pow-succ' 2 (suc h))) in
    omega (arith, odd, bit-zero w, half, pow-succ' 2 (suc h))

smear-ones : (h x : ℕ) → h < 32 → 2 ^ h ≤ x → x < 2 ^ suc h → smear x + 1 ≡ 2 ^ suc h
unfolding smear
smear-ones h x narrow above below =
    let a = bit_or x (x >>> 1) in
    let b = bit_or a (a >>> 2) in
    let c = bit_or b (b >>> 4) in
    let d = bit_or c (c >>> 8) in
    let top : Full h 1 x =
      λ j low near. ap (λ i. bit i x) (omega (arith, low, near)) ∙ bit_of_highest h x above below in
    let full =
      Full-double h 16 d
        (Full-double h 8 c (Full-double h 4 b (Full-double h 2 a (Full-double h 1 x top)))) in
    all_ones h (bit_or d (d >>> 16)) (λ j low near. full j low (omega (arith, narrow)))
      (step_lt (suc h) 16 d (
        step_lt (suc h) 8 c
          (step_lt (suc h) 4 b (step_lt (suc h) 2 a (step_lt (suc h) 1 x below)))))

-- The result is a power of two, or 0 where that power is 2^32.
round_up_pow2-power :
    (v : ℕ)
    → v < 2 ^ 32
    → ((round_up_pow2 v ≡ 0) × (2 ^ 31 < v)) ⊎ ((e : ℕ) × (e < 32) × (round_up_pow2 v ≡ 2 ^ e))
unfolding round_up_pow2
round_up_pow2-power v narrow = elim (Bool-cases (leb v 1)) [
  | inl k ↦ rw k (inr (0, omega arith, refl))
  | inr k ↦
      let lower : sub32 v 1 ≡ v - 1 = ground (arith, k, narrow) in
      let (h, inside, above, below) =
        highest 32 (v - 1) (ground (arith, k)) (omega (arith, narrow)) in
      let ones = smear-ones h (v - 1) inside above below in
      rw (k, lower, ones)
        (elim (Bool-cases (ltb (suc h) 32)) [
          | inl m ↦
              let fits : 2 ^ suc h ≤ 2 ^ 31 =
                pow-le-pow_right (omega arith) {j = 31} (ground (arith, m)) in
              inr (suc h, ground (arith, m), omega (arith, fits))
          | inr m ↦
              let last : suc h ≡ 32 = ground (arith, m, inside) in
              let half : 2 ^ h ≡ 2 ^ 31 = ap (λ t. 2 ^ t) {y = 31} (omega (arith, last)) in
              inl (rw last refl, omega (arith, half, above))
        ])
]

IsTable-of_power : (w e : ℕ) → e < 32 → round_up_pow2 w ≡ 2 ^ e → IsTable (IdMap.new w)
unfolding IdMap.new
IsTable-of_power w e small p =
    let fits : 2 ^ e ≤ 2 ^ 31 = pow-le-pow_right (omega arith) {j = 31} (omega (arith, small)) in
    let some_bit = one-le-pow e 2 (omega arith) in
    let less : sub32 (2 ^ e) 1 ≡ 2 ^ e - 1 = omega (arith, fits, some_bit) in
    record { exponent = e; capacity = p; mask = ap (λ c. sub32 c 1) p ∙ less }

IsTable-new : (w : ℕ) → w ≤ 2 ^ 31 → IsTable (IdMap.new w)
IsTable-new w small = elim (round_up_pow2-power w (omega (arith, small))) [
  | inl (_, large) ↦ absurd (omega (arith, small, large))
  | inr (e, narrow, p) ↦ IsTable-of_power w e narrow p
]

-- The least power of two that is at least `v`.
pub record IsLeastPower (v r : ℕ) : Type 0 where
  pub exponent : ℕ
  pub power : r ≡ 2 ^ exponent
  pub enough : v ≤ r
  pub least : (j : ℕ) → v ≤ 2 ^ j → r ≤ 2 ^ j

above_half : (h v j : ℕ) → 2 ^ h < v → v ≤ 2 ^ j → 2 ^ suc h ≤ 2 ^ j
above_half h v j above room = elim (Bool-cases (ltb h j)) [
  | inl k ↦ pow-le-pow_right (omega arith) (below h j k)
  | inr k ↦
      absurd (omega (arith, above, room, pow-le-pow_right {n = 2} (omega arith) (not_below h j k)))
]
  where
    below : (h j : ℕ) → ltb h j ≡ true → suc h ≤ j
    below h j k = ground (arith, k)

    not_below : (h j : ℕ) → ltb h j ≡ false → j ≤ h
    not_below h j k = ground (arith, k)

pub round_up_pow2-IsLeastPower : (v : ℕ) → v ≤ 2 ^ 31 → IsLeastPower v (round_up_pow2 v)
unfolding round_up_pow2
round_up_pow2-IsLeastPower v narrow = elim (Bool-cases (leb v 1)) [
  | inl k ↦ rw k (record {
    exponent = 0;
    power = omega arith;
    enough = ground (arith, k);
    least = λ j _. one-le-pow j 2 (omega arith);
  })
  | inr k ↦
      let lower : sub32 v 1 ≡ v - 1 = ground (arith, k, narrow) in
      let (h, inside, above, below) =
        highest 32 (v - 1) (ground (arith, k)) (omega (arith, narrow)) in
      let fits = above_half h v 31 (omega (arith, above)) narrow in
      let whole : u32 (2 ^ suc h) ≡ 2 ^ suc h = omega (arith, fits) in
      rw (k, lower, smear-ones h (v - 1) inside above below, whole)
        (record {
          exponent = suc h;
          power = refl;
          enough = omega (arith, below);
          least = λ j room. above_half h v j (omega (arith, above)) room;
        })
]

-- Every capacity that is asked for gives a table.
pub new-IsTable : (v : ℕ) → v < 2 ^ 32 → IsTable (IdMap.new (round_up_pow2 v))
new-IsTable v narrow = IsTable-new (round_up_pow2 v) (elim (round_up_pow2-power v narrow) [
  | inl (e, _) ↦ omega (arith, e)
  | inr (e, small, p) ↦
      let fits : 2 ^ e ≤ 2 ^ 31 = pow-le-pow_right (omega arith) {j = 31} (omega (arith, small)) in
      omega (arith, p, fits)
])
