-- ===== src/Spsc/Index.antt =====
-- Slots of the ring of `SPSCQueue` (src/logging/SPSCQueue.hpp), and its counters modulo 2 ^ 64.
use nanomatch.Base.{ℕ, zero, suc, ◌+◌, ◌-◌, ◌/◌, ◌%◌, ◌^◌, ◌≤◌, ◌<◌, ◌≡◌, ◌≢◌, ◌∙◌, arith, u64}
use native.Mathlib.Nat.{
  mod-mod_of_dvd, dvd_refl, dvd-mul_left_of_dvd, pow-succ', div-add-mod, mul-le-mul_left,
  one-le-pow, pow-le-pow_right,
}
use Prim.Native.Nat.{◌∣◌}
use mathlib.Core.Path.{subst}
use native.Mathlib.Decide.{dec_lt}
use nanomatch.Bits.{bit_and-mask}
use nanomatch.Spsc.{slot}

-- The template argument, as the assertion on it asks; it is the size of an array.
pub record IsCapacity (capacity : ℕ) : Type 0 where
  pub exponent : ℕ
  pub small : exponent ≤ 63
  pub power : capacity ≡ 2 ^ exponent

pub capacity-pos : {c : ℕ} → IsCapacity c → 0 < c
capacity-pos w = rw (w.power) (one-le-pow w.exponent 2 (omega arith))

pub capacity-le : {c : ℕ} → IsCapacity c → c ≤ 2 ^ 63
capacity-le w = rw (w.power) (pow-le-pow_right (omega arith) w.small)

power-dvd : (d e n : ℕ) → d + e ≡ n → 2 ^ e ∣ 2 ^ n
power-dvd zero e n h =
    subst (λ i. 2 ^ e ∣ 2 ^ i) (let same : e ≡ n = omega arith in same) (dvd_refl (2 ^ e))
power-dvd (suc d) e zero h = absurd (omega arith)
power-dvd (suc d) e (suc n) h =
    rw (pow-succ' 2 n) (dvd-mul_left_of_dvd (2 ^ e) (power-dvd d e n (omega arith)) 2)

pub slot-u64 : {c : ℕ} → IsCapacity c → (n : ℕ) → slot c (u64 n) ≡ n % c
slot-u64 {c} w n = rw (w.power) (
    bit_and-mask w.exponent (u64 n)
    ∙ mod-mod_of_dvd (2 ^ w.exponent) n
        (power-dvd (64 - w.exponent) w.exponent 64 (omega (arith, w.small))))

-- Two counts that are less than the capacity apart have different slots.
pub slots_differ : (c a b : ℕ) → a < b → b < a + c → a % c ≢ b % c
slots_differ c a b lt near same = elim (dec_lt (a / c) (b / c)) [
  | yes up ↦ absurd (
      omega (
        arith,
        div-add-mod a c,
        div-add-mod b c,
        mul-le-mul_left {m = suc (a / c)} {n = b / c} c up,
      ))
  | no down ↦ absurd (
      omega (
        arith,
        div-add-mod a c,
        div-add-mod b c,
        mul-le-mul_left {m = b / c} {n = a / c} c (omega arith),
      ))
]
