-- ===== src/Wire/Order.antt =====
-- The order of the bytes of a field: the wire has the highest one first.
use native.Mathlib.Nat.{
  pow-suc, div-add-mod, mod-eq_of_lt, mod-lt, mul-le-mul_right, add-mul-mod_self_right, one-le-pow,
}
use nanomatch.Base.{
  ℕ, zero, suc, ◌+◌, ◌*◌, ◌/◌, ◌%◌, ◌^◌, ◌<◌, ◌≡◌, refl, sym, ◌∙◌, ap, some, List, [], ◌∷◌, ◌++◌,
  length, arith,
}
use mathlib.Core.List.{append_assoc}
use nanomatch.Wire.{Reader, pure, pass, ◌>>=◌, word, chars, bswap}

-- The `n` bytes of `v` on the wire.
unfoldable pub wire : (n v : ℕ) → List ℕ
wire zero v = []
wire (suc n) v = (v / 256 ^ n % 256) ∷ wire n v

-- What the machine loads from them.
pub loaded : (n v : ℕ) → ℕ
loaded zero v = 0
loaded (suc n) v = v / 256 ^ n % 256 + 256 * loaded n v

-- `r` reads `v` from `bytes`, whatever follows them.
pub record Reads {ℓ} {A : Type ℓ} (r : Reader A) (bytes : List ℕ) (v : A) : Type ℓ where
  pub back : (rest : List ℕ) → r (bytes ++ rest) ≡ some (v, rest)

pub pure-Reads {ℓ} : {A : Type ℓ} (a : A) → Reads (pure a) [] a
pure-Reads a = record { back = λ rest. refl }

pub bind-Reads {ℓ κ} :
    {A : Type ℓ} {B : Type κ} {r : Reader A} (f : A → Reader B) {xs ys : List ℕ} {a : A} {b : B}
    → Reads r xs a
    → Reads (f a) ys b
    → Reads (r >>= f) (xs ++ ys) b
unfolding ◌>>=◌
bind-Reads {r = r} f {xs = xs} {ys = ys} first then = record {
  back = λ rest.
      ap (λ bytes. pass (r bytes) f) (append_assoc xs ys rest)
      ∙ ap (λ o. pass o f) (first.back (ys ++ rest))
      ∙ then.back rest;
}

pub word-Reads : (n v : ℕ) → Reads (word n) (wire n v) (loaded n v)
unfolding word wire loaded
word-Reads n v = record { back = back n }
  where
    back : (n : ℕ) (rest : List ℕ) → word n (wire n v ++ rest) ≡ some (loaded n v, rest)
    back zero rest = refl
    back (suc n) rest = ap (λ o. pass o (λ w. pure (v / 256 ^ n % 256 + 256 * w))) (back n rest)

pub chars-Reads : (n : ℕ) (cs : List ℕ) → length cs ≡ n → Reads (chars n) cs cs
unfolding chars
chars-Reads n cs e = record { back = back n cs e }
  where
    back :
        (n : ℕ) (cs : List ℕ)
        → length cs ≡ n
        → (rest : List ℕ) → chars n (cs ++ rest) ≡ some (cs, rest)
    back zero [] e rest = refl
    back zero (c ∷ cs) e rest = absurd (omega (arith, e))
    back (suc n) [] e rest = absurd (omega (arith, e))
    back (suc n) (c ∷ cs) e rest =
        ap (λ o. pass o (λ ds. pure (c ∷ ds))) (back n cs (omega (arith, e)) rest)

-- The top byte over the rest of `p`.
split_top_at : (p v : ℕ) → 0 < p → v / p % 256 * p + v % p ≡ v % (p * 256)
split_top_at p v pos =
    let low = v / p % 256 * p + v % p in
    let parts : v ≡ low + v / p / 256 * (p * 256) =
      omega (arith, div-add-mod v p, ap (λ k. p * k) (div-add-mod (v / p) 256)) in
    let small : low < p * 256 =
      omega (arith, mod-lt v pos, mul-le-mul_right {m = v / p % 256} {n = 255} p (omega arith)) in
    sym (
      ap (λ k. k % (p * 256)) parts
      ∙ add-mul-mod_self_right low (v / p / 256) (p * 256)
      ∙ mod-eq_of_lt small)

split_top : (n v : ℕ) → v / 256 ^ n % 256 * 256 ^ n + v % 256 ^ n ≡ v % 256 ^ suc n
split_top n v = rw (pow-suc 256 n) (split_top_at (256 ^ n) v (one-le-pow n 256 (omega arith)))

-- Swapping what was loaded gives back the number, modulo its width.
bswap-loaded_mod : (n v : ℕ) → bswap n (loaded n v) ≡ v % 256 ^ n
unfolding loaded bswap
bswap-loaded_mod zero v = omega arith
bswap-loaded_mod (suc n) v =
    let top : (v / 256 ^ n % 256 + 256 * loaded n v) % 256 ≡ v / 256 ^ n % 256 = omega arith in
    let low : (v / 256 ^ n % 256 + 256 * loaded n v) / 256 ≡ loaded n v = omega arith in
    rw (top, low, bswap-loaded_mod n v) (split_top n v)

pub bswap-loaded : (n v : ℕ) → v < 256 ^ n → bswap n (loaded n v) ≡ v
bswap-loaded n v h = bswap-loaded_mod n v ∙ mod-eq_of_lt h

pub length-wire : (n v : ℕ) → length (wire n v) ≡ n
unfolding wire
length-wire zero v = refl
length-wire (suc n) v = omega (arith, length-wire n v)

-- A single byte is what was sent.
pub loaded_byte : (v : ℕ) → v < 256 → loaded 1 v ≡ v
unfolding loaded
loaded_byte v h = omega (arith, h)
