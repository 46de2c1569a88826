-- ===== src/Wire/Length.antt =====
-- How many bytes a read takes.
use nanomatch.Base.{
  ℕ, zero, suc, ◌+◌, ◌*◌, ◌≤◌, ◌≡◌, refl, ◌∙◌, ap, some, List, [], ◌∷◌, ◌++◌, length, arith,
}
use nanomatch.Wire.{Reader, pure, pass, ◌>>=◌, drop, word, chars}

-- Where `n` bytes are left the read gives a value, and leaves what follows them.
pub record Takes {ℓ} {A : Type ℓ} (n : ℕ) (r : Reader A) : Type ℓ where
  pub taken :
      (bytes : List ℕ)
      → n ≤ length bytes
      → (v : A) × (rest : List ℕ) × (r bytes ≡ some (v, rest)) × (n + length rest ≡ length bytes)

pub pure-Takes {ℓ} : {A : Type ℓ} (a : A) → Takes 0 (pure a)
pure-Takes a = record { taken = λ bytes h. (a, bytes, refl, omega arith) }

pub bind-Takes {ℓ κ} :
    {A : Type ℓ} {B : Type κ} {r : Reader A} {f : A → Reader B} {n m : ℕ}
    → Takes n r
    → ((a : A) → Takes m (f a))
    → Takes (n + m) (r >>= f)
unfolding ◌>>=◌
bind-Takes {f = f} first then = record {
  taken = λ bytes h.
      let (a, middle, read, left) = first.taken bytes (omega (arith, h)) in
      let (b, rest, ran, end) = (then a).taken middle (omega (arith, h, left)) in
      (b, rest, ap (λ o. pass o f) read ∙ ran, omega (arith, left, end));
}

pub word-Takes : (n : ℕ) → Takes n (word n)
unfolding word
word-Takes n = record { taken = taken n }
  where
    taken :
        (n : ℕ) (bytes : List ℕ)
        → n ≤ length bytes
        → (v : ℕ) × (rest : List ℕ) × (word n bytes ≡ some (v, rest))
          × (n + length rest ≡ length bytes)
    taken zero bytes h = (0, bytes, refl, omega arith)
    taken (suc n) [] h = absurd (omega (arith, h))
    taken (suc n) (b ∷ bytes) h =
        let (v, rest, read, left) = taken n bytes (omega (arith, h)) in
        (b + 256 * v, rest, ap (λ o. pass o (λ v. pure (b + 256 * v))) read, omega (arith, left))

pub chars-Takes : (n : ℕ) → Takes n (chars n)
unfolding chars
chars-Takes n = record { taken = taken n }
  where
    taken :
        (n : ℕ) (bytes : List ℕ)
        → n ≤ length bytes
        → (v : List ℕ) × (rest : List ℕ) × (chars n bytes ≡ some (v, rest))
          × (n + length rest ≡ length bytes)
    taken zero bytes h = ([], bytes, refl, omega arith)
    taken (suc n) [] h = absurd (omega (arith, h))
    taken (suc n) (b ∷ bytes) h =
        let (v, rest, read, left) = taken n bytes (omega (arith, h)) in
        (b ∷ v, rest, ap (λ o. pass o (λ cs. pure (b ∷ cs))) read, omega (arith, left))

pub length-drop :
    (n : ℕ) (bytes : List ℕ) → n ≤ length bytes → n + length (drop n bytes) ≡ length bytes
length-drop zero bytes h = omega arith
length-drop (suc n) [] h = absurd (omega (arith, h))
length-drop (suc n) (b ∷ bytes) h = omega (arith, length-drop n bytes (omega (arith, h)))

pub drop-append : (xs ys : List ℕ) → drop (length xs) (xs ++ ys) ≡ ys
drop-append [] ys = refl
drop-append (x ∷ xs) ys = drop-append xs ys

pub drop-all : (n : ℕ) (bytes : List ℕ) → length bytes ≤ n → drop n bytes ≡ []
drop-all zero [] h = refl
drop-all zero (b ∷ bytes) h = absurd (omega (arith, h))
drop-all (suc n) [] h = refl
drop-all (suc n) (b ∷ bytes) h = drop-all n bytes (omega (arith, h))
