-- ===== src/Book/Invariant/Places.antt =====
-- Arrays over the two sides, written at one place.
use nanomatch.Base.{ℕ, ◌≡◌, refl, true, false, ==-true, eq_of_==, arith, Bool-cases, inl, inr}
use mathlib.Core.Path.{subst₂}
use nanomatch.Orders.{Side, buy, sell, same_side}
use nanomatch.Book.State.{same_place, put}

pub same_place_self : (s : Side) (i : ℕ) → same_place s i s i ≡ true
same_place_self buy i = ==-true refl
same_place_self sell i = ==-true refl

pub sides_eq : (s t : Side) → same_side s t ≡ true → s ≡ t
sides_eq buy buy h = refl
sides_eq sell sell h = refl
sides_eq buy sell h = cc
sides_eq sell buy h = cc

-- A fact about every place is one about the place written and one about the others.
pub by_place {ℓ} :
    (P : Side → ℕ → Type ℓ) (s : Side) (i : ℕ)
    → P s i
    → ((t : Side) (j : ℕ) → same_place s i t j ≡ false → P t j)
    → (t : Side) (j : ℕ) → P t j
by_place P s i here others t j = elim (Bool-cases (same_place s i t j)) [
  | inl same ↦ subst₂ P (sides_eq s t (ground arith)) (eq_of_== i j (ground arith)) here
  | inr other ↦ others t j other
]

module _ {ℓ} {A : Type ℓ} where
  pub put_self : (f : Side → ℕ → A) (s : Side) (i : ℕ) (v : A) → put f s i v s i ≡ v
  put_self f s i v = rw (same_place_self s i)

  pub put_other :
      (f : Side → ℕ → A) (s : Side) (i : ℕ) (v : A) {t : Side} {j : ℕ}
      → same_place s i t j ≡ false
      → put f s i v t j ≡ f t j
  put_other f s i v e = rw e
