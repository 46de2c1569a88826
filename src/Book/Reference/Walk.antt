-- ===== src/Book/Reference/Walk.antt =====
-- The walk over plain lists of resting orders: what an empty level and a level that is done with add.
use nanomatch.Base.{
  ℕ, ◌-◌, ◌≡◌, ◌⊎◌, refl, ap, sym, ◌∙◌, List, [], ◌∷◌, ◌++◌, ◌==◌, min, update, arith, Bool-cases,
  inl, inr, eq_of_==,
}
use mathlib.Core.Path.{fun_ext}
use nanomatch.Book.Reference.{Resting, Fill, Swept, fill_queue}

abbrev pub unswept : (remaining : ℕ) → (ℕ → List Resting) → Swept
unswept remaining row = record { remaining = remaining; row = row; made = [] }

abbrev pub before : List Fill → Swept → Swept
before fs s = record s { made = fs ++ s.made }

pub fill_queue-zero :
    (taker_id price : ℕ) (os : List Resting)
    → fill_queue taker_id price 0 os ≡ record { remaining = 0; queue = os; made = [] }
unfolding fill_queue
fill_queue-zero taker_id price [] = refl
fill_queue-zero taker_id price (o ∷ os) = refl

-- The taker or the queue is used up.
pub fill_queue-exhausts :
    (taker_id price remaining : ℕ) (os : List Resting)
    → let done = fill_queue taker_id price remaining os in (done.remaining ≡ 0) ⊎ (done.queue ≡ [])
unfolding fill_queue
fill_queue-exhausts taker_id price remaining [] = inr refl
fill_queue-exhausts taker_id price remaining (o ∷ os) =
    let rest = fill_queue-exhausts taker_id price (remaining - min remaining o.qty) os in
    ground (arith, rest)

-- A second walk over what the first one left does nothing.
pub fill_queue-settled :
    (taker_id price remaining : ℕ) (os : List Resting)
    → let done = fill_queue taker_id price remaining os in
      fill_queue taker_id price done.remaining done.queue ≡ record done { made = [] }
unfolding fill_queue
fill_queue-settled taker_id price remaining os =
    let done = fill_queue taker_id price remaining os in
    elim (fill_queue-exhausts taker_id price remaining os) [
      | inl e ↦ rw e (fill_queue-zero taker_id price done.queue)
      | inr e ↦ rw e refl
    ]

pub update_same {ℓ} : {A : Type ℓ} (f : ℕ → A) (i : ℕ) (v : A) → f i ≡ v → update f i v ≡ f
update_same f i v e = fun_ext (λ j. elim (Bool-cases (i == j)) [
  | inl h ↦ rw h (sym e ∙ ap f (eq_of_== i j h))
  | inr h ↦ rw h refl
])

-- An empty level adds nothing.
pub fill_queue-empty :
    (taker_id price remaining : ℕ) (os : List Resting)
    → os ≡ []
    → fill_queue taker_id price remaining os
      ≡ record { remaining = remaining; queue = os; made = [] }
unfolding fill_queue
fill_queue-empty taker_id price remaining os e = rw e refl
