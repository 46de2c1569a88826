-- ===== src/Outcome.antt =====
-- How a run over a file ends (src/ingestion/ItchParser.cpp, src/core/Engine.hpp).
use nanomatch.Base.{Option, none, some}

-- `read_past_end` is a read outside the mapping, `no_book` one through a pointer to no book. In
-- `book_loops` a loop of a book uses up its rounds, and in `out_of_rounds` the loop over a file.
pub data Outcome {ℓ} (A : Type ℓ) : Type ℓ where
  done : A → Outcome A
  read_past_end : Outcome A
  no_book : Outcome A
  book_loops : Outcome A
  out_of_rounds : Outcome A

infixl 5 ◌>>=◌
abbrev pub ◌>>=◌ {ℓ κ} : {A : Type ℓ} {B : Type κ} → Outcome A → (A → Outcome B) → Outcome B
done a >>= f = f a
read_past_end >>= f = read_past_end
no_book >>= f = no_book
book_loops >>= f = book_loops
out_of_rounds >>= f = out_of_rounds

-- A call of a book.
abbrev pub call {ℓ} : {A : Type ℓ} → Option A → Outcome A
call none = book_loops
call (some a) = done a

-- The run ends well, in a result that satisfies `P`, unless a loop of a book goes on.
abbrev pub Safe {ℓ} : {A : Type ℓ} → (A → Type 0) → Outcome A → Type 0
Safe P (done a) = P a
Safe P book_loops = Unit
Safe P _ = ⊥

pub bind-Safe {ℓ κ} :
    {A : Type ℓ} {B : Type κ} {P : A → Type 0} (Q : B → Type 0) (o : Outcome A) (f : A → Outcome B)
    → Safe P o
    → ((a : A) → P a → Safe Q (f a))
    → Safe Q (o >>= f)
bind-Safe Q (done a) f p q = q a p
bind-Safe Q read_past_end f p q = absurd p
bind-Safe Q no_book f p q = absurd p
bind-Safe Q book_loops f p q = tt
bind-Safe Q out_of_rounds f p q = absurd p

-- Whatever a book returns.
pub call-Safe {ℓ κ} :
    {A : Type ℓ} {B : Type κ} (Q : B → Type 0) (o : Option A) (f : A → Outcome B)
    → ((a : A) → Safe Q (f a))
    → Safe Q (call o >>= f)
call-Safe Q none f q = tt
call-Safe Q (some a) f q = q a
