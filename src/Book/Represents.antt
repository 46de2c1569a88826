-- ===== src/Book/Represents.antt =====
-- A book and the resting orders that it stands for.
use nanomatch.Base.{ap, ◌++◌, ℕ, ◌≡◌, refl, ◌∙◌, true, List, [], ◌∷◌, arith}
use nanomatch.IdMap.Probe.{IsTable, HasRoom}
use nanomatch.Orders.{Side}
use nanomatch.Queue.{Slots, has}
use nanomatch.Book.State.{Book}
use nanomatch.Book.Invariant.{Queues, IsBook}
use nanomatch.Book.Reference.{Resting, Ladder}

abbrev pub contents : Slots → List ℕ → List Resting
contents s [] = []
contents s (x ∷ xs) = record { id = (s x).id; qty = (s x).qty } ∷ contents s xs

pub record Represents (b : Book) (l : Ladder) : Type 0 where
  pub queues : Queues
  pub free : List ℕ
  pub book : IsBook b queues free
  pub table : IsTable b.id_map
  pub room : HasRoom b.id_map
  pub view : (sd : Side) (at : ℕ) → contents b.pool.slots (queues sd at) ≡ l sd at

-- What matching inside a level leaves alone.
pub record SameFrame (b b' : Book) : Type 0 where
  pub tob : b'.tob ≡ b.tob
  pub band : b'.band ≡ b.band
  pub base : b'.base ≡ b.base
  pub capacity : b'.pool.capacity ≡ b.pool.capacity
  pub prices : (sd : Side) (at : ℕ) → (b'.levels sd at).price ≡ (b.levels sd at).price

pub contents_frame :
    (s t : Slots) (xs : List ℕ)
    → ((x : ℕ) → has x xs ≡ true → ((t x).id ≡ (s x).id) × ((t x).qty ≡ (s x).qty))
    → contents t xs ≡ contents s xs
contents_frame s t [] same = refl
contents_frame s t (x ∷ xs) same =
    let (a, b) = same x (ground arith) in
    let rest = contents_frame s t xs (λ y m. same y (ground (arith, m))) in cc

pub SameFrame-trans : (b c d : Book) → SameFrame b c → SameFrame c d → SameFrame b d
SameFrame-trans b c d h k = record {
  tob = k.tob ∙ h.tob;
  band = k.band ∙ h.band;
  base = k.base ∙ h.base;
  capacity = k.capacity ∙ h.capacity;
  prices = λ sd at. k.prices sd at ∙ h.prices sd at;
}

pub contents-append :
    (s : Slots) (xs ys : List ℕ) → contents s (xs ++ ys) ≡ contents s xs ++ contents s ys
contents-append s [] ys = refl
contents-append s (x ∷ xs) ys =
    ap (λ os. record { id = (s x).id; qty = (s x).qty } ∷ os) (contents-append s xs ys)
