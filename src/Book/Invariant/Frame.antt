-- ===== src/Book/Invariant/Frame.antt =====
-- What a level depends on, and why two levels share no slot.
use nanomatch.Base.{
  ℕ, suc, ◌+◌, ◌≡◌, ◌≢◌, refl, ap, true, false, List, [], ◌∷◌, ◌++◌, ◌==◌, if◌then◌else◌, length,
  null_idx, arith, sym, ==-true, ◌∙◌,
}
use nanomatch.Orders.{Side, PriceLevel, is_empty}
use nanomatch.Queue.{Slots, has, Distinct, has-append, Linked-frame}
use nanomatch.Book.State.{Book, same_place}
use nanomatch.Book.Invariant.{
  Queues, nonempty, FreeChain, total_qty, IsLevel, IsBook, same_place_self,
}

pub total_frame :
    (s t : Slots) (xs : List ℕ)
    → ((x : ℕ) → has x xs ≡ true → (t x).qty ≡ (s x).qty)
    → total_qty t xs ≡ total_qty s xs
total_frame s t [] same = refl
total_frame s t (x ∷ xs) same =
    omega (arith, same x (ground arith), total_frame s t xs (λ y m. same y (ground (arith, m))))

pub total-remove :
    (s : Slots) (ys : List ℕ) (x : ℕ) (zs : List ℕ)
    → total_qty s (ys ++ x ∷ zs) ≡ (s x).qty + total_qty s (ys ++ zs)
total-remove s [] x zs = refl
total-remove s (y ∷ ys) x zs = omega (arith, total-remove s ys x zs)

pub length-remove :
    (ys : List ℕ) (x : ℕ) (zs : List ℕ) → length (ys ++ x ∷ zs) ≡ suc (length (ys ++ zs))
length-remove [] x zs = refl
length-remove (y ∷ ys) x zs = ap suc (length-remove ys x zs)

pub has-remove :
    (z : ℕ) (ys : List ℕ) (x : ℕ) (zs : List ℕ)
    → Distinct (ys ++ x ∷ zs)
    → has z (ys ++ zs) ≡ (if z == x then false else has z (ys ++ x ∷ zs))
has-remove z [] x zs d = ground arith
has-remove z (y ∷ ys) x zs d = ground (arith, has-remove z ys x zs d.1, has-append y ys (x ∷ zs))

pub Distinct-remove :
    (ys : List ℕ) (x : ℕ) (zs : List ℕ) → Distinct (ys ++ x ∷ zs) → Distinct (ys ++ zs)
Distinct-remove [] x zs d = d.1
Distinct-remove (y ∷ ys) x zs d =
    (ground (arith, has-append y ys (x ∷ zs), has-append y ys zs), Distinct-remove ys x zs d.1)

pub IsLevel_frame :
    (s t : Slots) (l : PriceLevel) (sd : Side) (at : ℕ) (xs : List ℕ)
    → ((x : ℕ) → has x xs ≡ true → t x ≡ s x)
    → IsLevel s l sd at xs
    → IsLevel t l sd at xs
IsLevel_frame s t l sd at xs same h = record {
  linked =
      Linked-frame s t null_idx l.head_idx xs l.tail_idx
        (λ x m _. (ap (λ o. o.next_idx) (same x m), ap (λ o. o.prev_idx) (same x m))) h.linked;
  volume = rw (total_frame s t xs (λ x m. ap (λ o. o.qty) (same x m))) h.volume;
  count = h.count;
  orders = λ x m. rw (same x m) (h.orders x m);
}

module _ (b : Book) (q : Queues) (free : List ℕ) (h : IsBook b q free) where
  -- A slot is queued at one place only.
  pub one_place :
      (sd : Side) (at : ℕ) (t : Side) (j : ℕ) (x : ℕ)
      → has x (q sd at) ≡ true
      → has x (q t j) ≡ true
      → same_place sd at t j ≡ true
  one_place sd at t j x m n =
      let a = (h.level sd at).orders x m in
      let c = (h.level t j).orders x n in
      let side : t ≡ sd = sym c.side ∙ a.side in
      let place : j ≡ at = sym c.here ∙ a.here in rw (side, place) (same_place_self sd at)

  pub queued_real : (sd : Side) (at x : ℕ) → has x (q sd at) ≡ true → x ≢ null_idx
  queued_real sd at x m = omega (arith, h.queued_inside sd at x m, h.room)

-- A level is empty when its queue is.
pub empty_iff :
    (s : Slots) (l : PriceLevel) (sd : Side) (at : ℕ) (xs : List ℕ)
    → IsLevel s l sd at xs
    → is_empty l ≡ (if nonempty xs then false else true)
empty_iff s l sd at [] h = ==-true (h.linked.0)
empty_iff s l sd at (x ∷ xs) h = let (a, c, _, _) = h.linked in ground arith

pub nonempty-remove : (ys : List ℕ) (x : ℕ) (zs : List ℕ) → nonempty (ys ++ x ∷ zs) ≡ true
nonempty-remove [] x zs = refl
nonempty-remove (y ∷ ys) x zs = refl

pub FreeChain-frame :
    (s t : Slots) (head : ℕ) (free : List ℕ)
    → ((x : ℕ) → has x free ≡ true → (t x).next_idx ≡ (s x).next_idx)
    → FreeChain s head free
    → FreeChain t head free
FreeChain-frame s t head [] same h = h
FreeChain-frame s t head (x ∷ xs) same (a, c, rest) =
    let rest' = FreeChain-frame s t (s x).next_idx xs (λ y m. same y (ground (arith, m))) rest in
    (a, c, rw (same x (ground arith)) rest')
