-- ===== src/Book/FillLevel.antt =====
-- The inner loop of `match_against_asks` and `match_against_bids` (src/core/OrderBook.cpp) and the walk
-- over a plain list of resting orders that it stands for.
use nanomatch.Base.{
  ℕ, zero, suc, ◌-◌, ◌<◌, ◌≡◌, ◌⊎◌, refl, ap, sym, ◌∙◌, true, false, List, [], ◌∷◌, ◌++◌, some,
  ◌==◌, min, null_idx, arith, length, Returns, Bool-cases, inl, inr, ==-true, ==-false, eq_of_==,
}
use mathlib.Core.List.{append_assoc, append-nil}
use nanomatch.Orders.{Side}
use nanomatch.Queue.{Slots}
use nanomatch.Book.State.{Book, put, same_place}
use nanomatch.Book.Matching.{fill_level}
use nanomatch.Book.Invariant.{by_place, put_self, put_other}
use nanomatch.Book.Reference.{Resting, fills, Ladder, fill_queue}
use nanomatch.Book.Reference.Walk.{fill_queue-zero}
use nanomatch.Book.Represents.{Represents, SameFrame, SameFrame-trans, contents}
use nanomatch.Book.FillOrder.{Represents_along, fill_order-part, fill_order-whole}

List-cases : (xs : List ℕ) → (xs ≡ []) ⊎ ((x : ℕ) × (zs : List ℕ) × (xs ≡ x ∷ zs))
List-cases [] = inl refl
List-cases (x ∷ zs) = inr (x, zs, refl)

pub length-contents : (s : Slots) (xs : List ℕ) → length (contents s xs) ≡ length xs
length-contents s [] = refl
length-contents s (x ∷ xs) = ap suc (length-contents s xs)

put_same :
    (l : Ladder) (sd : Side) (at : ℕ) (os : List Resting)
    → l sd at ≡ os
    → (t : Side) (j : ℕ) → l t j ≡ put l sd at os t j
put_same l sd at os e =
    by_place (λ t j. l t j ≡ put l sd at os t j) sd at (e ∙ sym (put_self l sd at os))
      (λ t j apart. sym (put_other l sd at os apart))

put_twice :
    (l : Ladder) (sd : Side) (at : ℕ) (os ps : List Resting)
    → (t : Side) (j : ℕ) → put (put l sd at os) sd at ps t j ≡ put l sd at ps t j
put_twice l sd at os ps t j = elim (Bool-cases (same_place sd at t j)) [
  | inl e ↦ rw e
  | inr e ↦ rw e
]

pub SameFrame-refl : (b : Book) → SameFrame b b
SameFrame-refl b = record {
  tob = refl;
  band = refl;
  base = refl;
  capacity = refl;
  prices = λ _ _. refl;
}

module _ (sd : Side) (at taker_id price : ℕ) where
  -- What the loop leaves.
  abbrev pub Filled : Book → Ladder → (remaining : ℕ) → ℕ × Book → Type 0
  Filled b l remaining out =
      let done = fill_queue taker_id price remaining (l sd at) in
      (out.0 ≡ done.remaining)
      × Represents out.1 (put l sd at done.queue)
      × SameFrame b out.1
      × (fills out.1.trades ≡ fills b.trades ++ done.made)

  fill_level-stops :
      (n idx rem : ℕ) (b : Book)
      → 0 < n
      → rem ≡ 0
      → fill_level n sd at taker_id idx rem b ≡ some (rem, b)
  unfolding fill_level
  fill_level-stops zero idx rem b more z = absurd (omega (arith, more))
  fill_level-stops (suc n) idx rem b more z = ground (arith, z)

  fill_level-done :
      (n idx : ℕ) (b : Book) (l : Ladder)
      → 0 < n
      → Represents b l
      → Returns (fill_level n sd at taker_id idx 0 b) (Filled b l 0)
  fill_level-done n idx b l more r = (
    (0, b),
    fill_level-stops n idx 0 b more refl,
    rw (fill_queue-zero taker_id price (l sd at)) (
      refl,
      Represents_along b l _ (put_same l sd at (l sd at) refl) r,
      SameFrame-refl b,
      sym (append-nil (fills b.trades)),
    ),
  )

  fill_level-none :
      (n idx remaining : ℕ) (b : Book) (l : Ladder) (r : Represents b l)
      → r.queues sd at ≡ []
      → idx ≡ (b.levels sd at).head_idx
      → Returns (fill_level (suc n) sd at taker_id idx remaining b) (Filled b l remaining)
  unfolding fill_level fill_queue
  fill_level-none n idx remaining b l r q head =
      let ends = (rw q at ((r.book.level sd at).linked)).0 in
      let none_left : l sd at ≡ [] = sym (r.view sd at) ∙ rw q refl in
      (
        (remaining, b),
        rw (==-true {a = idx} {b = null_idx} (head ∙ ends)) refl,
        rw none_left (
          refl,
          Represents_along b l _ (put_same l sd at [] none_left) r,
          SameFrame-refl b,
          sym (append-nil (fills b.trades)),
        ),
      )

  module _ (n x remaining : ℕ) (zs : List ℕ) (b : Book) (l : Ladder) (r : Represents b l)
      (q : r.queues sd at ≡ x ∷ zs) (priced : (b.levels sd at).price ≡ price)
      (left : (remaining == 0) ≡ false) where
    here : l sd at ≡ contents b.pool.slots (x ∷ zs)
    here = sym (r.view sd at) ∙ ap (contents b.pool.slots) q

    real : (x == null_idx) ≡ false
    real = ==-false {a = x} {b = null_idx} ((rw q at ((r.book.level sd at).linked)).1)

    -- The maker in front stays with a part of its quantity, and the loop ends.
    fill_level-part :
        0 < n
        → ((b.pool.slots x).qty - min remaining (b.pool.slots x).qty == 0) ≡ false
        → Returns (fill_level (suc n) sd at taker_id x remaining b) (Filled b l remaining)
    unfolding fill_level fill_queue
    fill_level-part more part =
        let left_none : remaining - min remaining (b.pool.slots x).qty ≡ 0 = ground (arith, part) in
        let (out, ran, (a, rep, frame, same)) =
          fill_order-part sd at taker_id x remaining zs b l r q part in
        (
          out,
          rw (real, left, ran)
              (fill_level-stops n (b.pool.slots x).next_idx out.0 out.1 more (a ∙ left_none)),
          rw (here, left, part, ← priced) (a, rep, frame, same),
        )

    -- The front of the plain list is used up too.
    after_front :
        ((b.pool.slots x).qty - min remaining (b.pool.slots x).qty == 0) ≡ true
        → (out fin : ℕ × Book) → out.0 ≡ remaining - min remaining (b.pool.slots x).qty
        → SameFrame b out.1
        → fills out.1.trades
          ≡ fills b.trades
            ++ record {
              maker_id = (b.pool.slots x).id;
              taker_id = taker_id;
              price = (b.levels sd at).price;
              qty = min remaining (b.pool.slots x).qty;
            }
              ∷ []
        → Filled out.1 (put l sd at (contents b.pool.slots zs)) out.0 fin
        → Filled b l remaining fin
    unfolding fill_queue
    after_front whole out fin a frame same (f0, f1, f2, f3) =
        let kept = put_self l sd at (contents b.pool.slots zs) in
        rw (here, left, whole)
          (
            rw (kept, a) at f0,
            Represents_along fin.1 _ _ (put_twice l sd at (contents b.pool.slots zs) _)
                (rw (kept, a) at f1),
            SameFrame-trans b out.1 fin.1 frame f2,
            f3 ∙ rw (kept, a, same, priced) (append_assoc (fills b.trades) _ _),
          )

    -- The maker in front is used up, and the loop goes on.
    fill_level-whole :
        ((c : Book) (k : Ladder) (s : Represents c k)
          → k sd at ≡ contents b.pool.slots zs
          → (b.pool.slots x).next_idx ≡ (c.levels sd at).head_idx
          → (c.levels sd at).price ≡ price
          → (rem : ℕ)
          → Returns (fill_level n sd at taker_id (b.pool.slots x).next_idx rem c) (Filled c k rem))
        → ((b.pool.slots x).qty - min remaining (b.pool.slots x).qty == 0) ≡ true
        → Returns (fill_level (suc n) sd at taker_id x remaining b) (Filled b l remaining)
    unfolding fill_level fill_queue
    fill_level-whole go whole =
        let (out, ran, (a, rep, frame, same, next)) =
          fill_order-whole sd at taker_id x remaining zs b l r q whole in
        let kept = put_self l sd at (contents b.pool.slots zs) in
        let (fin, ended, rest) =
          go out.1 _ rep kept (sym next) (frame.prices sd at ∙ priced) out.0 in
        (fin, rw (real, left, ran) ended, after_front whole out fin a frame same rest)

  -- With a round for each order of the level and one to end, started at the head of the level, the
  -- inner loop returns on a book that represents `l`. The quantity left, the queue of the level and
  -- the trades are those of the walk over the plain list at the level's price; the cached best
  -- prices, the band, the base, the size of the pool, the prices of the levels and every other
  -- level stay.
  pub fill_level-fill_queue :
      (n idx remaining : ℕ) (b : Book) (l : Ladder)
      → length (l sd at) < n
      → Represents b l
      → idx ≡ (b.levels sd at).head_idx
      → (b.levels sd at).price ≡ price
      → Returns (fill_level n sd at taker_id idx remaining b) (Filled b l remaining)
  fill_level-fill_queue zero idx remaining b l fuel r head priced = absurd (omega (arith, fuel))
  fill_level-fill_queue (suc n) idx remaining b l fuel r head priced =
      elim (Bool-cases (remaining == 0)) [
        | inl z ↦ rw (eq_of_== remaining 0 z) (fill_level-done (suc n) idx b l (omega arith) r)
        | inr left ↦ elim (List-cases (r.queues sd at)) [
          | inl q ↦ fill_level-none n idx remaining b l r q head
          | inr (x, zs, q) ↦
              let front : idx ≡ x = head ∙ (rw q at ((r.book.level sd at).linked)).0 in
              let shape : l sd at ≡ contents b.pool.slots (x ∷ zs) =
                here n x remaining zs b l r q priced left in
              let shorter : length (contents b.pool.slots zs) < n =
                omega (arith, fuel, ap length shape) in
              rw front
                (elim (Bool-cases
                  ((b.pool.slots x).qty - min remaining (b.pool.slots x).qty == 0)) [
                    | inl whole ↦
                        fill_level-whole n x remaining zs b l r q priced left
                          (λ c k s e first same rem.
                            fill_level-fill_queue n (b.pool.slots x).next_idx rem c k (rw e shorter)
                              s first same)
                          whole
                    | inr part ↦
                        fill_level-part n x remaining zs b l r q priced left
                          (omega (arith, shorter)) part
                  ])
        ]
      ]
