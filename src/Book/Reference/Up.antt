-- ===== src/Book/Reference/Up.antt =====
-- The walk upwards over the plain lists of one side.
use nanomatch.Base.{
  ℕ, zero, suc, ◌+◌, ◌-◌, ◌≤◌, ◌<◌, ◌≡◌, refl, ap, sym, ◌∙◌, List, [], update, arith, ==-true,
  ==-false,
}
use nanomatch.Book.Reference.{Resting, fill_queue, sweep_up}
use nanomatch.Book.Reference.Walk.{
  update_same, fill_queue-zero, fill_queue-settled, fill_queue-empty, unswept, before,
}

module _ (taker_id : ℕ) (price : ℕ → ℕ) where
  pub sweep_up-empty :
      (n at remaining : ℕ) (row : ℕ → List Resting)
      → ((j : ℕ) → at ≤ j → j < at + n → row j ≡ [])
      → sweep_up taker_id price remaining row n at ≡ unswept remaining row
  unfolding sweep_up
  sweep_up-empty zero at remaining row none_there = refl
  sweep_up-empty (suc n) at remaining row none_there =
      rw
        (
          fill_queue-empty taker_id (price at) remaining (row at)
              (none_there at (omega arith) (omega arith)),
          update_same row at (row at) refl,
        )
        (rw
          (sweep_up-empty n (suc at) remaining row
            (λ j a b. none_there j (omega (arith, a)) (omega (arith, b))))
          refl)

  -- Empty levels in front are passed over.
  sweep_up-skip :
      (gap n m at to remaining : ℕ) (row : ℕ → List Resting)
      → m ≡ gap + n
      → to ≡ at + gap
      → ((j : ℕ) → at ≤ j → j < to → row j ≡ [])
      → sweep_up taker_id price remaining row m at ≡ sweep_up taker_id price remaining row n to
  unfolding sweep_up
  sweep_up-skip zero n m at to remaining row count where_to none_there =
      let a : m ≡ n = omega (arith, count) in
      let b : to ≡ at = omega (arith, where_to) in rw (a, b) refl
  sweep_up-skip (suc gap) n m at to remaining row count where_to none_there =
      let a : m ≡ suc (gap + n) = omega (arith, count) in
      rw
        (
          a,
          fill_queue-empty taker_id (price at) remaining (row at)
              (none_there at (omega arith) (omega (arith, where_to))),
          update_same row at (row at) refl,
        )
        (sweep_up-skip gap n (gap + n) (suc at) to remaining row refl (omega (arith, where_to))
          (λ j p. none_there j (omega (arith, p))))

  -- The level in front is met first, and a walk over what it leaves goes on with the others.
  pub sweep_up-front :
      (at limit remaining : ℕ) (row : ℕ → List Resting)
      → at ≤ limit
      → ((j : ℕ) → j < at → row j ≡ [])
      → let done = fill_queue taker_id (price at) remaining (row at) in
        sweep_up taker_id price remaining row (suc limit) 0
        ≡ before done.made
            (sweep_up taker_id price done.remaining (update row at done.queue) (suc limit) 0)
  unfolding sweep_up
  sweep_up-front at limit remaining row inside lower =
      let done = fill_queue taker_id (price at) remaining (row at) in
      let left = limit - at in
      let settled = fill_queue-settled taker_id (price at) remaining (row at) in
      let twice : update (update row at done.queue) at done.queue ≡ update row at done.queue =
        update_same (update row at done.queue) at done.queue
          (rw (==-true {a = at} {b = at} refl) refl) in
      let second : sweep_up taker_id price done.remaining (update row at done.queue) (suc limit) 0
          ≡ sweep_up taker_id price done.remaining (update row at done.queue) left (suc at) =
        sweep_up-skip at (suc left) (suc limit) 0 at done.remaining (update row at done.queue)
          (omega (arith, inside)) (omega arith)
          (λ j _ p. rw (==-false {a = at} {b = j} (omega (arith, p))) (lower j p))
        ∙ rw (==-true {a = at} {b = at} refl, settled, twice) refl in
      sweep_up-skip at (suc left) (suc limit) 0 at remaining row (omega (arith, inside))
        (omega arith) (λ j _. lower j)
      ∙ ap (before done.made) (sym second)

  -- A taker with nothing left leaves all levels alone.
  pub sweep_up-zero :
      (n at : ℕ) (row : ℕ → List Resting) → sweep_up taker_id price 0 row n at ≡ unswept 0 row
  unfolding sweep_up
  sweep_up-zero zero at row = refl
  sweep_up-zero (suc n) at row =
      rw (fill_queue-zero taker_id (price at) (row at), update_same row at (row at) refl)
        (rw (sweep_up-zero n (suc at) row) refl)
