-- ===== src/Book/Invariant/Unlink.antt =====
-- `level_remove` (src/core/OrderBook.cpp) keeps the arrays in order: the level loses the order, from
-- wherever it stands in the queue, and nothing else changes.
use nanomatch.Base.{
  ℕ, ◌<◌, ◌≡◌, ◌≢◌, ◌⊎◌, refl, ap, sym, ◌∙◌, true, false, List, [], ◌∷◌, ◌++◌, ◌==◌, if◌then◌else◌,
  null_idx, arith, Bool-cases, inl, inr, ==-true, ==-false, eq_of_==, ne_of_==,
}
use nanomatch.Bitmap.{is_set, clear_bit}
use nanomatch.Bitmap.Scan.{IsWords}
use nanomatch.Orders.{Side, is_empty}
use nanomatch.Queue.{Slots, has, Distinct, has-append, Linked}
use nanomatch.Queue.Remove.{Linked-unlink, Linked-apart, prev_or_before, prev-mem, next-mem}
use nanomatch.Book.State.{Book, same_place, put, set_side}
use nanomatch.Book.Level.{level_remove}
use nanomatch.Book.Invariant.{
  Queues, nonempty, IsLevel, IsBook, by_place, put_self, put_other, same_place_self,
}
use nanomatch.Book.Invariant.Frame.{
  total_frame, total-remove, length-remove, has-remove, Distinct-remove, IsLevel_frame, one_place,
  empty_iff, nonempty-remove, FreeChain-frame, queued_real,
}
use nanomatch.Book.Invariant.Remove
use nanomatch.Book.Invariant.Bits.{bit_cleared, IsWords-cleared}

module _ (sd : Side) (at x : ℕ) (ys zs : List ℕ) (b : Book) (q : Queues) (free : List ℕ)
    (h : IsBook b q free) (e : q sd at ≡ ys ++ x ∷ zs) where
  abbrev after : Book
  after = level_remove sd at x b

  abbrev s : Slots
  s = b.pool.slots

  queued : has x (q sd at) ≡ true
  queued = rw (e, has-append x ys (x ∷ zs)) (ground arith)

  all-Distinct : Distinct (ys ++ x ∷ zs)
  all-Distinct = rw e at (h.distinct sd at)

  chain : Linked s null_idx (b.levels sd at).head_idx (ys ++ x ∷ zs) (b.levels sd at).tail_idx
  chain = rw e at ((h.level sd at).linked)

  x_real : x ≢ null_idx
  x_real = queued_real b q free h sd at x queued

  null_out : has null_idx (ys ++ x ∷ zs) ≡ false
  null_out = elim (Bool-cases (has null_idx (q sd at))) [
    | inl m ↦ absurd (queued_real b q free h sd at null_idx m refl)
    | inr m ↦ rw e at m
  ]

  links : ((s x).prev_idx ≢ x) × ((s x).next_idx ≢ x)
  links =
      Linked-apart s null_idx (b.levels sd at).head_idx ys x zs (b.levels sd at).tail_idx
        (λ n. x_real (sym n)) x_real all-Distinct chain

  -- The neighbours stand in the same queue.
  near_prev : ((s x).prev_idx ≡ null_idx) ⊎ (has (s x).prev_idx (q sd at) ≡ true)
  near_prev =
      rw (e, has-append (s x).prev_idx ys (x ∷ zs))
        (ground (
          arith,
          prev_or_before s null_idx (b.levels sd at).head_idx ys x zs (b.levels sd at).tail_idx
              chain,
        ))

  near_next : ((s x).next_idx ≡ null_idx) ⊎ (has (s x).next_idx (q sd at) ≡ true)
  near_next =
      rw (e, has-append (s x).next_idx ys (x ∷ zs))
        (ground (
          arith,
          next-mem s null_idx (b.levels sd at).head_idx ys x zs (b.levels sd at).tail_idx chain,
        ))

  other :
      (z : ℕ)
      → z ≢ null_idx
      → z ≢ x
      → after.pool.slots z ≡ (
          let o = s z in
          record o {
            next_idx = if (s x).prev_idx == z then (s x).next_idx else o.next_idx;
            prev_idx = if (s x).next_idx == z then (s x).prev_idx else o.prev_idx;
          })
  other z real ne = Remove.slots_other sd at x b links.0 links.1 z real ne

  -- A slot that is queued elsewhere does not change.
  elsewhere :
      (t : Side) (j : ℕ)
      → same_place sd at t j ≡ false
      → (z : ℕ) → has z (q t j) ≡ true
      → after.pool.slots z ≡ s z
  elsewhere t j apart z m =
      let real = queued_real b q free h t j z m in
      let alone = one_place b q free h sd at t j z in
      let not_x : z ≢ x = λ i. cc (alone (rw i queued) m, apart) in
      let not_prev : ((s x).prev_idx == z) ≡ false = ground (arith, near_prev, alone) in
      let not_next : ((s x).next_idx == z) ≡ false = ground (arith, near_next, alone) in
      other z real not_x ∙ rw (not_prev, not_next)

  stays : (z : ℕ) → has z (ys ++ zs) ≡ true → (z ≢ null_idx) × (z ≢ x) × (has z (q sd at) ≡ true)
  stays z m =
      let k = has-remove z ys x zs all-Distinct in
      let inq : has z (q sd at) ≡ true = rw e (ground arith) in
      (queued_real b q free h sd at z inq, ground arith, inq)

  qty_same : (z : ℕ) → has z (ys ++ zs) ≡ true → (after.pool.slots z).qty ≡ (s z).qty
  qty_same z m = let (real, ne, _) = stays z m in ap (λ o. o.qty) (other z real ne)

  level_here : IsLevel after.pool.slots (after.levels sd at) sd at (ys ++ zs)
  level_here =
      let old = h.level sd at in
      let new = Remove.levels_here sd at x b links.0 links.1 in
      rw new (record {
        linked =
            Linked-unlink s after.pool.slots x
              (λ z real ne.
                (ap (λ o. o.next_idx) (other z real ne), ap (λ o. o.prev_idx) (other z real ne)))
              zs (b.levels sd at).tail_idx null_idx (b.levels sd at).head_idx ys null_out
              all-Distinct chain;
        volume = omega (
          arith,
          rw e at (old.volume),
          total-remove s ys x zs,
          total_frame s after.pool.slots (ys ++ zs) qty_same,
          (old.orders x queued).small,
        );
        count = omega (arith, rw e at (old.count), length-remove ys x zs);
        orders = λ z m.
            let (real, ne, inq) = stays z m in
            let q = old.orders z inq in
            rw (other z real ne) (record { here = q.here; side = q.side; small = q.small });
      })

  free_same : (z : ℕ) → has z free ≡ true → after.pool.slots z ≡ s z
  free_same z m =
      let out = h.apart z m sd at in
      let real : z ≢ null_idx = omega (arith, h.free_inside z m, h.room) in
      let not_x : z ≢ x = λ i. cc (rw (← i) at queued, out) in
      let not_prev : ((s x).prev_idx == z) ≡ false = ground (arith, near_prev) in
      let not_next : ((s x).next_idx == z) ≡ false = ground (arith, near_next) in
      other z real not_x ∙ rw (not_prev, not_next)

  now_empty :
      is_empty (Remove.level_without sd at x b) ≡ (if nonempty (ys ++ zs) then false else true)
  now_empty =
      let new = Remove.levels_here sd at x b links.0 links.1 in
      empty_iff after.pool.slots (Remove.level_without sd at x b) sd at (ys ++ zs)
        (rw new at level_here)

  bits : after.bitmaps ≡ (
      if nonempty (ys ++ zs)
      then b.bitmaps
      else set_side b.bitmaps sd (clear_bit (b.bitmaps sd) at))
  bits =
      Remove.bitmaps_after sd at x b links.0 links.1 ((h.level sd at).orders x queued).here
      ∙ rw now_empty (ground arith)

  old_bit : is_set (b.bitmaps sd) at ≡ 1
  old_bit = h.active sd at ∙ rw (e, nonempty-remove ys x zs)

  bits_after :
      (t : Side) (j : ℕ)
      → is_set (after.bitmaps t) j ≡ (
          if same_place sd at t j
          then (if nonempty (ys ++ zs) then 1 else 0)
          else is_set (b.bitmaps t) j)
  bits_after t j = rw bits (elim (Bool-cases (nonempty (ys ++ zs))) [
    | inl full ↦ rw full (
        by_place
          (λ t j.
            is_set (b.bitmaps t) j ≡ (if same_place sd at t j then 1 else is_set (b.bitmaps t) j))
          sd at (rw same_place_self old_bit) (λ t j apart. rw apart) t j)
    | inr gone ↦ rw gone (bit_cleared b.bitmaps at sd t j)
  ])

  IsWords-after : (t : Side) → IsWords (after.bitmaps t)
  IsWords-after t = rw bits (elim (Bool-cases (nonempty (ys ++ zs))) [
    | inl full ↦ rw full (h.words t)
    | inr gone ↦ rw gone (IsWords-cleared b.bitmaps at h.words sd t)
  ])

  -- On arrays that are in order, `level_remove` of the slot `x` of a queue `ys ++ x ∷ zs` leaves
  -- arrays that are in order, where that queue is `ys ++ zs`, the other queues and the free list
  -- are what they were, and the bitmaps show the levels that have orders.
  pub level_remove-IsBook : IsBook (level_remove sd at x b) (put q sd at (ys ++ zs)) free
  level_remove-IsBook = record {
    level =
        by_place
          (λ t j. IsLevel after.pool.slots (after.levels t j) t j (put q sd at (ys ++ zs) t j)) sd
          at (rw (put_self q sd at (ys ++ zs)) level_here)
          (λ t j apart.
            rw
              (
                put_other q sd at (ys ++ zs) apart,
                Remove.levels_other sd at x b links.0 links.1 t j apart,
              )
              (IsLevel_frame s after.pool.slots (b.levels t j) t j (q t j) (elsewhere t j apart)
                (h.level t j)));
    distinct =
        by_place (λ t j. Distinct (put q sd at (ys ++ zs) t j)) sd at
          (rw (put_self q sd at (ys ++ zs)) (Distinct-remove ys x zs all-Distinct))
          (λ t j apart. rw (put_other q sd at (ys ++ zs) apart) (h.distinct t j));
    queued_inside =
        by_place
          (λ t j. (z : ℕ) → has z (put q sd at (ys ++ zs) t j) ≡ true → z < after.pool.capacity) sd
          at
          (rw (put_self q sd at (ys ++ zs), Remove.capacity_same sd at x b links.0 links.1)
            (λ z m. h.queued_inside sd at z (stays z m).2))
          (λ t j apart.
            rw (put_other q sd at (ys ++ zs) apart, Remove.capacity_same sd at x b links.0 links.1)
              (h.queued_inside t j));
    chain = rw (Remove.free_head_same sd at x b links.0 links.1) (
        FreeChain-frame s after.pool.slots b.pool.free_head free
          (λ z m. ap (λ o. o.next_idx) (free_same z m)) h.chain);
    free_distinct = h.free_distinct;
    free_inside = rw (Remove.capacity_same sd at x b links.0 links.1) h.free_inside;
    apart = λ z m.
        by_place (λ t j. has z (put q sd at (ys ++ zs) t j) ≡ false) sd at
          (rw (put_self q sd at (ys ++ zs), has-remove z ys x zs all-Distinct, ← e)
            (ground (arith, h.apart z m sd at)))
          (λ t j apart. rw (put_other q sd at (ys ++ zs) apart) (h.apart z m t j));
    active =
        by_place
          (λ t j.
            is_set (after.bitmaps t) j ≡ (if nonempty (put q sd at (ys ++ zs) t j) then 1 else 0))
          sd at (rw (put_self q sd at (ys ++ zs)) (bits_after sd at ∙ rw same_place_self))
          (λ t j apart.
            rw (put_other q sd at (ys ++ zs) apart) (bits_after t j ∙ rw apart (h.active t j)));
    words = IsWords-after;
    room = rw (Remove.capacity_same sd at x b links.0 links.1) h.room;
  }

  -- The ids and quantities of all slots stay.
  pub data_same :
      (z : ℕ)
      → z ≢ null_idx
      → ((level_remove sd at x b).pool.slots z).id ≡ (b.pool.slots z).id
        × (((level_remove sd at x b).pool.slots z).qty ≡ (b.pool.slots z).qty)
  data_same z real = elim (Bool-cases (z == x)) [
    | inl here ↦
        let self = Remove.slots_self sd at x b links.0 links.1 in
        rw (eq_of_== z x here, self) (refl, refl)
    | inr ne ↦ rw (other z real (ne_of_== z x ne)) (refl, refl)
  ]

  -- The slot is in no queue any more, and not free.
  pub gone : (t : Side) (j : ℕ) → has x (put q sd at (ys ++ zs) t j) ≡ false
  gone =
      by_place (λ t j. has x (put q sd at (ys ++ zs) t j) ≡ false) sd at
        (rw (
          put_self q sd at (ys ++ zs),
          has-remove x ys x zs all-Distinct,
          ==-true {a = x} {b = x} refl,
        ))
        (λ t j apart.
          rw (put_other q sd at (ys ++ zs) apart)
            (ground (arith, one_place b q free h sd at t j x queued)))

  pub not_free : has x free ≡ false
  not_free = elim (Bool-cases (has x free)) [
    | inl m ↦ cc (h.apart x m sd at, queued)
    | inr out ↦ out
  ]

  pub in_pool : x < b.pool.capacity
  in_pool = h.queued_inside sd at x queued

  -- The first of the queue stays first, or the one behind it is first now.
  pub head_after :
      ((level_remove sd at x b).levels sd at).head_idx
      ≡ (if nonempty ys then (b.levels sd at).head_idx else (b.pool.slots x).next_idx)
  head_after = go ys refl
    where
      go :
          (ws : List ℕ)
          → ys ≡ ws
          → ((level_remove sd at x b).levels sd at).head_idx
            ≡ (if nonempty ws then (b.levels sd at).head_idx else (b.pool.slots x).next_idx)
      go [] front =
          let (_, _, back, _) = rw front at chain in
          rw (Remove.levels_here sd at x b links.0 links.1, back) refl
      go (w ∷ ws) front =
          let k =
            prev-mem s null_idx (b.levels sd at).head_idx w ws x zs (b.levels sd at).tail_idx
              (rw front at chain) in
          let m : has (s x).prev_idx (q sd at) ≡ true =
            rw (e, front, has-append (s x).prev_idx (w ∷ ws) (x ∷ zs), k) refl in
          let back : ((s x).prev_idx == null_idx) ≡ false =
            ==-false {a = (s x).prev_idx} {b = null_idx}
              (queued_real b q free h sd at (s x).prev_idx m) in
          rw (Remove.levels_here sd at x b links.0 links.1, back) refl
