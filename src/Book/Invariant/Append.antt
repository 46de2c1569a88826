-- ===== src/Book/Invariant/Append.antt =====
-- `level_append` (src/core/OrderBook.cpp) puts the order at the end of its level's queue.
use nanomatch.Base.{
  ℕ, ◌<◌, ◌≡◌, ◌≢◌, ◌⊎◌, ap, sym, ◌∙◌, true, false, List, [], ◌∷◌, ◌++◌, ◌==◌, if◌then◌else◌,
  length-append, null_idx, arith, Bool-cases, inl, inr, ==-false, eq_of_==, ne_of_==,
}
use nanomatch.Bitmap.{is_set}
use nanomatch.Bitmap.Scan.{IsWords}
use nanomatch.Orders.{Side, PriceLevel}
use nanomatch.Queue.{has, Distinct, has-append, Linked}
use nanomatch.Queue.Append.{IsJoined, Linked-join, last-mem}
use nanomatch.Book.State.{Book, same_place, put}
use nanomatch.Book.Level.{level_append}
use nanomatch.Book.Invariant.{
  Queues, nonempty, IsQueued, IsLevel, IsBook, by_place, put_self, put_other, same_place_self,
}
use nanomatch.Book.Invariant.Bits.{bit_added, IsWords-added}
use nanomatch.Book.Invariant.Frame.{
  total_frame, IsLevel_frame, one_place, queued_real, empty_iff, FreeChain-frame,
}
use nanomatch.Book.Invariant.Joined.{
  levels_here, levels_other, pool_same, slots_self, slots_other, bitmaps_after, total-append,
  Distinct-append, nonempty-append,
}

module _ (sd : Side) (at x : ℕ) (b : Book) (q : Queues) (free : List ℕ) (h : IsBook b q free)
    (inside : x < b.pool.capacity) (new : has x free ≡ false)
    (out : (t : Side) (i : ℕ) → has x (q t i) ≡ false)
    (mine : IsQueued (b.pool.slots x) sd at) where
  abbrev after : Book
  after = level_append sd at x b

  abbrev xs : List ℕ
  xs = q sd at

  abbrev level : PriceLevel
  level = b.levels sd at

  real : x ≢ null_idx
  real = omega (arith, h.room)

  -- The old tail is in the queue, or there is none.
  tail_mem : (level.tail_idx ≡ null_idx) ⊎ (has level.tail_idx xs ≡ true)
  tail_mem = go xs (h.level sd at).linked
    where
      go :
          (ys : List ℕ)
          → Linked b.pool.slots null_idx level.head_idx ys level.tail_idx
          → (level.tail_idx ≡ null_idx) ⊎ (has level.tail_idx ys ≡ true)
      go [] (a, c) = inl c
      go (y ∷ ys) l = inr (last-mem b.pool.slots null_idx level.head_idx y ys level.tail_idx l)

  -- An empty level has no tail.
  empty_tail : (level.head_idx == null_idx) ≡ true → level.tail_idx ≡ null_idx
  empty_tail e = go xs (h.level sd at).linked
    where
      go :
          (ys : List ℕ)
          → Linked b.pool.slots null_idx level.head_idx ys level.tail_idx
          → level.tail_idx ≡ null_idx
      go [] (a, c) = c
      go (y ∷ ys) (a, c, _, _) = absurd (c (sym a ∙ eq_of_== level.head_idx null_idx e))

  tail_ne : level.tail_idx ≢ x
  tail_ne = ground (arith, tail_mem, real, out sd at)

  joined : IsJoined b.pool.slots after.pool.slots x level.tail_idx
  joined = record {
    back = ap (λ o. o.prev_idx) (slots_self sd at x b tail_ne);
    end = ap (λ o. o.next_idx) (slots_self sd at x b tail_ne);
    others = λ z z_real ne. (
      ap (λ o. o.next_idx) (slots_other sd at x b z ne) ∙ ground (arith, empty_tail),
      ap (λ o. o.prev_idx) (slots_other sd at x b z ne),
    );
  }

  qty_same : (z : ℕ) → has z xs ≡ true → (after.pool.slots z).qty ≡ (b.pool.slots z).qty
  qty_same z m = ap (λ o. o.qty) (slots_other sd at x b z (λ i. cc (rw i at m, out sd at)))

  -- A slot elsewhere, queued or free, does not change.
  untouched : (z : ℕ) → z ≢ x → level.tail_idx ≢ z → after.pool.slots z ≡ b.pool.slots z
  untouched z ne off = slots_other sd at x b z ne ∙ rw (==-false off) (ground arith)

  elsewhere :
      (t : Side) (j : ℕ)
      → same_place sd at t j ≡ false
      → (z : ℕ) → has z (q t j) ≡ true
      → after.pool.slots z ≡ b.pool.slots z
  elsewhere t j apart z m =
      untouched z (λ i. cc (rw i at m, out t j))
        (λ i.
          ground
            (arith, tail_mem, one_place b q free h sd at t j z, queued_real b q free h t j z m))

  level_here : IsLevel after.pool.slots (after.levels sd at) sd at (xs ++ x ∷ [])
  level_here =
      let old = h.level sd at in
      rw (levels_here sd at x b) (record {
        linked =
            Linked-join b.pool.slots after.pool.slots x level.tail_idx joined real null_idx
              level.head_idx xs (out sd at) (h.distinct sd at) old.linked;
        volume = omega (
          arith,
          old.volume,
          total-append after.pool.slots xs x,
          total_frame b.pool.slots after.pool.slots xs qty_same,
          ap (λ o. o.qty) (slots_self sd at x b tail_ne),
        );
        count = omega (arith, old.count, length-append xs (x ∷ []));
        orders = λ z m. elim (Bool-cases (z == x)) [
          | inl e ↦
              rw (eq_of_== z x e, slots_self sd at x b tail_ne)
                (record { here = mine.here; side = mine.side; small = mine.small })
          | inr ne ↦
              let k = old.orders z (ground (arith, has-append z xs (x ∷ []))) in
              rw (slots_other sd at x b z (ne_of_== z x ne))
                (record { here = k.here; side = k.side; small = k.small })
        ];
      })

  bits_after :
      (t : Side) (j : ℕ)
      → is_set (after.bitmaps t) j ≡ (if same_place sd at t j then 1 else is_set (b.bitmaps t) j)
  bits_after t j =
      rw (bitmaps_after sd at x b mine.here) (elim (Bool-cases (level.head_idx == null_idx)) [
        | inl fresh ↦ rw fresh (bit_added b.bitmaps at sd t j)
        | inr old ↦ rw old (
            by_place
              (λ t j.
                is_set (b.bitmaps t) j
                ≡ (if same_place sd at t j then 1 else is_set (b.bitmaps t) j))
              sd at (rw same_place_self (h.active sd at ∙ rw (occupied old)))
              (λ t j apart. rw apart) t j)
      ])
    where
      occupied : (level.head_idx == null_idx) ≡ false → nonempty xs ≡ true
      occupied old = ground (arith, empty_iff b.pool.slots level sd at xs (h.level sd at))

  IsWords-after : (t : Side) → IsWords (after.bitmaps t)
  IsWords-after t =
      rw (bitmaps_after sd at x b mine.here) (elim (Bool-cases (level.head_idx == null_idx)) [
        | inl fresh ↦ rw fresh (IsWords-added b.bitmaps at h.words sd t)
        | inr old ↦ rw old (h.words t)
      ])

  abbrev longer : Queues
  longer = put q sd at (xs ++ x ∷ [])

  -- On arrays that are in order, `level_append` of a slot of the pool that is not free and in no
  -- queue, and whose order has the side and the index of the level and a quantity below 2^32,
  -- leaves arrays that are in order, where the slot is at the end of the queue, and the other
  -- queues and the free list are what they were.
  pub level_append-IsBook : IsBook (level_append sd at x b) (put q sd at (q sd at ++ x ∷ [])) free
  level_append-IsBook = record {
    level =
        by_place (λ t j. IsLevel after.pool.slots (after.levels t j) t j (longer t j)) sd at
          (rw (put_self q sd at (xs ++ x ∷ [])) level_here)
          (λ t j apart.
            rw (put_other q sd at (xs ++ x ∷ []) apart, levels_other sd at x b t j apart)
              (IsLevel_frame b.pool.slots after.pool.slots (b.levels t j) t j (q t j)
                (elsewhere t j apart) (h.level t j)));
    distinct =
        by_place (λ t j. Distinct (longer t j)) sd at
          (rw (put_self q sd at (xs ++ x ∷ []))
            (Distinct-append xs x (out sd at) (h.distinct sd at)))
          (λ t j apart. rw (put_other q sd at (xs ++ x ∷ []) apart) (h.distinct t j));
    queued_inside =
        by_place (λ t j. (z : ℕ) → has z (longer t j) ≡ true → z < after.pool.capacity) sd at
          (rw (put_self q sd at (xs ++ x ∷ []), (pool_same sd at x b).1)
            (λ z m. ground (arith, has-append z xs (x ∷ []), h.queued_inside sd at z)))
          (λ t j apart.
            rw (put_other q sd at (xs ++ x ∷ []) apart, (pool_same sd at x b).1)
              (h.queued_inside t j));
    chain = rw (pool_same sd at x b).0 (
        FreeChain-frame b.pool.slots after.pool.slots b.pool.free_head free
          (λ z m.
            ap (λ o. o.next_idx)
              (untouched z (λ i. cc (rw i at m, new))
                (λ i. ground (arith, tail_mem, h.apart z m sd at, h.free_inside z m, h.room))))
          h.chain);
    free_distinct = h.free_distinct;
    free_inside = rw (pool_same sd at x b).1 h.free_inside;
    apart = λ z m.
        by_place (λ t j. has z (longer t j) ≡ false) sd at
          (rw (put_self q sd at (xs ++ x ∷ []), has-append z xs (x ∷ []))
            (ground (arith, h.apart z m sd at)))
          (λ t j apart. rw (put_other q sd at (xs ++ x ∷ []) apart) (h.apart z m t j));
    active =
        by_place (λ t j. is_set (after.bitmaps t) j ≡ (if nonempty (longer t j) then 1 else 0)) sd
          at
          (rw (put_self q sd at (xs ++ x ∷ []), nonempty-append xs x)
            (bits_after sd at ∙ rw same_place_self))
          (λ t j apart.
            rw (put_other q sd at (xs ++ x ∷ []) apart) (bits_after t j ∙ rw apart (h.active t j)));
    words = IsWords-after;
    room = rw (pool_same sd at x b).1 h.room;
  }
