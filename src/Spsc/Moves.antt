-- ===== src/Spsc/Moves.antt =====
-- Each access of `emplace` and `pop` (src/logging/SPSCQueue.hpp) to the shared state, and the tests of
-- the two.
use nanomatch.Base.{
  ℕ, suc, ◌+◌, ◌%◌, ◌<◌, ◌≡◌, refl, true, false, arith, List, [], ◌∷◌, ◌++◌, length, length-append,
  ==-true,
}
use nanomatch.Spsc.{
  SpscQueue, slot, seems_full, seems_empty, read_slot, write_slot, publish_tail, release_head,
  load_head, load_tail,
}
use nanomatch.Spsc.Index.{IsCapacity, capacity-le, slot-u64}
use nanomatch.Spsc.Window.{Holds, Holds-update, Holds-append, Window}

module _ {ℓ} {A : Type ℓ} (c : ℕ) (cap : IsCapacity c) (q : SpscQueue A) where
  module _ {first head_seen tail_seen : ℕ} {xs : List A}
      (w : Window c q first head_seen tail_seen xs) where
    -- The producer counts the items against an old head.
    pub seems_full-false : seems_full c q ≡ false → first + length xs < head_seen + c
    seems_full-false test =
        ground (arith, test, w.own_tail, w.head_cached, w.head_old, w.head_near, capacity-le cap)

    pub seems_full-true : seems_full c q ≡ true → first + length xs ≡ head_seen + c
    seems_full-true test =
        ground (arith, test, w.own_tail, w.head_cached, w.head_old, w.head_near, capacity-le cap)

    -- The consumer compares with an old tail.
    pub seems_empty-false : seems_empty q ≡ false → first < tail_seen
    seems_empty-false test = ground (
      arith,
      test,
      w.own_head,
      w.tail_cached,
      w.tail_from,
      w.tail_old,
      w.head_old,
      w.head_near,
      capacity-le cap,
    )

    pub seems_empty-true : seems_empty q ≡ true → first ≡ tail_seen
    seems_empty-true test = ground (
      arith,
      test,
      w.own_head,
      w.tail_cached,
      w.tail_from,
      w.tail_old,
      w.head_old,
      w.head_near,
      capacity-le cap,
    )

    pub load_head-Window : Window c (load_head q) first first tail_seen xs
    load_head-Window = ground arith

    pub load_tail-Window : Window c (load_tail q) first head_seen (first + length xs) xs
    load_tail-Window = ground arith

    pub tail-slot : slot c q.tail_cached ≡ (first + length xs) % c
    tail-slot = rw (w.own_tail) (slot-u64 cap (first + length xs))

    pub head-slot : slot c q.head_cached_consumer ≡ first % c
    head-slot = rw (w.own_head) (slot-u64 cap first)

    pub write_slot-Window :
        (item : A)
        → first + length xs < head_seen + c
        → Window c (write_slot c item q) first head_seen tail_seen xs
    write_slot-Window item room =
        let kept =
          Holds-update c q.buffer first (first + length xs) xs item refl
            (omega (arith, w.head_old, room)) w.holds in
        let there : Holds c (write_slot c item q).buffer first xs = rw tail-slot kept in
        ground (arith, there)

    -- The slot that the producer writes, once written.
    pub write_slot-slot : (item : A) → (write_slot c item q).buffer ((first + length xs) % c) ≡ item
    write_slot-slot item = rw (==-true tail-slot) refl

    pub publish_tail-Window :
        (item : A)
        → first + length xs < head_seen + c
        → q.buffer ((first + length xs) % c) ≡ item
        → Window c (publish_tail q) first head_seen tail_seen (xs ++ (item ∷ []))
    publish_tail-Window item room here =
        let joined = Holds-append c q.buffer first (first + length xs) xs item refl here w.holds in
        let longer : length (xs ++ (item ∷ [])) ≡ length xs + 1 = length-append xs (item ∷ []) in
        ground (arith, joined, longer)

  module _ {first head_seen tail_seen : ℕ} {x : A} {xs : List A}
      (w : Window c q first head_seen tail_seen (x ∷ xs)) where
    pub read_slot-first : read_slot c q ≡ x
    unfolding Holds
    read_slot-first = rw (read_slot, head-slot w) (w.holds.0)

    pub release_head-Window :
        first < tail_seen → Window c (release_head q) (suc first) head_seen tail_seen xs
    unfolding Holds
    release_head-Window lt = let rest = w.holds.1 in ground (arith, rest)
