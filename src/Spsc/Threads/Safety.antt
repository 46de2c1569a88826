-- ===== src/Spsc/Threads/Safety.antt =====
-- What the two threads of `SPSCQueue` (src/logging/SPSCQueue.hpp) can rely on, in every interleaving.
use nanomatch.Base.{
  ℕ, ◌+◌, ◌≤◌, ◌<◌, ◌≡◌, ◌≢◌, ◌∙◌, ap, sym, arith, List, ◌++◌, length, length-append, u64, leb,
  ◌==◌,
}
use mathlib.Core.Path.{subst}
use nanomatch.Spsc.{slot, seems_full, seems_empty, load_head, load_tail}
use nanomatch.Spsc.Index.{IsCapacity, capacity-le, slots_differ}
use nanomatch.Spsc.Moves.{head-slot, tail-slot}
use nanomatch.Spsc.Threads.{Producer, Consumer, System, Reach}
use nanomatch.Spsc.Threads.Invariant.{Reach-Inv, ProducerFits, ConsumerSees}

-- The counts behind the atomics and the callers' own copies.
pub record Counted {ℓ} {A : Type ℓ} (c : ℕ) (s : System A) : Type 0 where
  pub head : s.queue.head ≡ u64 (length s.taken)
  pub tail : s.queue.tail ≡ u64 (length s.accepted)
  pub own_head : s.queue.head_cached_consumer ≡ u64 (length s.taken)
  pub own_tail : s.queue.tail_cached ≡ u64 (length s.accepted)
  pub behind : length s.taken ≤ length s.accepted
  pub near : length s.accepted ≤ length s.taken + c

module _ {ℓ} {A : Type ℓ} {c : ℕ} {memory : ℕ → A} {s : System A} where
  -- For a capacity that is a power of two of at most 2^63, in every state that some interleaving of
  -- the accesses of the two threads leads to, the items accepted by `emplace` are those that `pop`
  -- gave, in the same order, followed by items that still wait, of which there are at most as many
  -- as slots.
  pub accepted-taken :
      IsCapacity c
      → Reach c memory s
      → (waiting : List A) × (s.accepted ≡ s.taken ++ waiting) × (length waiting ≤ c)
  accepted-taken cap r =
      let i = Reach-Inv cap r in
      (i.waiting, i.log, omega (arith, i.window.head_near, i.window.head_old))

  pub Reach-Counted : IsCapacity c → Reach c memory s → Counted c s
  Reach-Counted cap r =
      let i = Reach-Inv cap r in
      let all = ap length i.log ∙ length-append s.taken i.waiting in
      record {
        head = i.window.head;
        tail = rw all (i.window.tail);
        own_head = i.window.own_head;
        own_tail = rw all (i.window.own_tail);
        behind = omega (arith, all);
        near = omega (arith, all, i.window.head_near, i.window.head_old);
      }

  -- For a capacity that is a power of two of at most 2^63, in every reachable state where the
  -- producer is about to write a slot and the consumer is about to read one, these are two
  -- different slots.
  pub slots_apart :
      {item : A}
      → IsCapacity c
      → Reach c memory s
      → s.producer ≡ Producer.writing item
      → s.consumer ≡ Consumer.reading
      → slot c s.queue.tail_cached ≢ slot c s.queue.head_cached_consumer
  slots_apart cap r at_producer at_consumer =
      let i = Reach-Inv cap r in
      let last = length s.taken + length i.waiting in
      let room : last < i.head_seen + c =
        subst (ProducerFits c last i.head_seen) at_producer i.fits in
      let some_left : length s.taken < i.tail_seen =
        subst (ConsumerSees (length s.taken) i.tail_seen) at_consumer i.sees in
      rw (tail-slot c cap s.queue i.window, head-slot c cap s.queue i.window)
        (λ same.
          slots_differ c (length s.taken) last (omega (arith, some_left, i.window.tail_old))
            (omega (arith, room, i.window.head_old)) (sym same))

  -- For a capacity that is a power of two of at most 2^63, in every reachable state, `emplace`
  -- finds the ring full after it has loaded the head exactly when as many items wait as there are
  -- slots, and `pop` finds it empty after it has loaded the tail exactly when every accepted item
  -- has been taken, although the counters wrap around.
  pub tests-exact :
      IsCapacity c
      → Reach c memory s
      → (seems_full c (load_head s.queue) ≡ leb (length s.taken + c) (length s.accepted))
        × (seems_empty (load_tail s.queue) ≡ (length s.taken == length s.accepted))
  tests-exact cap r =
      let n = Reach-Counted cap r in
      (
        ground (arith, n.head, n.own_tail, n.behind, n.near, capacity-le cap),
        ground (arith, n.tail, n.own_head, n.behind, n.near, capacity-le cap),
      )
