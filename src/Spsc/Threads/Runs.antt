-- ===== src/Spsc/Threads/Runs.antt =====
-- Calls of `emplace` and `pop` (src/logging/SPSCQueue.hpp) that the other thread does not interrupt.
use nanomatch.Base.{ℕ, ◌≡◌}
use nanomatch.Spsc.{emplace, pop}
use nanomatch.Spsc.Threads.{Producer, Consumer, System}
use nanomatch.Spsc.Threads.Emplace.{EmplaceCall, after_emplace, emplace-call, emplace-only}
use nanomatch.Spsc.Threads.Pop.{PopCall, after_pop, pop-call, pop-only}

module _ {ℓ} {A : Type ℓ} where
  -- From a state where both threads are outside their calls, the accesses of one call of `emplace`
  -- by the producer alone can lead to the state that the function `emplace` leaves, with the item
  -- among those accepted or refused as it says, and wherever they end the call they have led to
  -- this state; and the accesses of one call of `pop` by the consumer alone can lead to the state
  -- that the function `pop` leaves, with the item that it gives among those taken, and wherever
  -- they end the call they have led to this state.
  pub calls-Steps :
      (c : ℕ) (item : A) (s t u : System A)
      → s.producer ≡ Producer.outside
      → s.consumer ≡ Consumer.outside
      → EmplaceCall c item s t
      → t.producer ≡ Producer.outside
      → PopCall c s u
      → u.consumer ≡ Consumer.outside
      → EmplaceCall c item s (after_emplace (emplace c item s.queue) item s)
        × (t ≡ after_emplace (emplace c item s.queue) item s)
        × PopCall c s (after_pop (pop c s.queue) s)
        × (u ≡ after_pop (pop c s.queue) s)
  calls-Steps c item s t u producer consumer run ends run' ends' = (
    emplace-call c item s producer,
    emplace-only c item s producer run ends,
    pop-call c s consumer,
    pop-only c s consumer run' ends',
  )
