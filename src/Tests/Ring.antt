-- ===== src/Tests/Ring.antt =====
-- Runs of the queue of src/logging/SPSCQueue.hpp, of two slots, and its theorems at them.
use nanomatch.Base.{
  ℕ, ◌+◌, ◌≤◌, ◌≡◌, ◌≢◌, refl, true, some, List, [], ◌∷◌, ◌++◌, length, leb, ◌==◌, arith,
}
use nanomatch.Spsc.{SpscQueue, slot, seems_full, seems_empty, load_head, load_tail, emplace, pop}
use nanomatch.Spsc
use nanomatch.Spsc.Index.{IsCapacity}
use nanomatch.Spsc.Calls.{Represents, new-Represents, emplace-Represents, pop-Represents}
use nanomatch.Spsc.Threads.{
  System, init, refresh_empty, Reach, none_yet, and_then, emplace_room, write, publish, pop_empty,
  refresh_some,
}
use nanomatch.Spsc.Threads.Emplace.{EmplaceCall, after_emplace}
use nanomatch.Spsc.Threads.Pop.{PopCall, after_pop}
use nanomatch.Spsc.Threads.Runs.{calls-Steps}
use nanomatch.Spsc.Threads.Safety.{accepted-taken, slots_apart, tests-exact}

abbrev two_slots : IsCapacity 2
two_slots = record { exponent = 1; small = omega arith; power = refl }

abbrev memory : ℕ → ℕ
memory n = 0

-- One item was pushed; the consumer is about to read it, and the producer to write another.
abbrev busy : (s : System ℕ) × Reach 2 memory s
busy = (
  _,
  and_then
      (and_then
        (and_then
          (and_then (and_then (and_then none_yet (emplace_room 5 refl refl)) (write 5 refl))
            (publish 5 refl))
          (pop_empty refl refl))
        (refresh_some refl refl))
      (emplace_room 7 refl refl),
)

accepted-taken_example :
    (waiting : List ℕ) × (busy.0.accepted ≡ busy.0.taken ++ waiting) × (length waiting ≤ 2)
accepted-taken_example = accepted-taken two_slots busy.1

slots_apart_example : slot 2 busy.0.queue.tail_cached ≢ slot 2 busy.0.queue.head_cached_consumer
slots_apart_example = slots_apart {item = 7} two_slots busy.1 refl refl

tests-exact_example :
    (seems_full 2 (load_head busy.0.queue) ≡ leb (length busy.0.taken + 2) (length busy.0.accepted))
    × (seems_empty (load_tail busy.0.queue) ≡ (length busy.0.taken == length busy.0.accepted))
tests-exact_example = tests-exact two_slots busy.1

-- On the empty ring `emplace` puts its item in, and `pop` finds nothing.
abbrev pushed : (t : System ℕ) × EmplaceCall 2 5 (init memory) t
pushed = (
  _,
  EmplaceCall.goes_on
      (EmplaceCall.goes_on (EmplaceCall.called (emplace_room 5 refl refl) refl refl) refl
        (write 5 refl) refl)
      refl (publish 5 refl) refl,
)

abbrev polled : (u : System ℕ) × PopCall 2 (init memory) u
polled = (
  _,
  PopCall.goes_on (PopCall.called (pop_empty refl refl) refl) refl (refresh_empty refl refl) refl,
)

calls-Steps_example :
    EmplaceCall 2 5 (init memory) (after_emplace (emplace 2 5 (init memory).queue) 5 (init memory))
    × (pushed.0 ≡ after_emplace (emplace 2 5 (init memory).queue) 5 (init memory))
    × PopCall 2 (init memory) (after_pop (pop 2 (init memory).queue) (init memory))
    × (polled.0 ≡ after_pop (pop 2 (init memory).queue) (init memory))
calls-Steps_example =
    calls-Steps 2 5 (init memory) pushed.0 polled.0 refl refl pushed.1 refl polled.1 refl

abbrev one_item : SpscQueue ℕ
one_item = (emplace 2 5 (Spsc.new memory)).1

one_item-Represents : Represents 2 one_item (5 ∷ [])
one_item-Represents =
    (emplace-Represents 2 two_slots (Spsc.new memory) [] 5 (new-Represents 2 memory)).1

emplace-Represents_example :
    ((emplace 2 6 one_item).0 ≡ true) × Represents 2 (emplace 2 6 one_item).1 (5 ∷ 6 ∷ [])
emplace-Represents_example = emplace-Represents 2 two_slots one_item (5 ∷ []) 6 one_item-Represents

pop-Represents_example : ((pop 2 one_item).0 ≡ some 5) × Represents 2 (pop 2 one_item).1 []
pop-Represents_example = pop-Represents 2 two_slots one_item (5 ∷ []) one_item-Represents
