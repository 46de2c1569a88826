-- ===== src/Logger.antt =====
-- `AsyncLogger` (src/logging/AsyncLogger.hpp). The file is the list of its lines.
pub mod Drain
pub mod Events
pub mod Session
use nanomatch.Base.{
  ℕ, zero, suc, ◌+◌, ◌^◌, Bool, true, false, Option, none, some, ◌>>=◌, List, [], ◌∷◌, ◌++◌, ltb,
  u64, if◌then◌else◌,
}
use nanomatch.Orders.{Trade}
use nanomatch.Spsc.{SpscQueue, emplace, pop}
use nanomatch.Spsc

abbrev pub k_capacity : ℕ
k_capacity = 2 ^ 22

-- `row t` is the five numbers of `t`, parted by commas.
pub data Line : Type 0 where
  titles : Line
  row : Trade → Line

-- `worker` tells whether the thread can be joined, and `warnings` are the counts that `stop` reports.
pub record AsyncLogger : Type 0 where
  pub queue : SpscQueue Trade
  pub file : List Line
  pub is_open : Bool
  pub dropped : ℕ
  pub running : Bool
  pub worker : Bool
  pub warnings : List ℕ

-- The constructor, over the memory of the ring.
abbrev pub new : (ℕ → Trade) → AsyncLogger
new memory = record {
  queue = Spsc.new memory;
  file = [];
  is_open = false;
  dropped = 0;
  running = false;
  worker = false;
  warnings = [];
}

unfoldable pub start : AsyncLogger → AsyncLogger
start l =
    if l.running
    then record l { running = true }
    else record l { running = true; file = titles ∷ []; is_open = true; worker = true }

unfoldable pub enqueue_trade : Trade → AsyncLogger → AsyncLogger
enqueue_trade t l =
    let r = emplace k_capacity t l.queue in
    if r.0
    then record l { queue = r.1 }
    else record l { queue = r.1; dropped = u64 (l.dropped + 1) }

-- `out_ << ... << '\n'`: a stream that is not open takes nothing.
abbrev pub put_line : Line → AsyncLogger → AsyncLogger
put_line line l = if l.is_open then record l { file = l.file ++ (line ∷ []) } else l

-- The loop of `drain`, after `any`.
unfoldable pub drain : ℕ → Bool → AsyncLogger → Option (Bool × AsyncLogger)
drain zero any l = none
drain (suc fuel) any l =
    let r = pop k_capacity l.queue in
    elim r.0 [
      | some t ↦ drain fuel true (put_line (row t) (record l { queue = r.1 }))
      | none ↦ some (any, record l { queue = r.1 })
    ]

abbrev pub drain_rounds : ℕ
drain_rounds = k_capacity + 1

-- A round of the loop in `run`: the sleep after an empty round changes nothing.
unfoldable pub round : AsyncLogger → Option AsyncLogger
round l = if l.running then (drain drain_rounds false l >>= λ r. some r.1) else some l

abbrev pub warn : AsyncLogger → AsyncLogger
warn l = if ltb 0 l.dropped then record l { warnings = l.warnings ++ (l.dropped ∷ []) } else l

-- `stop`, and with it the destructor. The thread that is joined has left its last round.
unfoldable pub stop : AsyncLogger → Option AsyncLogger
stop l =
    if l.running
    then (drain drain_rounds false (record l { running = false; worker = false }) >>= λ r.
        some (warn (record r.1 { is_open = false })))
    else some (record l { running = false })
