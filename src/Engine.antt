-- ===== src/Engine.antt =====
-- `Engine` (src/core/Engine.hpp): the records of a file, one after the other, on one book.
pub mod Runs
use nanomatch.Base.{
  ℕ, zero, suc, ◌+◌, Bool, true, false, ◌&&◌, Option, none, some, List, [], ◌∷◌, ltb, ◌==◌, u64,
  if◌then◌else◌,
}
use nanomatch.Outcome.{Outcome, done, read_past_end, ◌>>=◌, call}
use nanomatch.Orders.{Side, buy, sell, Trade}
use nanomatch.Book.State.{Book}
use nanomatch.Book.State
use nanomatch.Book.Insert.{insert_limit_order}
use nanomatch.Book.Feed.{cancel_order}
use nanomatch.Book.Matching.{process_market_order}
use nanomatch.Logger.{AsyncLogger}
use nanomatch.Logger.Events.{Event}
use nanomatch.Logger.Session.{session}
use nanomatch.MmapParser.{OrderRecord, MmapParser, record_at}

abbrev pub side_of : OrderRecord → Side
side_of r = if r.side == 0 then buy else sell

-- The switch, and whether the record counts as processed.
unfoldable pub dispatch : OrderRecord → Book → Outcome (Bool × Book)
dispatch r b =
    let inserted =
      call (insert_limit_order r.order_id (side_of r) r.price r.qty b) >>= λ x. done (true, x.1) in
    let matched = call (process_market_order (side_of r) r.qty b) >>= λ c. done (true, c) in
    let cancelled = call (cancel_order r.order_id b) >>= λ c. done (true, c) in
    if r.type == b'L'
    then inserted
    else if r.type == b'M'
    then matched
    else if r.type == b'C'
    then cancelled
    else done (false, b)

abbrev pub on_record : Option OrderRecord → (OrderRecord → Outcome (ℕ × Book)) → Outcome (ℕ × Book)
on_record none f = read_past_end
on_record (some r) f = f r

abbrev pub count_record : Bool → ℕ → ℕ
count_record true n = u64 (n + 1)
count_record false n = n

-- The loop from index `i` on, with `n` records to go.
unfoldable pub run_loop : MmapParser → (n i processed : ℕ) → Book → Outcome (ℕ × Book)
run_loop p zero i processed b = done (processed, b)
run_loop p (suc n) i processed b =
    let next = run_loop p n (suc i) in
    on_record (record_at p i) (λ r. dispatch r b >>= λ x. next (count_record x.0 processed) x.1)

unfoldable pub run_records : MmapParser → Book → Outcome (ℕ × Book)
run_records p b = run_loop p p.count 0 0 b

-- What a run leaves: `warned` is the message that no record was processed.
pub record Finished : Type 0 where
  pub processed_records : ℕ
  pub book : Book
  pub logger : AsyncLogger
  pub warned : Bool

-- After the loop: `memory` is that of the ring of the logger, and `schedule` says when its thread makes
-- its rounds between the trades.
unfoldable pub finish :
    MmapParser
    → (memory : ℕ → Trade) → (schedule : List Trade → List Event) → ℕ × Book
    → Outcome Finished
finish p memory schedule r = call (session memory (schedule r.1.trades)) >>= λ l. done (record {
  processed_records = r.0;
  book = r.1;
  logger = l;
  warned = ltb 0 p.count && (r.0 == 0);
})

unfoldable pub run :
    MmapParser
    → (price_band max_orders : ℕ) → (clock : ℕ → ℕ) → (memory : ℕ → Trade)
    → (schedule : List Trade → List Event) → Outcome Finished
run p price_band max_orders clock memory schedule =
    run_records p (State.new price_band max_orders clock) >>= finish p memory schedule
