-- ===== src/Logger/Session.antt =====
-- A session of src/logging/AsyncLogger.hpp from `start` to `stop`.
use nanomatch.Base.{
  ℕ, ◌+◌, ◌≤◌, ◌<◌, ◌≡◌, refl, ◌∙◌, ap, sym, true, false, Option, some, ◌>>=◌, List, [], ◌∷◌, ◌++◌,
  ltb, u64, if◌then◌else◌, length, length-append, arith, Returns, inl, inr, ◌⊎◌,
}
use mathlib.Core.List.{map}
use nanomatch.Orders.{Trade}
use nanomatch.Spsc.Calls.{Represents, new-Represents}
use nanomatch.Logger.{
  AsyncLogger, k_capacity, titles, row, drain, drain_rounds, start, stop, new, warn,
}
use nanomatch.Logger.Drain.{drain-rounds}
use nanomatch.Logger.Events.{
  Event, trades, handle_all, Sub, Sub-whole, Log, handle_all-Log, drained_file,
}

-- The constructor, `start`, the calls `es` and `stop`.
unfoldable pub session : (ℕ → Trade) → List Event → Option AsyncLogger
session memory es = handle_all es (start (new memory)) >>= stop

-- A logger that was stopped after it was handed `seen`.
pub record Closed (l : AsyncLogger) (seen : List Trade) : Type 0 where
  pub written : List Trade
  pub lost : ℕ
  pub file : l.file ≡ titles ∷ map row written
  pub emptied : Represents k_capacity l.queue []
  pub order : Sub written seen
  pub all : length written + lost ≡ length seen
  pub counted : l.dropped ≡ u64 lost
  pub warned : l.warnings ≡ (if ltb 0 (u64 lost) then u64 lost ∷ [] else [])
  pub when_full : lost ≡ 0 ⊎ k_capacity < length seen
  pub is_closed : l.is_open ≡ false
  pub stopped : l.running ≡ false
  pub joined : l.worker ≡ false

pub start-Log : (memory : ℕ → Trade) → Log (start (new memory)) []
unfolding start
start-Log memory = record {
  written = [];
  waiting = [];
  lost = 0;
  file = refl;
  queued = new-Represents k_capacity memory;
  counted = refl;
  order = Sub.done;
  all = refl;
  when_full = inl refl;
  is_open = refl;
  running = refl;
  quiet = refl;
}

warnings-warn :
    (l : AsyncLogger)
    → l.warnings ≡ []
    → (warn l).warnings ≡ (if ltb 0 l.dropped then l.dropped ∷ [] else [])
warnings-warn l e = ground (arith, e)

warn_keeps :
    (l : AsyncLogger)
    → ((warn l).file ≡ l.file)
      × ((warn l).queue ≡ l.queue)
      × ((warn l).dropped ≡ l.dropped)
      × ((warn l).is_open ≡ l.is_open)
      × ((warn l).running ≡ l.running)
      × ((warn l).worker ≡ l.worker)
warn_keeps l = ground arith

stop_lem :
    (l : AsyncLogger)
    → l.running ≡ true
    → stop l ≡ (
        drain drain_rounds false (record l { running = false; worker = false }) >>= λ r.
        some (warn (record r.1 { is_open = false })))
unfolding stop
stop_lem l on = ground (arith, on)

pub stop-Closed :
    (l : AsyncLogger) (seen : List Trade) → Log l seen → Returns (stop l) (λ m. Closed m seen)
stop-Closed l seen g =
    let off : AsyncLogger = record l { running = false; worker = false } in
    let (r, ran, d) = drain-rounds off g.waiting g.is_open g.queued in
    let shut : AsyncLogger = record r.1 { is_open = false } in
    let (same_file, same_queue, same_dropped, closed, stopped, joined) = warn_keeps shut in
    let count : r.1.dropped ≡ u64 g.lost = d.dropped ∙ g.counted in
    (
      warn shut,
      stop_lem l g.running ∙ ap (λ o. o >>= λ r. some (warn (record r.1 { is_open = false }))) ran,
      record {
        written = g.written ++ g.waiting;
        lost = g.lost;
        file = same_file ∙ drained_file g r.1.file d.file;
        emptied = rw same_queue (d.emptied);
        order = g.order;
        all = omega (arith, g.all, length-append g.written g.waiting);
        counted = same_dropped ∙ count;
        warned =
            warnings-warn shut (d.warnings ∙ g.quiet)
            ∙ ap (λ n. if ltb 0 n then n ∷ [] else []) count;
        when_full = g.when_full;
        is_closed = closed;
        stopped = stopped ∙ d.running;
        joined = joined ∙ d.worker;
      },
    )

-- The constructor, `start`, any sequence of trades handed over and rounds of the worker, and `stop`
-- return. The file then has the title line and rows for trades that were handed over, in that
-- order; with the dropped ones these are all, the drop counter is their number modulo 2^64 and is
-- reported where it is not 0, and a trade is dropped only where more trades came than the ring has
-- slots. The ring is empty, the file closed, and the worker stopped and joined.
pub session-Closed :
    (memory : ℕ → Trade) (es : List Event) → Returns (session memory es) (λ l. Closed l (trades es))
unfolding session
session-Closed memory es =
    let (l, ran, g) = handle_all-Log es (start (new memory)) [] (start-Log memory) in
    let (m, stopped, c) = stop-Closed l (trades es) g in (m, ap (λ o. o >>= stop) ran ∙ stopped, c)

-- Where no more trades are handed over than the ring has slots, a session from the constructor to
-- `stop` returns, whenever the worker runs, and the file has the title line and a row for each
-- trade in order, with no trade dropped and nothing reported.
pub session-all :
    (memory : ℕ → Trade) (es : List Event)
    → length (trades es) ≤ k_capacity
    → Returns
        (session memory es)
        (λ l. (l.file ≡ titles ∷ map row (trades es)) × (l.dropped ≡ 0) × (l.warnings ≡ []))
session-all memory es few =
    let (l, ran, c) = session-Closed memory es in
    let none_lost : c.lost ≡ 0 = elim c.when_full [
      | inl z ↦ z
      | inr many ↦ absurd (omega (arith, few, many))
    ] in
    let whole = Sub-whole c.order (omega (arith, c.all, none_lost)) in
    (
      l,
      ran,
      (
        c.file ∙ ap (λ ts. titles ∷ map row ts) whole,
        c.counted ∙ ap u64 none_lost,
        c.warned ∙ ap (λ n. if ltb 0 (u64 n) then u64 n ∷ [] else []) none_lost,
      ),
    )

stop_idle : (l : AsyncLogger) → l.running ≡ false → stop l ≡ some l
unfolding stop
stop_idle l off = ground (arith, off)

-- On a logger between `start` and `stop`, another `start` changes nothing, and a second `stop`, as
-- in the destructor, changes nothing after the first.
pub start-stop_twice :
    (l : AsyncLogger) (seen : List Trade)
    → Log l seen
    → (start l ≡ l) × ((stop l >>= stop) ≡ stop l)
unfolding start
start-stop_twice l seen g =
    let (m, ran, c) = stop-Closed l seen g in
    let again : (stop l >>= stop) ≡ some m = ap (λ o. o >>= stop) ran ∙ stop_idle m c.stopped in
    (ground (arith, g.running), again ∙ sym ran)
