-- ===== src/Engine/Runs.antt =====
-- `run` of `Engine` (src/core/Engine.hpp) on whole files.
use nanomatch.Base.{
  ℕ, zero, suc, ◌+◌, ◌*◌, ◌/◌, ◌%◌, ◌≤◌, ◌≡◌, refl, ◌∙◌, ap, sym, Bool, true, false, ◌&&◌, List, [],
  ◌∷◌, length, ltb, ◌==◌, arith, if◌then◌else◌, All,
}
use mathlib.Core.Path.{fun_ext, subst}
use nanomatch.Outcome.{Outcome, done, ◌>>=◌, Safe, bind-Safe, call-Safe}
use nanomatch.Orders.{Trade}
use nanomatch.Book.State.{Book}
use nanomatch.Book.State
use nanomatch.Book.Insert.{insert_limit_order}
use nanomatch.Book.Feed.{cancel_order}
use nanomatch.Book.Matching.{process_market_order}
use nanomatch.Logger.Events.{Event, trades}
use nanomatch.Logger.Session.{Closed, session-Closed}
use nanomatch.Wire.{drop}
use nanomatch.MmapParser.{OrderRecord, sizeof_record, FileAnswers, MmapParser, opened, open_file}
use nanomatch.MmapParser.Records.{IsWhole, record_at-Returns, Explains, open_file-Explains}
use nanomatch.MmapParser.File.{file, FitsRecord, record_at-file, length-file}
use nanomatch.Engine.{
  side_of, dispatch, on_record, count_record, run_loop, run_records, finish, run, Finished,
}

-- The records of a list, one after the other.
abbrev pub run_list : List OrderRecord → ℕ → Book → Outcome (ℕ × Book)
run_list [] processed b = done (processed, b)
run_list (r ∷ rs) processed b = dispatch r b >>= λ x. run_list rs (count_record x.0 processed) x.1

run_loop-file :
    (p : MmapParser) (i processed : ℕ) (b : Book) (rs : List OrderRecord)
    → All FitsRecord rs
    → drop (sizeof_record * i) p.data_ ≡ file rs
    → run_loop p (length rs) i processed b ≡ run_list rs processed b
unfolding run_loop
run_loop-file p i processed b [] fits here = refl
run_loop-file p i processed b (r ∷ rs) fits here =
    let (got, next) = record_at-file p i r rs fits.0 here in
    ap
      (λ o. on_record o (λ r.
        dispatch r b >>= λ x. run_loop p (length rs) (suc i) (count_record x.0 processed) x.1))
      got
    ∙ ap (λ k. dispatch r b >>= k)
        (fun_ext (λ x. run_loop-file p (suc i) (count_record x.0 processed) x.1 rs fits.1 next))

-- The parser of a file of records.
abbrev parser_of : List OrderRecord → MmapParser
parser_of rs = record {
  size = length (file rs);
  count = length (file rs) / sizeof_record;
  data_ = file rs;
}

abbrev pub answers : List OrderRecord → FileAnswers
answers rs = record { opens = true; has_stat = true; content = file rs; maps = true }

-- A file of at least one record, whose fields fit their widths and are stored lowest byte first, is
-- accepted where the system opens and maps it; the count is that of its records, and the loop of
-- `run` does with a book what dispatching these records one after the other does.
pub run_records-file :
    (r : OrderRecord) (rs : List OrderRecord) (b : Book)
    → All FitsRecord (r ∷ rs)
    → (p : MmapParser) × (open_file (answers (r ∷ rs)) ≡ opened p)
      × (p.count ≡ length (r ∷ rs))
      × (run_records p b ≡ run_list (r ∷ rs) 0 b)
unfolding open_file run_records
run_records-file r rs b fits =
    let size = length-file (r ∷ rs) in
    let p = parser_of (r ∷ rs) in
    let not_empty : (length (file (r ∷ rs)) == 0) ≡ false = ground (arith, size) in
    let whole : (length (file (r ∷ rs)) % sizeof_record == 0) ≡ true = ground (arith, size) in
    let count : p.count ≡ length (r ∷ rs) = omega (arith, size) in
    (
      p,
      rw (not_empty, whole) refl,
      count,
      ap (λ n. run_loop p n 0 0 b) count ∙ run_loop-file p 0 0 b (r ∷ rs) fits refl,
    )

dispatch-Safe : (r : OrderRecord) (b : Book) → Safe (λ (x : Bool × Book). Unit {0}) (dispatch r b)
unfolding dispatch
dispatch-Safe r b =
    let P = λ (x : Bool × Book). Unit {0} in
    either (r.type == b'L') _ _
      (call-Safe P (insert_limit_order r.order_id (side_of r) r.price r.qty b)
        (λ x. done (true, x.1)) (λ x. tt))
      (either (r.type == b'M') _ _
        (call-Safe P (process_market_order (side_of r) r.qty b) (λ c. done (true, c)) (λ c. tt))
        (either (r.type == b'C') _ _
          (call-Safe P (cancel_order r.order_id b) (λ c. done (true, c)) (λ c. tt)) tt))
  where
    either :
        (t : Bool) (x y : Outcome (Bool × Book))
        → Safe (λ (x : Bool × Book). Unit {0}) x
        → Safe (λ (x : Bool × Book). Unit {0}) y
        → Safe (λ (x : Bool × Book). Unit {0}) (if t then x else y)
    either true x y h k = h
    either false x y h k = k

run_loop-Safe :
    (p : MmapParser) (n i processed : ℕ) (b : Book)
    → IsWhole p
    → i + n ≡ p.count
    → processed ≤ i
    → Safe (λ r. r.0 ≤ p.count) (run_loop p n i processed b)
unfolding run_loop
run_loop-Safe p zero i processed b w e few = omega (arith, e, few)
run_loop-Safe p (suc n) i processed b w e few =
    let (r, got, _) = record_at-Returns p i w (omega (arith, e)) in
    subst
      (λ o.
        Safe (λ (r : ℕ × Book). r.0 ≤ p.count)
          (on_record o
            (λ r. dispatch r b >>= λ x. run_loop p n (suc i) (count_record x.0 processed) x.1)))
      (sym got)
      (bind-Safe (λ (r : ℕ × Book). r.0 ≤ p.count) (dispatch r b)
        (λ x. run_loop p n (suc i) (count_record x.0 processed) x.1) (dispatch-Safe r b)
        (λ x h.
          run_loop-Safe p n (suc i) (count_record x.0 processed) x.1 w (omega (arith, e))
            (counted x.0 processed few)))
  where
    counted : (t : Bool) (m : ℕ) → m ≤ i → count_record t m ≤ suc i
    counted true m h = omega (arith, h)
    counted false m h = omega (arith, h)

run_records-Safe :
    (p : MmapParser) (b : Book) → IsWhole p → Safe (λ r. r.0 ≤ p.count) (run_records p b)
unfolding run_records
run_records-Safe p b w = run_loop-Safe p p.count 0 0 b w (omega arith) (omega arith)

-- The counts, the message and the log file of a run.
pub record Logged (p : MmapParser) (f : Finished) : Type 0 where
  pub few : f.processed_records ≤ p.count
  pub warned : f.warned ≡ (ltb 0 p.count && (f.processed_records == 0))
  pub closed : Closed f.logger f.book.trades

finish-Safe :
    (p : MmapParser) (memory : ℕ → Trade) (schedule : List Trade → List Event) (r : ℕ × Book)
    → ((ts : List Trade) → trades (schedule ts) ≡ ts)
    → r.0 ≤ p.count
    → Safe (Logged p) (finish p memory schedule r)
unfolding finish
finish-Safe p memory schedule r once few =
    let (l, logged, c) = session-Closed memory (schedule r.1.trades) in
    rw logged (record { few = few; warned = refl; closed = subst (Closed l) (once r.1.trades) c })

-- On a file that the constructor of the parser accepts, with a logger thread that runs at any times
-- between the trades, `run` reads nothing outside the file and ends, unless a loop of the book goes
-- on. No more records are processed than there are, the message is given exactly where none was,
-- and the logger is closed as after a session with the trades of the book.
pub run-Safe :
    (a : FileAnswers) (p : MmapParser) (band orders : ℕ) (clock : ℕ → ℕ) (memory : ℕ → Trade)
    (schedule : List Trade → List Event)
    → open_file a ≡ opened p
    → ((ts : List Trade) → trades (schedule ts) ≡ ts)
    → Safe (Logged p) (run p band orders clock memory schedule)
unfolding run
run-Safe a p band orders clock memory schedule accepted once =
    let (_, _, _, w, _, _) = subst (Explains a 0) accepted (open_file-Explains a 0) in
    bind-Safe (Logged p) (run_records p (State.new band orders clock)) (finish p memory schedule)
      (run_records-Safe p (State.new band orders clock) w)
      (λ r few. finish-Safe p memory schedule r once few)
