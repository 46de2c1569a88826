-- ===== src/Tests/Files.antt =====
-- Files of records for src/core/Engine.hpp, and the theorems at them.
use nanomatch.Base.{ℕ, ◌≡◌, refl, ap, Bool, true, false, List, [], ◌∷◌, arith}
use nanomatch.Outcome.{Outcome, done, ◌>>=◌, Safe}
use nanomatch.Orders.{Trade}
use nanomatch.Spsc.{emplace, pop}
use nanomatch.Logger.{start, stop, drain, round, enqueue_trade, titles, row, Line}
use nanomatch.Logger.Events.{Event, trade, trades, handle, handle_all}
use nanomatch.Logger.Session.{session}
use nanomatch.Wire.{word}
use nanomatch.Wire
use nanomatch.MmapParser.{
  OrderRecord, MmapParser, FileAnswers, opened, bad_size, open_file, read_record, record_at,
}
use nanomatch.MmapParser.Records.{Explains, open_file-Explains}
use nanomatch.MmapParser.File.{stored, file}
use nanomatch.Engine.{dispatch, run_loop, run_records, finish, run}
use nanomatch.Engine.Runs.{answers, run_list, run_records-file, Logged, run-Safe}
use nanomatch.Tests.{program, empty_book}

-- The definitions that the runs of the engine use.
engine : Unit {0}
unfolding emplace pop start stop drain round enqueue_trade handle handle_all session word Wire.◌>>=◌
    read_record open_file record_at stored dispatch run_loop run_records finish run program
engine = tt

abbrev sells : OrderRecord
sells = record { order_id = 101; price = 500; qty = 10; side = 1; type = b'L' }

abbrev buys : OrderRecord
buys = record { order_id = 102; price = 500; qty = 15; side = 0; type = b'L' }

run_records-file_example :
    (p : MmapParser) × (open_file (answers (sells ∷ buys ∷ [])) ≡ opened p)
    × (p.count ≡ 2)
    × (run_records p empty_book ≡ run_list (sells ∷ buys ∷ []) 0 empty_book)
run_records-file_example = run_records-file sells (buys ∷ []) empty_book (omega arith)

-- The thread never runs before the end.
abbrev late : List Trade → List Event
late [] = []
late (t ∷ ts) = trade t ∷ late ts

late-once : (ts : List Trade) → trades (late ts) ≡ ts
late-once [] = refl
late-once (t ∷ ts) = ap (λ us. t ∷ us) (late-once ts)

abbrev no_trades : ℕ → Trade
no_trades n = record { maker_id = 0; taker_id = 0; price = 0; qty = 0; timestamp = 0 }

abbrev two_records : MmapParser
two_records = record { size = 36; count = 2; data_ = file (sells ∷ buys ∷ []) }

two_records_open : open_file (answers (sells ∷ buys ∷ [])) ≡ opened two_records
unfolding engine
two_records_open = refl

run-Safe_example : Safe (Logged two_records) (run two_records 100 8 (λ n. n) no_trades late)
run-Safe_example =
    run-Safe (answers (sells ∷ buys ∷ [])) two_records 100 8 (λ n. n) no_trades late
      two_records_open late-once

-- Nineteen bytes are no whole number of records.
abbrev odd_file : FileAnswers
odd_file = record { opens = true; has_stat = true; content = 7 ∷ file (sells ∷ []); maps = true }

open_file-Explains_example :
    Explains (answers (sells ∷ buys ∷ [])) 1 (open_file (answers (sells ∷ buys ∷ [])))
open_file-Explains_example = open_file-Explains (answers (sells ∷ buys ∷ [])) 1

odd_file_refused : open_file odd_file ≡ bad_size
unfolding engine
odd_file_refused = refl

-- The lines of the log, and the count of records.
abbrev logged : Outcome (ℕ × Bool × List Line)
logged = run two_records 100 8 (λ n. n) no_trades late >>= λ f.
    done (f.processed_records, f.warned, f.logger.file)

two_records_logged :
    logged
    ≡ done (
      2,
      false,
      titles
          ∷ row (record { maker_id = 101; taker_id = 102; price = 500; qty = 10; timestamp = 0 })
          ∷ [],
    )
unfolding engine
two_records_logged = refl
