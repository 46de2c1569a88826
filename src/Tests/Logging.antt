-- ===== src/Tests/Logging.antt =====
-- Sessions of the logger of src/logging/AsyncLogger.hpp, and its theorems at them.
use nanomatch.Base.{ℕ, ◌≡◌, ◌>>=◌, List, [], ◌∷◌, Returns, arith}
use nanomatch.Orders.{Trade}
use nanomatch.Logger.{start, stop, new, titles, row}
use nanomatch.Logger.Events.{Event, trade, wake}
use nanomatch.Logger.Session.{
  session, Closed, session-Closed, session-all, start-Log, start-stop_twice,
}

abbrev sold : ℕ → Trade
sold n = record { maker_id = n; taker_id = 2; price = 500; qty = 10; timestamp = 0 }

-- The thread makes a round between two trades.
abbrev two_trades : List Event
two_trades = trade (sold 1) ∷ wake ∷ trade (sold 3) ∷ []

session-Closed_example : Returns (session sold two_trades) (λ l. Closed l (sold 1 ∷ sold 3 ∷ []))
session-Closed_example = session-Closed sold two_trades

session-all_example : Returns (session sold two_trades) (λ l.
    (l.file ≡ titles ∷ row (sold 1) ∷ row (sold 3) ∷ []) × (l.dropped ≡ 0) × (l.warnings ≡ []))
session-all_example = session-all sold two_trades (omega arith)

start-stop_twice_example :
    (start (start (new sold)) ≡ start (new sold))
    × ((stop (start (new sold)) >>= stop) ≡ stop (start (new sold)))
start-stop_twice_example = start-stop_twice (start (new sold)) [] (start-Log sold)
