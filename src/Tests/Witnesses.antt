-- ===== src/Tests/Witnesses.antt =====
-- The theorems at concrete books, tables and words.
use nanomatch.Base.{
  ℕ, ◌≡◌, refl, ap, sym, Bool, true, Option, some, none, List, [], ◌∷◌, ◌++◌, arith, null_idx,
  Returns, returned, ==-false, ◌==◌, if◌then◌else◌,
}
use nanomatch.IdMap.{IdMap}
use nanomatch.IdMap
use nanomatch.IdMap.Probe.{HasRoom}
use nanomatch.Orders.{sell}
use nanomatch.Queue.{Slots, Linked}
use nanomatch.Book.State.{Book, put}
use nanomatch.Book.Insert.{rest_order}
use nanomatch.Book.Reference.{Resting, Ladder}
use nanomatch.Book.Represents.{Represents, contents}
use nanomatch.Pool.Fresh.{count_up}
use nanomatch.Book.Fresh.{new-Represents}
use nanomatch.Book.Rest.{rest_order-Represents}
use nanomatch.Book.Level.{level_remove}
use nanomatch.Book.Top.{update_best_ask}
use nanomatch.Book.Matching.{fill_level, match_against_asks, take_out}
use nanomatch.Book.Feed.{cancel_order}
use nanomatch.Book.Invariant.{IsBook}
use nanomatch.Book.Invariant.Unlink.{level_remove-IsBook}
use nanomatch.Book.Represents.{SameFrame}
use nanomatch.Book.Cancel.{cancel_order-Represents}
use nanomatch.Book.FillLevel.{Filled, fill_level-fill_queue}
use nanomatch.Book.Sweep.Asks.{AskTop, at_level, Inside, update_best_ask-AskTop}
use nanomatch.Book.Sweep.MatchAsks.{Asked, match_against_asks-sweep_up}
use nanomatch.Book.TakeOut.{take_out-Represents}
use nanomatch.Tests.{program, empty_book}

abbrev pub no_orders : Ladder
no_orders = λ _ _. []

new-Represents_example : (rep : Represents empty_book no_orders) × (rep.free ≡ count_up 0 8)
new-Represents_example = new-Represents 100 8 (λ n. n) (omega arith) (omega arith)

pub empty_book-Represents : Represents empty_book no_orders
empty_book-Represents = (new-Represents 100 8 (λ n. n) (omega arith) (omega arith)).0

-- The book with one sell of 10 at 500, which is index 50 when the base is 450.
abbrev pub one_ask : Ladder
one_ask = put no_orders sell 50 (record { id = 101; qty = 10 } ∷ [])

abbrev pub book_of : Option (Bool × Book) → Book
book_of none = empty_book
book_of (some r) = r.1

abbrev pub one_sell : Book
one_sell = book_of (rest_order sell 101 500 50 10 empty_book)

abbrev pub one_entry : IdMap
one_entry =
    let m = empty_book.id_map in
    record m {
      entries = λ j. if IdMap.home m 101 == j then record { key = 101; val = 0 } else m.entries j;
    }

pub one_entry-HasRoom : HasRoom one_entry
unfolding program
one_entry-HasRoom = record { slot = 0; inside = omega arith; vacant = refl }

rest_order-Represents_example :
    Returns
      (rest_order sell 101 500 50 10 empty_book)
      (λ out. (out.0 ≡ true) × Represents out.1 one_ask)
unfolding program
rest_order-Represents_example =
    rest_order-Represents sell 101 500 50 10 empty_book no_orders one_entry empty_book-Represents
      (omega arith) (omega arith) refl one_entry-HasRoom

one_sell_runs : rest_order sell 101 500 50 10 empty_book ≡ some (true, one_sell)
unfolding program
one_sell_runs = refl

pub one_sell-Represents : Represents one_sell one_ask
one_sell-Represents =
    (returned (rest_order sell 101 500 50 10 empty_book) (true, one_sell)
      rest_order-Represents_example one_sell_runs).1

-- The one order stands alone in slot 0.
one_queue :
    (s : Slots) (head last : ℕ) (xs : List ℕ) (o : Resting)
    → contents s xs ≡ o ∷ []
    → Linked s null_idx head xs last
    → xs ≡ head ∷ []
one_queue s head last [] o e chained = cc
one_queue s head last (x ∷ []) o e chained = ap (λ z. z ∷ []) (sym chained.0)
one_queue s head last (x ∷ y ∷ xs) o e chained = cc

pub one_sell_queue : one_sell-Represents.queues sell 50 ≡ [] ++ 0 ∷ []
unfolding program
one_sell_queue =
    one_queue one_sell.pool.slots 0 0 (one_sell-Represents.queues sell 50) _
      (one_sell-Represents.view sell 50) (one_sell-Represents.book.level sell 50).linked

pub one_sell-AskTop : AskTop one_sell (one_ask sell)
unfolding program
one_sell-AskTop =
    at_level (omega arith) (λ e. cc) (λ j p. rw (==-false {a = 50} {b = j} (omega (arith, p))) refl)

pub one_sell-Inside : Inside one_sell.band (one_ask sell)
unfolding program
one_sell-Inside j far = rw (==-false {a = 50} {b = j} (omega (arith, far))) refl

match_against_asks_example :
    Returns
      (match_against_asks 201 60 15 one_sell)
      (Asked 201 60 (λ at. (one_sell.levels sell at).price) one_sell one_ask 15)
unfolding program
match_against_asks_example =
    match_against_asks-sweep_up 201 60 15 one_sell one_ask one_sell-Represents one_sell-AskTop
      one_sell-Inside (omega arith) (omega arith)

fill_level_example :
    Returns (fill_level 9 sell 50 201 0 15 one_sell) (Filled sell 50 201 500 one_sell one_ask 15)
unfolding program
fill_level_example =
    fill_level-fill_queue sell 50 201 500 9 0 15 one_sell one_ask (omega arith) one_sell-Represents
      refl refl

cancel_order_example : Returns (cancel_order 101 one_sell) (λ b'.
    Represents b' (put one_ask sell 50 [])
    × (b'.trades ≡ one_sell.trades)
    × (b'.live_order_count ≡ one_sell.live_order_count))
unfolding program
cancel_order_example =
    cancel_order-Represents one_sell one_ask one_sell-Represents 101 sell 50 0 [] [] one_sell_queue
      refl

take_out_example : Returns (take_out sell 50 0 101 one_sell) (λ b'.
    (rep : Represents b' (put one_ask sell 50 [])) × (rep.queues
      ≡ put one_sell-Represents.queues sell 50 [])
    × (rep.free ≡ 0 ∷ one_sell-Represents.free)
    × (IdMap.erase one_sell.id_map 101 ≡ some b'.id_map)
    × SameFrame one_sell b'
    × (b'.trades ≡ one_sell.trades)
    × ((b'.levels sell 50).head_idx ≡ (one_sell.pool.slots 0).next_idx)
    × (b'.live_order_count ≡ one_sell.live_order_count))
take_out_example =
    take_out-Represents sell 50 0 101 [] [] one_sell one_ask one_sell-Represents one_sell_queue

level_remove_example :
    IsBook
      (level_remove sell 50 0 one_sell)
      (put one_sell-Represents.queues sell 50 [])
      one_sell-Represents.free
level_remove_example =
    level_remove-IsBook sell 50 0 [] [] one_sell one_sell-Represents.queues one_sell-Represents.free
      one_sell-Represents.book one_sell_queue

update_best_ask_example : AskTop (update_best_ask one_sell) (one_ask sell)
unfolding program
update_best_ask_example =
    update_best_ask-AskTop one_sell one_ask one_sell-Represents one_sell-Inside (omega arith)
      (omega arith) (λ j p. rw (==-false {a = 50} {b = j} (omega (arith, p))) refl)
