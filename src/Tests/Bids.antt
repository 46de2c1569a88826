-- ===== src/Tests/Bids.antt =====
-- The theorems on the bids at a book with one buy.
use nanomatch.Base.{◌≡◌, refl, ==-false, ◌-◌, true, some, [], ◌∷◌, arith, Returns, returned}
use nanomatch.Orders.{buy}
use nanomatch.Book.State.{Book, put}
use nanomatch.Book.Insert.{rest_order}
use nanomatch.Book.Matching.{match_against_bids}
use nanomatch.Book.Top.{update_best_bid}
use nanomatch.Book.Reference.{Ladder}
use nanomatch.Book.Represents.{Represents}
use nanomatch.Book.Rest.{rest_order-Represents}
use nanomatch.Book.Sweep.Asks.{Inside}
use nanomatch.Book.Sweep.Bids.{BidTop, at_level, update_best_bid-BidTop}
use nanomatch.Book.Sweep.MatchBids.{Hit, match_against_bids-sweep_down}
use nanomatch.Tests.{program, empty_book}
use nanomatch.Tests.Witnesses.{
  no_orders, book_of, one_entry, one_entry-HasRoom, empty_book-Represents,
}

abbrev one_bid : Ladder
one_bid = put no_orders buy 50 (record { id = 101; qty = 10 } ∷ [])

abbrev one_buy : Book
one_buy = book_of (rest_order buy 101 500 50 10 empty_book)

one_buy_runs : rest_order buy 101 500 50 10 empty_book ≡ some (true, one_buy)
unfolding program
one_buy_runs = refl

one_buy-Represents : Represents one_buy one_bid
unfolding program
one_buy-Represents =
    (returned (rest_order buy 101 500 50 10 empty_book) (true, one_buy)
      (rest_order-Represents buy 101 500 50 10 empty_book no_orders one_entry empty_book-Represents
        (omega arith) (omega arith) refl one_entry-HasRoom)
      one_buy_runs).1

one_buy-BidTop : BidTop one_buy (one_bid buy)
unfolding program
one_buy-BidTop =
    at_level (omega arith) (λ e. cc) (λ j p. rw (==-false {a = 50} {b = j} (omega (arith, p))) refl)

one_buy-Inside : Inside one_buy.band (one_bid buy)
unfolding program
one_buy-Inside j far = rw (==-false {a = 50} {b = j} (omega (arith, far))) refl

match_against_bids_example :
    Returns
      (match_against_bids 201 40 15 one_buy)
      (Hit 201 40 (one_buy.band - 40) (λ at. (one_buy.levels buy at).price) one_buy one_bid 15)
unfolding program
match_against_bids_example =
    match_against_bids-sweep_down 201 40 15 one_buy one_bid one_buy-Represents one_buy-BidTop
      one_buy-Inside (omega arith)

update_best_bid_example : BidTop (update_best_bid one_buy) (one_bid buy)
unfolding program
update_best_bid_example =
    update_best_bid-BidTop one_buy one_bid one_buy-Represents one_buy-Inside (omega arith)
      (omega arith) (λ j p. rw (==-false {a = 50} {b = j} (omega (arith, p))) refl)
