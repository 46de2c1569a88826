-- ===== src/Book/Limit/Window.antt =====
-- The window and the branches of `insert_limit_order` (src/core/OrderBook.cpp).
use nanomatch.Base.{
  ℕ, ◌-◌, ◌≡◌, refl, Bool, true, false, not, ◌&&◌, leb, some, ◌>>=◌, ◌==◌, if◌then◌else◌, arith,
  Option,
}
use nanomatch.Orders.{Side}
use nanomatch.Book.State.{Book, bootstrap_rebase_limit}
use nanomatch.Book.Insert.{
  insert_limit_order, rest_order, anchor, in_band, bring_in_band, cross, centered_base,
}
use nanomatch.Book.Reference.{Ladder}
use nanomatch.Book.Represents.{Represents}
use nanomatch.Book.Tops.{Tops, Tops-along}

-- The first price sets the window, which takes no part in what the book represents.
abbrev window_at : (known : Bool) → (base : ℕ) → Book → Book
window_at known base b = if known then b else record b { base = base; base_set = true }

-- What matching asks of a book, and what it reads.
pub record Ready (b b' : Book) (l : Ladder) : Type 0 where
  pub represents : Represents b' l
  pub tops : Tops b' l
  pub band : b'.band ≡ b.band
  pub levels : b'.levels ≡ b.levels
  pub trades : b'.trades ≡ b.trades

window-Ready :
    (known : Bool) (base : ℕ) (b : Book) (l : Ladder)
    → Represents b l
    → Tops b l
    → Ready b (window_at known base b) l
window-Ready true base b l r tops = record {
  represents = r;
  tops = tops;
  band = refl;
  levels = refl;
  trades = refl;
}
window-Ready false base b l r tops = record {
  represents = record {
    queues = r.queues;
    free = r.free;
    book = r.book;
    table = r.table;
    room = r.room;
    view = r.view;
  };
  tops = Tops-along b (window_at false base b) l refl refl refl tops;
  band = refl;
  levels = refl;
  trades = refl;
}

pub anchor-Ready :
    (price : ℕ) (b : Book) (l : Ladder) → Represents b l → Tops b l → Ready b (anchor price b) l
unfolding anchor
anchor-Ready price b l = window-Ready b.base_set (centered_base price b) b l

-- Matching, and what follows it.
abbrev pub after_cross : Side → (id price pidx : ℕ) → ℕ × Book → Option (Bool × Book)
after_cross s id price pidx r =
    if r.0 == 0 then some (false, r.1) else rest_order s id price pidx r.0 r.1

pub in_band_runs :
    (id : ℕ) (s : Side) (price qty : ℕ) (b : Book)
    → in_band price (anchor price b) ≡ true
    → insert_limit_order id s price qty b ≡ (
        cross s id (price - (anchor price b).base) qty (anchor price b)
        >>= after_cross s id price (price - (anchor price b).base))
unfolding insert_limit_order bring_in_band
in_band_runs id s price qty b inside = rw (inside, inside) refl

-- The price is in the window, or the book is too large for the window to slide.
abbrev pub KeepsWindow : ℕ → Book → Type 0
KeepsWindow price b =
    (leb (anchor price b).live_order_count bootstrap_rebase_limit
      && not (in_band price (anchor price b)))
    ≡ false

pub out_of_band_runs :
    (id : ℕ) (s : Side) (price qty : ℕ) (b : Book)
    → in_band price (anchor price b) ≡ false
    → KeepsWindow price b
    → insert_limit_order id s price qty b ≡ some (false, anchor price b)
unfolding insert_limit_order bring_in_band
out_of_band_runs id s price qty b outside large =
    let many : leb (anchor price b).live_order_count bootstrap_rebase_limit ≡ false =
      ground (arith, rw outside at large) in
    rw (outside, many) (rw outside refl)
