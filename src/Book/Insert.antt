-- ===== src/Book/Insert.antt =====
-- `insert_limit_order` of src/core/OrderBook.cpp.
use nanomatch.Base.{
  ℕ, ◌-◌, ◌/◌, Bool, true, false, ◌&&◌, ◌||◌, Option, some, ◌>>=◌, ◌==◌, leb, ltb, if◌then◌else◌,
  u32, null_idx, uint32_max,
}
use nanomatch.IdMap
use nanomatch.Orders.{Side, buy, sell, is_empty}
use nanomatch.Pool
use nanomatch.Book.State.{
  Book, bootstrap_rebase_limit, order_at, set_order, set_level, one_more_live,
}
use nanomatch.Book.Level.{level_append}
use nanomatch.Book.Matching.{match_against_asks, match_against_bids}
use nanomatch.Book.Rebase.{rebase_base}

-- The base that centers `price` in the window.
unfoldable pub centered_base : (price : ℕ) → Book → ℕ
centered_base price b = let half = u32 (b.band / 2) in if ltb price half then 0 else price - half

-- `in_band(to_idx(price))`: the signed difference `price - base_` is not negative, and below the size.
abbrev pub in_band : (price : ℕ) → Book → Bool
in_band price b = leb b.base price && ltb (price - b.base) b.band

unfoldable pub anchor : (price : ℕ) → Book → Book
unfolding centered_base
anchor price b =
    if b.base_set then b else record b { base = centered_base price b; base_set = true }

-- The window slides while the book is small.
unfoldable pub bring_in_band : (price : ℕ) → Book → Option Book
unfolding centered_base rebase_base
bring_in_band price b =
    if in_band price b
    then some b
    else if leb b.live_order_count bootstrap_rebase_limit
    then rebase_base (centered_base price b) b
    else some b

abbrev pub improves_bid : (pidx : ℕ) → Book → Bool
improves_bid pidx b = b.tob.best_bid == uint32_max || ltb b.tob.best_bid pidx

abbrev pub improves_ask : (pidx : ℕ) → Book → Bool
improves_ask pidx b = b.tob.best_ask == uint32_max || ltb pidx b.tob.best_ask

-- The best price of a side, when the level at `pidx` improves on it.
unfoldable pub raise_top : Side → (pidx : ℕ) → Book → Book
raise_top buy pidx b =
    let volume = (b.levels buy pidx).total_volume in
    if improves_bid pidx b
    then record b { tob = record (b.tob) { best_bid = pidx; bid_qty = volume } }
    else b
raise_top sell pidx b =
    let volume = (b.levels sell pidx).total_volume in
    if improves_ask pidx b
    then record b { tob = record (b.tob) { best_ask = pidx; ask_qty = volume } }
    else b

-- The slot is filled in and joins the level, and the map has the order.
unfoldable pub place_order : Side → (id price pidx remaining slot : ℕ) → Book → Option (Bool × Book)
unfolding raise_top level_append
place_order s id price pidx remaining slot b =
    let o = order_at b slot in
    let b₁ = set_order slot (record o { id = id; price = pidx; qty = remaining; side = s }) b in
    let level = b₁.levels s pidx in
    let b₂ = if is_empty level then set_level s pidx (record level { price = price }) b₁ else b₁ in
    let b₃ = level_append s pidx slot b₂ in
    IdMap.insert b₃.id_map id slot >>= λ m.
    some (true, raise_top s pidx (one_more_live (record b₃ { id_map = m })))

-- What is left of the order rests at the level of its price, if the pool has a slot.
unfoldable pub rest_order : Side → (id price pidx remaining : ℕ) → Book → Option (Bool × Book)
unfolding place_order
rest_order s id price pidx remaining b =
    let (slot, pool) = Pool.allocate b.pool in
    let b₁ = record b { pool = pool } in
    let rested = place_order s id price pidx remaining slot b₁ in
    if slot == null_idx then some (false, b₁) else rested

-- The opposite side is matched first.
unfoldable pub cross : Side → (id pidx qty : ℕ) → Book → Option (ℕ × Book)
cross buy id pidx qty b = match_against_asks id pidx qty b
cross sell id pidx qty b = match_against_bids id pidx qty b

-- Whether the order rests on the book, and the book.
unfoldable pub insert_limit_order : (id : ℕ) → Side → (price qty : ℕ) → Book → Option (Bool × Book)
unfolding anchor bring_in_band rest_order cross
insert_limit_order id s price qty b = bring_in_band price (anchor price b) >>= λ b₁.
    let pidx = price - b₁.base in
    let placed = cross s id pidx qty b₁ >>= λ r.
    if r.0 == 0 then some (false, r.1) else rest_order s id price pidx r.0 r.1 in
    if in_band price b₁ then placed else some (false, b₁)
