-- ===== src/Book/Rest/Cases.antt =====
-- All branches of the end of `insert_limit_order` (src/core/OrderBook.cpp), where the order may rest.
use nanomatch.Base.{
  ℕ, ◌^◌, ap, ◌<◌, ◌≤◌, ◌+◌, ◌≡◌, refl, ◌∙◌, Bool, true, false, not, List, [], ◌∷◌, ◌++◌, ◌==◌,
  if◌then◌else◌, null_idx, arith, Returns, Bool-cases, inl, inr, ne_of_==,
}
use nanomatch.IdMap.{IdMap}
use nanomatch.IdMap.Probe.{IsTable}
use nanomatch.IdMap.Ends.{insert-Returns}
use nanomatch.Orders.{is_empty, Side, buy, sell, TopOfBook}
use nanomatch.Pool
use nanomatch.Book.State.{Book, put, set_level}
use nanomatch.Book.Level.{level_append}
use nanomatch.Book.Insert.{rest_order, raise_top, improves_bid, improves_ask}
use nanomatch.Book.Invariant.{Queues, IsBook}
use nanomatch.Book.Reference.{Ladder}
use nanomatch.Book.Represents.{Represents, contents}
use nanomatch.Book.Tops.{Tops, Tops-along, raise_top-Tops}
use nanomatch.Book.Rest.{
  filed, rest_order_runs, longer-IsBook, view_after, free_slots, priced, written,
}

-- A book and its resting orders, whatever room the map has left.
pub record Stands (b : Book) (l : Ladder) : Type 0 where
  pub queues : Queues
  pub free : List ℕ
  pub book : IsBook b queues free
  pub table : IsTable b.id_map
  pub view : (sd : Side) (at : ℕ) → contents b.pool.slots (queues sd at) ≡ l sd at

pub Represents-Stands : {b : Book} {l : Ladder} → Represents b l → Stands b l
Represents-Stands r = record {
  queues = r.queues;
  free = r.free;
  book = r.book;
  table = r.table;
  view = r.view;
}

Stands-top : (b : Book) (t : TopOfBook) (l : Ladder) → Stands b l → Stands (record b { tob = t }) l
Stands-top b t l r = record {
  queues = r.queues;
  free = r.free;
  book = r.book;
  table = r.table;
  view = r.view;
}

raise_top-Stands :
    (sd : Side) (at : ℕ) (b : Book) (l : Ladder) → Stands b l → Stands (raise_top sd at b) l
unfolding raise_top
raise_top-Stands buy at b l r = elim (Bool-cases (improves_bid at b)) [
  | inl e ↦ rw e (Stands-top b _ l r)
  | inr e ↦ rw e r
]
raise_top-Stands sell at b l r = elim (Bool-cases (improves_ask at b)) [
  | inl e ↦ rw e (Stands-top b _ l r)
  | inr e ↦ rw e r
]

-- What `rest_order` leaves: it succeeds unless the pool is used up.
abbrev pub Rested : Side → (id at remaining : ℕ) → Book → Ladder → Bool × Book → Type 0
Rested sd id at remaining b l out =
    let used_up = b.pool.free_head == null_idx in
    let after =
      if used_up then l else put l sd at (l sd at ++ record { id = id; qty = remaining } ∷ []) in
    (out.0 ≡ not used_up)
    × Stands out.1 after
    × Tops out.1 after
    × (out.1.band ≡ b.band)
    × (out.1.trades ≡ b.trades)

-- What no step on the way changes.
abbrev Kept : Book → Book → Type 0
Kept b b' = (b'.tob ≡ b.tob) × (b'.band ≡ b.band) × (b'.trades ≡ b.trades)

raise_top_rest :
    (sd : Side) (at : ℕ) (b : Book)
    → ((raise_top sd at b).band ≡ b.band) × ((raise_top sd at b).trades ≡ b.trades)
unfolding raise_top
raise_top_rest buy at b = (ground arith, ground arith)
raise_top_rest sell at b = (ground arith, ground arith)

append-Kept : (sd : Side) (at x : ℕ) (b : Book) → Kept b (level_append sd at x b)
unfolding level_append
append-Kept sd at x b = (ground arith, ground arith, ground arith)

price_if-Kept :
    (e : Bool) (b : Book) (sd : Side) (at price : ℕ)
    → Kept b
        (if e then set_level sd at (let l = b.levels sd at in record l { price = price }) b else b)
price_if-Kept true b sd at price = (refl, refl, refl)
price_if-Kept false b sd at price = (refl, refl, refl)

module _ (sd : Side) (id price at remaining : ℕ) (b : Book) (l : Ladder) (r : Represents b l)
    (tops : Tops b l) (near : at < b.band) (fits : b.band + 64 ≤ 2 ^ 32)
    (small : remaining < 2 ^ 32) where
  filed-Kept :
      (x : ℕ) (free : List ℕ) (e : r.free ≡ x ∷ free) (m : IdMap)
      → Kept b (filed sd id price at remaining b l r x free e small m)
  filed-Kept x free e m =
      let (tob, band, trades) =
        append-Kept sd at x (priced sd id price at remaining b l r x free e small) in
      let (tob', band', trades') =
        price_if-Kept (is_empty (b.levels sd at))
          (written sd id price at remaining b l r x free e small) sd at price in
      (tob ∙ tob', band ∙ band', trades ∙ trades')

  room_left :
      (b.pool.free_head == null_idx) ≡ false
      → Returns (rest_order sd id price at remaining b) (Rested sd id at remaining b l)
  room_left free_slot =
      let x = b.pool.free_head in
      let (free, e) =
        free_slots b.pool.slots x r.free r.book.chain (ne_of_== x null_idx free_slot) in
      let (m, ran, (table, _)) = insert-Returns b.id_map r.table r.room id x in
      let c = filed sd id price at remaining b l r x free e small m in
      let there : Stands c (put l sd at (l sd at ++ record { id = id; qty = remaining } ∷ [])) =
        record {
          queues = put r.queues sd at (r.queues sd at ++ x ∷ []);
          free = free;
          book = longer-IsBook sd id price at remaining b l r x free e small;
          table = table;
          view = view_after sd id price at remaining b l r x free e small;
        } in
      let (tob, band, trades) = filed-Kept x free e m in
      let (band', trades') = raise_top_rest sd at c in
      (
        _,
        rest_order_runs sd id price at remaining b l r x free e small m ran,
        rw free_slot (
          refl,
          raise_top-Stands sd at _ _ there,
          raise_top-Tops c at _ (omega (arith, near, band)) (omega (arith, fits, band)) sd l
              (Tops-along b c l (ap (λ t. t.best_ask) tob) (ap (λ t. t.best_bid) tob) band tops),
          band' ∙ band,
          trades' ∙ trades,
        ),
      )

  no_room :
      (b.pool.free_head == null_idx) ≡ true
      → Returns (rest_order sd id price at remaining b) (Rested sd id at remaining b l)
  unfolding rest_order Pool.allocate
  no_room used_up =
      ((false, b), rw used_up refl, rw used_up (refl, Represents-Stands r, tops, refl, refl))

  pub rest_order-Rested :
      Returns (rest_order sd id price at remaining b) (Rested sd id at remaining b l)
  rest_order-Rested = elim (Bool-cases (b.pool.free_head == null_idx)) [
    | inl used_up ↦ no_room used_up
    | inr free_slot ↦ room_left free_slot
  ]
