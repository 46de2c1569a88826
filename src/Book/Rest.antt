-- ===== src/Book/Rest.antt =====
-- What is left of a limit order rests (src/core/OrderBook.cpp, `insert_limit_order`).
pub mod Cases
use nanomatch.Base.{
  ℕ, ◌^◌, ◌<◌, ◌≡◌, ◌≢◌, refl, ap, sym, ◌∙◌, true, false, some, ◌>>=◌, List, [], ◌∷◌, ◌++◌, ◌==◌,
  if◌then◌else◌, null_idx, arith, Returns, ==-true, ==-false,
}
use mathlib.Core.Option.{some_inj}
use nanomatch.IdMap.{IdMap}
use nanomatch.IdMap
use nanomatch.IdMap.Probe.{IsTable, HasRoom}
use nanomatch.Orders.{Side, is_empty}
use nanomatch.Pool
use nanomatch.Queue.{Slots, has}
use nanomatch.Book.State.{Book, put, order_at, set_order, set_level, one_more_live}
use nanomatch.Book.Level.{level_append}
use nanomatch.Book.Insert.{rest_order, place_order, raise_top}
use nanomatch.Book.Invariant.{IsBook, FreeChain, by_place, put_self, put_other}
use nanomatch.Book.Invariant.Slot.{allocate-IsBook}
use nanomatch.Book.Invariant.Append.{level_append-IsBook}
use nanomatch.IdMap.Ends.{insert-Returns}
use nanomatch.Book.Reference.{Resting, Ladder}
use nanomatch.Book.Represents.{Represents, contents, contents_frame, contents-append}
use nanomatch.Book.Place.{
  append_data, set_order-IsBook, price_if-IsBook, price_if_pool, allocate_data, append_maps,
  price_if_maps, raise_top-Represents,
}

module _ (sd : Side) (id price at remaining : ℕ) (b : Book) (l : Ladder) (r : Represents b l)
    (x : ℕ) (free : List ℕ) (some_free : r.free ≡ x ∷ free) (small : remaining < 2 ^ 32) where
  abbrev given : Book
  given = record b { pool = (Pool.allocate b.pool).1 }

  abbrev written : Book
  written =
      set_order x (record (order_at given x) { id = id; price = at; qty = remaining; side = sd })
        given

  abbrev priced : Book
  priced =
      let level = written.levels sd at in
      if is_empty level then set_level sd at (record level { price = price }) written else written

  was : IsBook b r.queues (x ∷ free)
  was = rw some_free at r.book

  given-IsBook : ((Pool.allocate b.pool).0 ≡ x) × IsBook given r.queues free
  given-IsBook = allocate-IsBook b r.queues x free was

  out : (t : Side) (i : ℕ) → has x (r.queues t i) ≡ false
  out = was.apart x (ground arith)

  written-IsBook : IsBook written r.queues free
  written-IsBook = set_order-IsBook given r.queues free x _ given-IsBook.1 (was.free_distinct.0) out

  priced-IsBook : IsBook priced r.queues free
  priced-IsBook =
      price_if-IsBook (is_empty (b.levels sd at)) written r.queues free sd at price written-IsBook

  priced_pool : priced.pool ≡ written.pool
  priced_pool = price_if_pool (is_empty (b.levels sd at)) written sd at price

  order_there :
      written.pool.slots x
      ≡ record (order_at given x) { id = id; price = at; qty = remaining; side = sd }
  order_there = rw (==-true {a = x} {b = x} refl) refl

  abbrev appended : Book
  appended = level_append sd at x priced

  longer-IsBook : IsBook appended (put r.queues sd at (r.queues sd at ++ x ∷ [])) free
  longer-IsBook =
      level_append-IsBook sd at x priced r.queues free priced-IsBook
        (rw priced_pool (rw ((allocate_data b.pool).0) (was.free_inside x (ground arith))))
        (was.free_distinct.0) out
        (rw (priced_pool, order_there) (record { here = refl; side = refl; small = small }))

  abbrev rested : List Resting
  rested = l sd at ++ record { id = id; qty = remaining } ∷ []

  view_after :
      (t : Side) (j : ℕ)
      → contents appended.pool.slots (put r.queues sd at (r.queues sd at ++ x ∷ []) t j)
        ≡ put l sd at rested t j
  view_after =
      by_place
        (λ t j.
          contents appended.pool.slots (put r.queues sd at (r.queues sd at ++ x ∷ []) t j)
          ≡ put l sd at rested t j)
        sd at
        (rw
          (
            put_self r.queues sd at (r.queues sd at ++ x ∷ []),
            put_self l sd at rested,
            contents-append appended.pool.slots (r.queues sd at) (x ∷ []),
            mine.0,
            mine.1,
          )
          (ap (λ os. os ++ record { id = id; qty = remaining } ∷ []) (others sd at)))
        (λ t j apart.
          rw
            (
              put_other r.queues sd at (r.queues sd at ++ x ∷ []) apart,
              put_other l sd at rested apart,
            )
            (others t j))
    where
      mine : ((appended.pool.slots x).id ≡ id) × ((appended.pool.slots x).qty ≡ remaining)
      mine =
          let (a, c) = append_data sd at x priced x in
          (a ∙ rw (priced_pool, order_there) refl, c ∙ rw (priced_pool, order_there) refl)

      others : (t : Side) (j : ℕ) → contents appended.pool.slots (r.queues t j) ≡ l t j
      others t j =
          contents_frame b.pool.slots appended.pool.slots (r.queues t j) (λ z m.
            let (a, c) = append_data sd at x priced z in
            let ne : (x == z) ≡ false = ==-false {a = x} {b = z} (λ i. cc (rw i at (out t j), m)) in
            let (d, e) = (allocate_data b.pool).1 z in
            (a ∙ rw (priced_pool, ne) d, c ∙ rw (priced_pool, ne) e))
          ∙ r.view t j

  -- The book when the map has the order.
  abbrev filed : IdMap → Book
  filed m = one_more_live (record appended { id_map = m })

  filed-Represents : (m : IdMap) → IsTable m → HasRoom m → Represents (filed m) (put l sd at rested)
  filed-Represents m table room = record {
    queues = put r.queues sd at (r.queues sd at ++ x ∷ []);
    free = free;
    book = longer-IsBook;
    table = table;
    room = room;
    view = view_after;
  }

  rest_order_runs :
      (m : IdMap)
      → IdMap.insert b.id_map id x ≡ some m
      → rest_order sd id price at remaining b ≡ some (true, raise_top sd at (filed m))
  unfolding rest_order
  rest_order_runs m inserted =
      let real : (x == null_idx) ≡ false = ==-false {a = x} {b = null_idx} (was.chain.1) in
      let same : appended.id_map ≡ b.id_map =
        append_maps sd at x priced
        ∙ price_if_maps (is_empty (b.levels sd at)) written sd at price in
      ap
        (λ slot.
          if slot == null_idx
          then some (false, given)
          else place_order sd id price at remaining slot given)
        given-IsBook.0
      ∙ ap
          (λ stop.
            if stop then some (false, given) else place_order sd id price at remaining x given)
          real
      ∙ ap (λ map. IdMap.insert map id x >>= λ m. some (true, raise_top sd at (filed m))) same
      ∙ ap (λ o. o >>= λ m. some (true, raise_top sd at (filed m))) inserted

  rested_there :
      (m : IdMap)
      → IdMap.insert b.id_map id x ≡ some m
      → HasRoom m
      → Returns
          (rest_order sd id price at remaining b)
          (λ out. (out.0 ≡ true) × Represents out.1 (put l sd at rested))
  rested_there m inserted room =
      let (m', ran, (table, _)) = insert-Returns b.id_map r.table r.room id x in
      let same : m' ≡ m = some_inj.0 (sym ran ∙ inserted) in
      (
        (true, raise_top sd at (filed m)),
        rest_order_runs m inserted,
        (refl, raise_top-Represents sd at (filed m) _ (filed-Represents m (rw same at table) room)),
      )

free_slots :
    (s : Slots) (head : ℕ) (free : List ℕ)
    → FreeChain s head free
    → head ≢ null_idx
    → (rest : List ℕ) × (free ≡ head ∷ rest)
free_slots s head [] chain some_slot = absurd (some_slot chain)
free_slots s head (x ∷ free) (e, _, _) some_slot = (free, ap (λ z. z ∷ free) (sym e))

-- On a book that represents `l`, where the pool has a free slot, the quantity is below 2^32, and
-- the insertion of the id ends in a map that still has an empty entry, the order rests: the result
-- is true, and the book represents `l` with the order at the end of the queue of its side and
-- index.
pub rest_order-Represents :
    (sd : Side) (id price at remaining : ℕ) (b : Book) (l : Ladder) (m : IdMap)
    → Represents b l
    → b.pool.free_head ≢ null_idx
    → remaining < 2 ^ 32
    → IdMap.insert b.id_map id b.pool.free_head ≡ some m
    → HasRoom m
    → Returns (rest_order sd id price at remaining b) (λ out.
      (out.0 ≡ true)
      × Represents out.1 (put l sd at (l sd at ++ record { id = id; qty = remaining } ∷ [])))
rest_order-Represents sd id price at remaining b l m r some_slot small inserted room =
    let (free, e) = free_slots b.pool.slots b.pool.free_head r.free r.book.chain some_slot in
    rested_there sd id price at remaining b l r b.pool.free_head free e small m inserted room
