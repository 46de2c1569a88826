-- ===== src/Itch/Feed.antt =====
-- The state of `parse_itch_file` (src/ingestion/ItchParser.cpp) and what it does for each message.
pub mod Owners
pub mod Handlers
pub mod Untouched
pub use nanomatch.Outcome.{
  Outcome, done, read_past_end, no_book, book_loops, out_of_rounds, ◌>>=◌, call,
}
use nanomatch.Base.{
  ℕ, suc, ◌+◌, ◌^◌, Bool, true, false, ◌&&◌, ◌||◌, Option, none, some, List, [], ◌∷◌, ◌++◌, length,
  ltb, ◌==◌, if◌then◌else◌, update, u64, null_idx,
}
use nanomatch.IdMap
use nanomatch.Orders.{Side}
use nanomatch.Spsc.{sub64}
use nanomatch.Book.State.{Book, order_at}
use nanomatch.Book.State
use nanomatch.Book.Insert.{insert_limit_order}
use nanomatch.Book.Feed.{cancel_order, execute_order, reduce_order_qty}
use nanomatch.Itch.Decode.{
  Message, add, executed, canceled, deleted, replaced, Decoded, message, skipped, past_end,
}

-- `kMaxStockLocate`
abbrev pub max_stock_locate : ℕ
max_stock_locate = 8192

-- The arguments. `clocks` are the time stamps that each book will read.
pub record Config : Type 0 where
  pub allowed_locates : List ℕ
  pub price_band : ℕ
  pub max_orders : ℕ
  pub clocks : ℕ → ℕ → ℕ

-- The local variables. An owner is the index of its book in `market_books`, whose pointer it stands
-- for. `clock` are the time stamps that the parser itself will read.
pub record Feed : Type 0 where
  pub market_books : ℕ → Option Book
  pub ref_owner : ℕ → Option ℕ
  pub message_count : ℕ
  pub tracked_adds : ℕ
  pub successful_inserts : ℕ
  pub execute_calls : ℕ
  pub execute_hits : ℕ
  pub sample_inserts : List ℕ
  pub sample_execs : List ℕ
  pub latency_samples : List ℕ
  pub clock : ℕ → ℕ

abbrev pub new : (ℕ → ℕ) → Feed
new clock = record {
  market_books = λ _. none;
  ref_owner = λ _. none;
  message_count = 0;
  tracked_adds = 0;
  successful_inserts = 0;
  execute_calls = 0;
  execute_hits = 0;
  sample_inserts = [];
  sample_execs = [];
  latency_samples = [];
  clock = clock;
}

abbrev pub has_locate : ℕ → List ℕ → Bool
has_locate a [] = false
has_locate a (x ∷ xs) = (a == x) || has_locate a xs

abbrev pub no_locates : List ℕ → Bool
no_locates [] = true
no_locates (x ∷ xs) = false

abbrev pub is_tracked : Config → ℕ → Bool
is_tracked cfg locate = no_locates cfg.allowed_locates || has_locate locate cfg.allowed_locates

-- `if (samples.size() < 16) samples.push_back(id)`
abbrev pub sample : ℕ → List ℕ → List ℕ
sample id ids = if ltb (length ids) 16 then ids ++ (id ∷ []) else ids

-- `latency_samples.push_back(rdtsc() - t0)`, for the two time stamps of a message.
abbrev pub timed : Feed → Feed
timed f = record f {
  latency_samples = f.latency_samples ++ (sub64 (f.clock 1) (f.clock 0) ∷ []);
  clock = λ n. f.clock (suc (suc n));
}

abbrev pub set_book : ℕ → Book → Feed → Feed
set_book locate b f = record f { market_books = update f.market_books locate (some b) }

abbrev pub set_owner : ℕ → Option ℕ → Feed → Feed
set_owner id owner f = record f { ref_owner = update f.ref_owner id owner }

-- The book of a locate, made when it is first asked for.
abbrev pub book_for : Config → ℕ → Option Book → Book
book_for cfg locate none = State.new cfg.price_band cfg.max_orders (cfg.clocks locate)
book_for cfg locate (some b) = b

-- The insertion of an order succeeded.
abbrev pub inserted : (locate id : ℕ) → Feed → Feed
inserted locate id f = record (set_owner id (some locate) f) {
  successful_inserts = u64 (f.successful_inserts + 1);
  sample_inserts = sample id f.sample_inserts;
}

abbrev pub after_insert : (locate id : ℕ) → Feed → Bool × Book → Outcome Feed
after_insert locate id f r =
    let g = set_book locate r.1 f in done (if r.0 then inserted locate id g else g)

unfoldable pub add_order :
    Config → (locate id : ℕ) → Side → (price shares : ℕ) → Feed → Outcome Feed
add_order cfg locate id side price shares f =
    let counted = record f { tracked_adds = u64 (f.tracked_adds + 1) } in
    let added =
      call (insert_limit_order id side price shares (book_for cfg locate (f.market_books locate)))
      >>= after_insert locate id counted in
    if ltb locate max_stock_locate && is_tracked cfg locate then added else done f

-- What an owner points to.
abbrev pub deref : Option Book → Outcome Book
deref none = no_book
deref (some b) = done b

abbrev pub owner_of : Option ℕ → (ℕ → Outcome Feed) → Outcome Feed → Outcome Feed
owner_of none found absent = absent
owner_of (some locate) found absent = found locate

-- `auto it = ref_owner.find(id)`, and the two sides of `it != ref_owner.end()`.
abbrev pub at_owner : ℕ → Feed → (ℕ → Book → Outcome Feed) → Outcome Feed → Outcome Feed
at_owner id f found absent =
    owner_of (f.ref_owner id) (λ locate. deref (f.market_books locate) >>= found locate) absent

abbrev pub hit : ℕ → Feed → Feed
hit id f = record (set_owner id none f) { execute_hits = u64 (f.execute_hits + 1) }

abbrev pub after_execute : (locate id : ℕ) → Feed → Bool × Book → Outcome Feed
after_execute locate id f r = let g = set_book locate r.1 f in done (if r.0 then hit id g else g)

unfoldable pub execute : (id shares : ℕ) → Feed → Outcome Feed
execute id shares f =
    let g = record f { execute_calls = u64 (f.execute_calls + 1) } in
    at_owner id g (λ locate b. call (execute_order id shares b) >>= after_execute locate id g)
      (done (record g { sample_execs = sample id g.sample_execs }))

abbrev pub after_reduce : (locate id : ℕ) → Feed → Bool × Book → Outcome Feed
after_reduce locate id f r =
    let g = set_book locate r.1 f in done (if r.0 then set_owner id none g else g)

unfoldable pub cancel : (id canceled_shares : ℕ) → Feed → Outcome Feed
cancel id canceled_shares f =
    at_owner id f
      (λ locate b. call (reduce_order_qty id canceled_shares b) >>= after_reduce locate id f)
      (done f)

abbrev pub after_cancel : (locate id : ℕ) → Feed → Book → Outcome Feed
after_cancel locate id f b = done (set_owner id none (set_book locate b f))

unfoldable pub delete : (id : ℕ) → Feed → Outcome Feed
delete id f =
    at_owner id f (λ locate b. call (cancel_order id b) >>= after_cancel locate id f) (done f)

abbrev pub after_move : (locate original new : ℕ) → Feed → Bool × Book → Outcome Feed
after_move locate original new f r =
    let g = set_owner original none (set_book locate r.1 f) in
    done (if r.0 then set_owner new (some locate) g else g)

-- The new order comes to the book that the old one has left, on the same side.
abbrev pub insert_new : (locate original new price shares : ℕ) → Side → Feed → Book → Outcome Feed
insert_new locate original new price shares side f b =
    call (insert_limit_order new side price shares b) >>= after_move locate original new f

abbrev pub replace_in : (locate original new price shares : ℕ) → Feed → Book → ℕ → Outcome Feed
replace_in locate original new price shares f b idx =
    let moved =
      call (cancel_order original b)
      >>= insert_new locate original new price shares (order_at b idx).side f in
    if idx == null_idx then done f else moved

unfoldable pub replace : (original new price shares : ℕ) → Feed → Outcome Feed
replace original new price shares f =
    at_owner original f
      (λ locate b.
        call (IdMap.find b.id_map original) >>= replace_in locate original new price shares f b)
      (done f)

abbrev pub apply : Config → Message → Feed → Outcome Feed
apply cfg (add locate id side price shares) f = add_order cfg locate id side price shares f
apply cfg (executed id shares) f = execute id shares f
apply cfg (canceled id shares) f = cancel id shares f
apply cfg (deleted id) f = delete id f
apply cfg (replaced original new price shares) f = replace original new price shares f

-- A case of the switch, between the two readings of the clock.
abbrev pub handle : Config → Decoded → Feed → Outcome Feed
handle cfg (message m) f = apply cfg m f >>= λ g. done (timed g)
handle cfg skipped f = done f
handle cfg past_end f = read_past_end
