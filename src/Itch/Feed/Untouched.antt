-- ===== src/Itch/Feed/Untouched.antt =====
-- What a message of src/ingestion/ItchParser.cpp leaves alone.
use nanomatch.Base.{
  ℕ, ◌+◌, ◌≡◌, ◌≢◌, refl, ap, ◌∙◌, Bool, true, false, ◌&&◌, Option, none, some, ltb, ◌==◌,
  if◌then◌else◌, null_idx, ==-false, u64,
}
use nanomatch.IdMap
use nanomatch.Book.State.{Book, order_at}
use nanomatch.Book.Insert.{insert_limit_order}
use nanomatch.Book.Feed.{cancel_order, execute_order, reduce_order_qty}
use nanomatch.Itch.Decode.{Message, add, executed, canceled, deleted, replaced, message}
use nanomatch.Itch.Feed.{
  Config, Feed, Outcome, done, read_past_end, no_book, book_loops, out_of_rounds, ◌>>=◌, call,
  deref, is_tracked, max_stock_locate, timed, set_book, book_for, add_order, after_insert,
  after_execute, after_reduce, after_cancel, after_move, insert_new, execute, at_owner, owner_of,
  cancel, delete, replace_in, replace, apply, handle,
}

-- The book that a message is about: that of its locate, or of the owner of its order.
abbrev pub book_of : Message → Feed → Option ℕ
book_of (add locate id side price shares) f = some locate
book_of (executed id shares) f = f.ref_owner id
book_of (canceled id shares) f = f.ref_owner id
book_of (deleted id) f = f.ref_owner id
book_of (replaced original new price shares) f = f.ref_owner original

-- Where the run ends well, the result satisfies `P`.
abbrev pub Ends : (Feed → Type 0) → Outcome Feed → Type 0
Ends P (done g) = P g
Ends P _ = Unit

call-Ends {ℓ} :
    {A : Type ℓ} (P : Feed → Type 0) (o : Option A) (f : A → Outcome Feed)
    → ((a : A) → Ends P (f a))
    → Ends P (call o >>= f)
call-Ends P none f h = tt
call-Ends P (some a) f h = h a

either-Ends :
    (P : Feed → Type 0) (b : Bool) (x y : Outcome Feed)
    → Ends P x
    → Ends P y
    → Ends P (if b then x else y)
either-Ends P true x y h k = h
either-Ends P false x y h k = k

either_feed : (P : Feed → Type 0) (b : Bool) {x y : Feed} → P x → P y → P (if b then x else y)
either_feed P true h k = h
either_feed P false h k = k

at_owner-Ends :
    (P : Feed → Type 0) (id : ℕ) (f : Feed) (found : ℕ → Book → Outcome Feed)
    (absent : Outcome Feed)
    → ((locate : ℕ) (b : Book) → f.ref_owner id ≡ some locate → Ends P (found locate b))
    → Ends P absent
    → Ends P (at_owner id f found absent)
at_owner-Ends P id f found absent h k = by_owner (f.ref_owner id) refl
  where
    at_book :
        (locate : ℕ)
        → f.ref_owner id ≡ some locate
        → (o : Option Book) → Ends P (deref o >>= found locate)
    at_book locate e none = tt
    at_book locate e (some b) = h locate b e

    by_owner :
        (owner : Option ℕ)
        → f.ref_owner id ≡ owner
        → Ends P (owner_of owner (λ locate. deref (f.market_books locate) >>= found locate) absent)
    by_owner none e = k
    by_owner (some locate) e = at_book locate e (f.market_books locate)

-- Another book.
module _ (l : ℕ) where
  abbrev SameBook : Feed → Feed → Type 0
  SameBook f g = g.market_books l ≡ f.market_books l

  set_book-SameBook :
      (locate : ℕ) (b : Book) (f : Feed) → some locate ≢ some l → SameBook f (set_book locate b f)
  set_book-SameBook locate b f other =
      rw (==-false {a = locate} {b = l} (λ e. other (ap some e))) refl

  apply-SameBook :
      (cfg : Config) (m : Message) (f : Feed)
      → book_of m f ≢ some l
      → Ends (SameBook f) (apply cfg m f)
  unfolding add_order execute cancel delete replace
  apply-SameBook cfg (add locate id side price shares) f other =
      let P = SameBook f in
      either-Ends P (ltb locate max_stock_locate && is_tracked cfg locate) _ _
        (call-Ends P
          (insert_limit_order id side price shares (book_for cfg locate (f.market_books locate)))
          (after_insert locate id (record f { tracked_adds = u64 (f.tracked_adds + 1) }))
          (λ r.
            either_feed P r.0 (set_book-SameBook locate r.1 f other)
              (set_book-SameBook locate r.1 f other)))
        refl
  apply-SameBook cfg (executed id shares) f other =
      let P = SameBook f in
      let g : Feed = record f { execute_calls = u64 (f.execute_calls + 1) } in
      at_owner-Ends P id g
        (λ locate b. call (execute_order id shares b) >>= after_execute locate id g) _
        (λ locate b owner. call-Ends P (execute_order id shares b) (after_execute locate id g) (λ r.
          let away : some locate ≢ some l = λ e. other (owner ∙ e) in
          either_feed P r.0 (set_book-SameBook locate r.1 f away)
            (set_book-SameBook locate r.1 f away)))
        refl
  apply-SameBook cfg (canceled id shares) f other =
      let P = SameBook f in
      at_owner-Ends P id f
        (λ locate b. call (reduce_order_qty id shares b) >>= after_reduce locate id f) _
        (λ locate b owner.
          call-Ends P (reduce_order_qty id shares b) (after_reduce locate id f) (λ r.
            let away : some locate ≢ some l = λ e. other (owner ∙ e) in
            either_feed P r.0 (set_book-SameBook locate r.1 f away)
              (set_book-SameBook locate r.1 f away)))
        refl
  apply-SameBook cfg (deleted id) f other =
      let P = SameBook f in
      at_owner-Ends P id f (λ locate b. call (cancel_order id b) >>= after_cancel locate id f) _
        (λ locate b owner.
          call-Ends P (cancel_order id b) (after_cancel locate id f)
            (λ c. set_book-SameBook locate c f (λ e. other (owner ∙ e))))
        refl
  apply-SameBook cfg (replaced original new price shares) f other =
      let P = SameBook f in
      at_owner-Ends P original f
        (λ locate b.
          call (IdMap.find b.id_map original) >>= replace_in locate original new price shares f b)
        _
        (λ locate b owner.
          call-Ends P (IdMap.find b.id_map original)
            (replace_in locate original new price shares f b)
            (λ idx. either-Ends P (idx == null_idx) _ _ refl (
              call-Ends P (cancel_order original b)
                (insert_new locate original new price shares (order_at b idx).side f)
                (λ c.
                  call-Ends P (insert_limit_order new (order_at b idx).side price shares c)
                    (after_move locate original new f)
                    (λ r.
                      let away : some locate ≢ some l = λ e. other (owner ∙ e) in
                      either_feed P r.0 (set_book-SameBook locate r.1 f away)
                        (set_book-SameBook locate r.1 f away))))))
        refl

  timed-Ends :
      (f : Feed) (o : Outcome Feed)
      → Ends (SameBook f) o
      → Ends (SameBook f) (o >>= λ g. done (timed g))
  timed-Ends f (done g) h = h
  timed-Ends f read_past_end h = tt
  timed-Ends f no_book h = tt
  timed-Ends f book_loops h = tt
  timed-Ends f out_of_rounds h = tt

  -- Where the handling of a message is done, every book other than that of its locate, or of the
  -- owner of its order, is what it was.
  pub handle-SameBook :
      (cfg : Config) (m : Message) (f : Feed)
      → book_of m f ≢ some l
      → Ends (λ g. g.market_books l ≡ f.market_books l) (handle cfg (message m) f)
  handle-SameBook cfg m f other = timed-Ends f (apply cfg m f) (apply-SameBook cfg m f other)
