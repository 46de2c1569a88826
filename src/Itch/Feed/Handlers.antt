-- ===== src/Itch/Feed/Handlers.antt =====
-- The handlers of src/ingestion/ItchParser.cpp keep the owners right.
use nanomatch.Base.{
  ℕ, ◌+◌, ◌<◌, ◌≤◌, ◌≡◌, refl, ◌∙◌, ap, sym, Bool, true, false, ◌&&◌, Bool-cases, inl, inr, Option,
  none, some, length, ltb, ◌==◌, arith, if◌then◌else◌, null_idx, ==-true, u64,
}
use nanomatch.IdMap
use nanomatch.Orders.{Side}
use nanomatch.Book.State.{Book, order_at}
use nanomatch.Book.Insert.{insert_limit_order}
use nanomatch.Book.Feed.{cancel_order, execute_order, reduce_order_qty}
use nanomatch.Itch.Decode.{
  Message, add, executed, canceled, deleted, replaced, Decoded, message, skipped, past_end,
}
use nanomatch.Itch.Decode.Range.{InRange}
use nanomatch.Itch.Feed.{
  Config, Feed, Outcome, done, ◌>>=◌, call, deref, is_tracked, max_stock_locate, sample, timed,
  set_book, set_owner, book_for, inserted, add_order, after_insert, after_execute, after_reduce,
  after_cancel, after_move, insert_new, execute, hit, at_owner, owner_of, cancel, delete,
  replace_in, replace, apply, handle,
}
use nanomatch.Outcome.{Safe, bind-Safe, call-Safe}
use nanomatch.Itch.Feed.Owners.{
  Owned, deref-Safe, length-sample, set_book-Owned, set_owner-Owned, no_owner-Owned,
}

module _ (cfg : Config) where
  either-Owned :
      (b : Bool) {f g : Feed} → Owned cfg f → Owned cfg g → Owned cfg (if b then f else g)
  either-Owned true o p = o
  either-Owned false o p = p

  -- The fields that `Owned` reads are the same.
  pub same-Owned :
      (f g : Feed)
      → Owned cfg f
      → g.market_books ≡ f.market_books
      → g.ref_owner ≡ f.ref_owner
      → length g.sample_inserts ≤ 16
      → length g.sample_execs ≤ 16
      → Owned cfg g
  same-Owned f g o books owners few_inserts few_execs = record {
    tracked = λ l b e. o.tracked l b (ap (λ m. m l) (sym books) ∙ e);
    owned = λ id l e.
        let (b, there) = o.owned id l (ap (λ m. m id) (sym owners) ∙ e) in
        (b, ap (λ m. m l) books ∙ there);
    few_inserts = few_inserts;
    few_execs = few_execs;
  }

  -- The book of the owner is written.
  write-Owned :
      (id locate : ℕ) (b c : Book) (f : Feed)
      → f.ref_owner id ≡ some locate
      → f.market_books locate ≡ some b
      → Owned cfg f
      → Owned cfg (set_book locate c f)
  write-Owned id locate b c f owner there o =
      set_book-Owned cfg locate c f (o.tracked locate b there) o

  written_there :
      (locate : ℕ) (b : Book) (f : Feed) → (set_book locate b f).market_books locate ≡ some b
  written_there locate b f = rw (==-true {a = locate} {b = locate} refl) refl

  add_order-Safe :
      (locate id : ℕ) (side : Side) (price shares : ℕ) (f : Feed)
      → Owned cfg f
      → Safe (Owned cfg) (add_order cfg locate id side price shares f)
  unfolding add_order
  add_order-Safe locate id side price shares f o =
      elim (Bool-cases (ltb locate max_stock_locate && is_tracked cfg locate)) [
        | inl mine ↦ rw mine (
            call-Safe (Owned cfg)
              (insert_limit_order id side price shares
                (book_for cfg locate (f.market_books locate)))
              (after_insert locate id (record f { tracked_adds = u64 (f.tracked_adds + 1) }))
              (λ r.
                let here : (locate < max_stock_locate) × (is_tracked cfg locate ≡ true) =
                  ground (arith, mine) in
                let counted : Feed = record f { tracked_adds = u64 (f.tracked_adds + 1) } in
                let kept = same-Owned f counted o refl refl o.few_inserts o.few_execs in
                let g = set_book locate r.1 counted in
                let written : Owned cfg g = set_book-Owned cfg locate r.1 counted here kept in
                let owner =
                  set_owner-Owned cfg id locate r.1 g (written_there locate r.1 counted) written in
                either-Owned r.0
                  (same-Owned (set_owner id (some locate) g) (inserted locate id g) owner refl refl
                    (length-sample id f.sample_inserts o.few_inserts) o.few_execs)
                  written))
        | inr other ↦ rw other o
      ]

  -- What is done at the owner of an id, and without one.
  at_owner-Safe :
      (id : ℕ) (f : Feed) (found : ℕ → Book → Outcome Feed) (absent : Outcome Feed)
      → Owned cfg f
      → ((locate : ℕ) (b : Book)
          → f.ref_owner id ≡ some locate
          → f.market_books locate ≡ some b
          → Safe (Owned cfg) (found locate b))
      → Safe (Owned cfg) absent
      → Safe (Owned cfg) (at_owner id f found absent)
  at_owner-Safe id f found absent o there free = by_owner (f.ref_owner id) refl
    where
      by_owner :
          (owner : Option ℕ)
          → f.ref_owner id ≡ owner
          → Safe
              (Owned cfg)
              (owner_of owner (λ locate. deref (f.market_books locate) >>= found locate) absent)
      by_owner none e = free
      by_owner (some locate) e =
          let (b, has) = o.owned id locate e in
          deref-Safe (Owned cfg) (f.market_books locate) (found locate) b has (there locate b e has)

  execute-Safe : (id shares : ℕ) (f : Feed) → Owned cfg f → Safe (Owned cfg) (execute id shares f)
  unfolding execute
  execute-Safe id shares f o =
      let g : Feed = record f { execute_calls = u64 (f.execute_calls + 1) } in
      let kept = same-Owned f g o refl refl o.few_inserts o.few_execs in
      at_owner-Safe id g
        (λ locate b. call (execute_order id shares b) >>= after_execute locate id g) _ kept
        (λ locate b owner there.
          call-Safe (Owned cfg) (execute_order id shares b) (after_execute locate id g) (λ r.
            let h = set_book locate r.1 g in
            let written : Owned cfg h = write-Owned id locate b r.1 g owner there kept in
            let gone = no_owner-Owned cfg id h written in
            either-Owned r.0
              (same-Owned (set_owner id none h) (hit id h) gone refl refl o.few_inserts o.few_execs)
              written))
        (same-Owned g (record g { sample_execs = sample id g.sample_execs }) kept refl refl
          kept.few_inserts (length-sample id g.sample_execs kept.few_execs))

  cancel-Safe : (id shares : ℕ) (f : Feed) → Owned cfg f → Safe (Owned cfg) (cancel id shares f)
  unfolding cancel
  cancel-Safe id shares f o =
      at_owner-Safe id f
        (λ locate b. call (reduce_order_qty id shares b) >>= after_reduce locate id f) _ o
        (λ locate b owner there.
          call-Safe (Owned cfg) (reduce_order_qty id shares b) (after_reduce locate id f) (λ r.
            let g = set_book locate r.1 f in
            let written : Owned cfg g = write-Owned id locate b r.1 f owner there o in
            either-Owned r.0 (no_owner-Owned cfg id g written) written))
        o

  delete-Safe : (id : ℕ) (f : Feed) → Owned cfg f → Safe (Owned cfg) (delete id f)
  unfolding delete
  delete-Safe id f o =
      at_owner-Safe id f (λ locate b. call (cancel_order id b) >>= after_cancel locate id f) _ o
        (λ locate b owner there.
          call-Safe (Owned cfg) (cancel_order id b) (after_cancel locate id f) (λ c.
            no_owner-Owned cfg id (set_book locate c f)
              (write-Owned id locate b c f owner there o)))
        o

  insert_new-Safe :
      (locate original new price shares : ℕ) (side : Side) (b c : Book) (f : Feed)
      → f.ref_owner original ≡ some locate
      → f.market_books locate ≡ some b
      → Owned cfg f
      → Safe (Owned cfg) (insert_new locate original new price shares side f c)
  insert_new-Safe locate original new price shares side b c f owner there o =
      call-Safe (Owned cfg) (insert_limit_order new side price shares c)
        (after_move locate original new f)
        (λ r.
          let g = set_owner original none (set_book locate r.1 f) in
          let kept : Owned cfg g =
            no_owner-Owned cfg original (set_book locate r.1 f)
              (write-Owned original locate b r.1 f owner there o) in
          either-Owned r.0 (set_owner-Owned cfg new locate r.1 g (written_there locate r.1 f) kept)
            kept)

  replace_in-Safe :
      (locate original new price shares idx : ℕ) (b : Book) (f : Feed)
      → f.ref_owner original ≡ some locate
      → f.market_books locate ≡ some b
      → Owned cfg f
      → Safe (Owned cfg) (replace_in locate original new price shares f b idx)
  replace_in-Safe locate original new price shares idx b f owner there o =
      elim (Bool-cases (idx == null_idx)) [
        | inl absent ↦ rw absent o
        | inr present ↦ rw present (
            call-Safe (Owned cfg) (cancel_order original b)
              (insert_new locate original new price shares (order_at b idx).side f)
              (λ c. insert_new-Safe locate original new price shares _ b c f owner there o))
      ]

  replace-Safe :
      (original new price shares : ℕ) (f : Feed)
      → Owned cfg f
      → Safe (Owned cfg) (replace original new price shares f)
  unfolding replace
  replace-Safe original new price shares f o =
      at_owner-Safe original f
        (λ locate b.
          call (IdMap.find b.id_map original) >>= replace_in locate original new price shares f b)
        _ o
        (λ locate b owner there.
          call-Safe (Owned cfg) (IdMap.find b.id_map original)
            (replace_in locate original new price shares f b)
            (λ idx. replace_in-Safe locate original new price shares idx b f owner there o))
        o

  apply-Safe : (m : Message) (f : Feed) → Owned cfg f → Safe (Owned cfg) (apply cfg m f)
  apply-Safe (add locate id side price shares) f o = add_order-Safe locate id side price shares f o
  apply-Safe (executed id shares) f o = execute-Safe id shares f o
  apply-Safe (canceled id shares) f o = cancel-Safe id shares f o
  apply-Safe (deleted id) f o = delete-Safe id f o
  apply-Safe (replaced original new price shares) f o = replace-Safe original new price shares f o

  pub handle-Safe :
      (d : Decoded) (f : Feed) → InRange d → Owned cfg f → Safe (Owned cfg) (handle cfg d f)
  handle-Safe (message m) f r o =
      bind-Safe (Owned cfg) (apply cfg m f) (λ g. done (timed g)) (apply-Safe m f o)
        (λ g k. same-Owned g (timed g) k refl refl k.few_inserts k.few_execs)
  handle-Safe skipped f r o = o
  handle-Safe past_end f r o = absurd r
