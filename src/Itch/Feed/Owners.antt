-- ===== src/Itch/Feed/Owners.antt =====
-- Every owner in `ref_owner` (src/ingestion/ItchParser.cpp) points to a book.
use nanomatch.Base.{
  ℕ, ◌<◌, ◌≤◌, ◌≡◌, refl, sym, true, Bool-cases, inl, inr, Option, none, some, List, [], ◌∷◌,
  length, length-append, ◌==◌, arith, if◌then◌else◌, eq_of_==,
}
use mathlib.Core.Path.{subst}
use mathlib.Core.Option.{some_inj, none-ne-some}
use nanomatch.Book.State.{Book}
use nanomatch.Outcome.{Safe}
use nanomatch.Itch.Feed.{
  Config, Feed, Outcome, ◌>>=◌, deref, is_tracked, max_stock_locate, sample, set_book, set_owner,
}

-- A book is only made for a locate that is tracked and fits the vector; an owner has its book; the
-- samples stay short.
pub record Owned (cfg : Config) (f : Feed) : Type 0 where
  pub tracked :
      (locate : ℕ) (b : Book)
      → f.market_books locate ≡ some b
      → (locate < max_stock_locate) × (is_tracked cfg locate ≡ true)
  pub owned :
      (id locate : ℕ) → f.ref_owner id ≡ some locate → (b : Book) × (f.market_books locate ≡ some b)
  pub few_inserts : length f.sample_inserts ≤ 16
  pub few_execs : length f.sample_execs ≤ 16

pub deref-Safe {ℓ} :
    {B : Type ℓ} (Q : B → Type 0) (o : Option Book) (f : Book → Outcome B) (b : Book)
    → o ≡ some b
    → Safe Q (f b)
    → Safe Q (deref o >>= f)
deref-Safe Q o f b e q = subst (λ x. Safe Q (deref x >>= f)) (sym e) q

pub length-sample : (id : ℕ) (ids : List ℕ) → length ids ≤ 16 → length (sample id ids) ≤ 16
length-sample id ids h = ground (arith, length-append ids (id ∷ []))

module _ (cfg : Config) where
  -- A book is written where there is one, or where one may be made.
  pub set_book-Owned :
      (locate : ℕ) (b : Book) (f : Feed)
      → (locate < max_stock_locate) × (is_tracked cfg locate ≡ true)
      → Owned cfg f
      → Owned cfg (set_book locate b f)
  set_book-Owned locate b f here o = record {
    tracked = λ l c e. elim (Bool-cases (locate == l)) [
      | inl same ↦
          subst (λ i. (i < max_stock_locate) × (is_tracked cfg i ≡ true)) (eq_of_== locate l same)
            here
      | inr other ↦
          o.tracked l c (subst (λ t. (if t then some b else f.market_books l) ≡ some c) other e)
    ];
    owned = λ id l e. elim (Bool-cases (locate == l)) [
      | inl same ↦ (b, rw same refl)
      | inr other ↦ let (c, there) = o.owned id l e in (c, rw other there)
    ];
    few_inserts = o.few_inserts;
    few_execs = o.few_execs;
  }

  pub set_owner-Owned :
      (id locate : ℕ) (b : Book) (f : Feed)
      → f.market_books locate ≡ some b
      → Owned cfg f
      → Owned cfg (set_owner id (some locate) f)
  set_owner-Owned id locate b f there o = record {
    tracked = o.tracked;
    owned = λ i l e. elim (Bool-cases (id == i)) [
      | inl same ↦
          let e' : some locate ≡ some l =
            subst (λ t. (if t then some locate else f.ref_owner i) ≡ some l) same e in
          (b, subst (λ k. f.market_books k ≡ some b) (some_inj.0 e') there)
      | inr other ↦
          o.owned i l (subst (λ t. (if t then some locate else f.ref_owner i) ≡ some l) other e)
    ];
    few_inserts = o.few_inserts;
    few_execs = o.few_execs;
  }

  pub no_owner-Owned : (id : ℕ) (f : Feed) → Owned cfg f → Owned cfg (set_owner id none f)
  no_owner-Owned id f o = record {
    tracked = o.tracked;
    owned = λ i l e. elim (Bool-cases (id == i)) [
      | inl same ↦
          absurd (none-ne-some l (subst (λ t. (if t then none else f.ref_owner i) ≡ some l) same e))
      | inr other ↦ o.owned i l (subst (λ t. (if t then none else f.ref_owner i) ≡ some l) other e)
    ];
    few_inserts = o.few_inserts;
    few_execs = o.few_execs;
  }
