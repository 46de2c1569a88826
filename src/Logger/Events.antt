-- ===== src/Logger/Events.antt =====
-- The matching thread and the worker of src/logging/AsyncLogger.hpp, a call at a time.
use nanomatch.Base.{
  ℕ, suc, ◌+◌, ◌≤◌, ◌<◌, ◌≡◌, refl, ◌∙◌, ap, sym, Bool, true, false, Option, some, ◌>>=◌, List, [],
  ◌∷◌, ◌++◌, ltb, u64, if◌then◌else◌, length, length-append, arith, Returns, Bool-cases, inl, inr,
  ◌⊎◌,
}
use mathlib.Core.Path.{subst}
use mathlib.Core.List.{map, map-append, append_assoc, append-nil}
use nanomatch.Orders.{Trade}
use nanomatch.Spsc.{SpscQueue, emplace}
use nanomatch.Spsc.Calls.{Represents, emplace-Represents}
use nanomatch.Logger.{
  AsyncLogger, k_capacity, Line, titles, row, drain, drain_rounds, round, enqueue_trade,
}
use nanomatch.Logger.Drain.{k_capacity-IsCapacity, drain-rounds}

pub data Event : Type 0 where
  trade : Trade → Event
  wake : Event

unfoldable pub handle : Event → AsyncLogger → Option AsyncLogger
handle (trade t) l = some (enqueue_trade t l)
handle wake l = round l

unfoldable pub handle_all : List Event → AsyncLogger → Option AsyncLogger
handle_all [] l = some l
handle_all (e ∷ es) l = handle e l >>= λ m. handle_all es m

-- The trades that were handed over.
abbrev pub trades : List Event → List Trade
trades [] = []
trades (trade t ∷ es) = t ∷ trades es
trades (wake ∷ es) = trades es

-- `xs` is `ys` without some of its elements, in the same order.
pub data Sub {ℓ} {A : Type ℓ} : List A → List A → Type ℓ where
  done : Sub [] []
  keep : {x : A} {xs ys : List A} → Sub xs ys → Sub (x ∷ xs) (x ∷ ys)
  skip : {y : A} {xs ys : List A} → Sub xs ys → Sub xs (y ∷ ys)

Sub-keep_last {ℓ} :
    {A : Type ℓ} {xs ys : List A} (x : A) → Sub xs ys → Sub (xs ++ (x ∷ [])) (ys ++ (x ∷ []))
Sub-keep_last x done = keep done
Sub-keep_last x (keep s) = keep (Sub-keep_last x s)
Sub-keep_last x (skip s) = skip (Sub-keep_last x s)

Sub-skip_last {ℓ} : {A : Type ℓ} {xs ys : List A} (x : A) → Sub xs ys → Sub xs (ys ++ (x ∷ []))
Sub-skip_last x done = skip done
Sub-skip_last x (keep s) = keep (Sub-skip_last x s)
Sub-skip_last x (skip s) = skip (Sub-skip_last x s)

pub length-Sub {ℓ} : {A : Type ℓ} {xs ys : List A} → Sub xs ys → length xs ≤ length ys
length-Sub done = omega arith
length-Sub (keep s) = omega (arith, length-Sub s)
length-Sub (skip s) = omega (arith, length-Sub s)

-- Where nothing is left out, the two are one list.
pub Sub-whole {ℓ} : {A : Type ℓ} {xs ys : List A} → Sub xs ys → length ys ≤ length xs → xs ≡ ys
Sub-whole done h = refl
Sub-whole (keep {x} s) h = ap (λ l. x ∷ l) (Sub-whole s (omega (arith, h)))
Sub-whole (skip s) h = absurd (omega (arith, h, length-Sub s))

-- A logger between `start` and `stop` that was handed `seen`.
pub record Log (l : AsyncLogger) (seen : List Trade) : Type 0 where
  pub written : List Trade
  pub waiting : List Trade
  pub lost : ℕ
  pub file : l.file ≡ titles ∷ map row written
  pub queued : Represents k_capacity l.queue waiting
  pub counted : l.dropped ≡ u64 lost
  pub order : Sub (written ++ waiting) seen
  pub all : length written + length waiting + lost ≡ length seen
  pub when_full : lost ≡ 0 ⊎ k_capacity < length seen
  pub is_open : l.is_open ≡ true
  pub running : l.running ≡ true
  pub quiet : l.warnings ≡ []

abbrev emplaced : Trade → AsyncLogger → Bool × SpscQueue Trade
emplaced t l = emplace k_capacity t l.queue

accepted-Log :
    (t : Trade) (l : AsyncLogger) (seen : List Trade) (g : Log l seen)
    → Represents k_capacity (emplaced t l).1 (g.waiting ++ (t ∷ []))
    → Log (record l { queue = (emplaced t l).1 }) (seen ++ (t ∷ []))
accepted-Log t l seen g rep =
    let one_more = length-append g.waiting (t ∷ []) in
    let whole = length-append seen (t ∷ []) in
    record {
      written = g.written;
      waiting = g.waiting ++ (t ∷ []);
      lost = g.lost;
      file = g.file;
      queued = rep;
      counted = g.counted;
      order =
          subst (λ k. Sub k (seen ++ (t ∷ []))) (append_assoc g.written g.waiting (t ∷ []))
            (Sub-keep_last t g.order);
      all = omega (arith, one_more, whole, g.all);
      when_full = elim g.when_full [ inl z ↦ inl z | inr many ↦ inr (omega (arith, many, whole)) ];
      is_open = g.is_open;
      running = g.running;
      quiet = g.quiet;
    }

lost-Log :
    (t : Trade) (l : AsyncLogger) (seen : List Trade) (g : Log l seen)
    → Represents k_capacity (emplaced t l).1 g.waiting
    → ltb (length g.waiting) k_capacity ≡ false
    → Log (record l { queue = (emplaced t l).1; dropped = u64 (l.dropped + 1) }) (seen ++ (t ∷ []))
lost-Log t l seen g rep full =
    let whole = length-append seen (t ∷ []) in
    record {
      written = g.written;
      waiting = g.waiting;
      lost = suc g.lost;
      file = g.file;
      queued = rep;
      counted = omega (arith, g.counted);
      order = Sub-skip_last t g.order;
      all = omega (arith, whole, g.all);
      when_full = inr (ground (arith, full, whole, g.all));
      is_open = g.is_open;
      running = g.running;
      quiet = g.quiet;
    }

enqueue_trade-Log :
    (t : Trade) (l : AsyncLogger) (seen : List Trade)
    → Log l seen
    → Log (enqueue_trade t l) (seen ++ (t ∷ []))
unfolding enqueue_trade
enqueue_trade-Log t l seen g =
    let (said, rep) =
      emplace-Represents k_capacity k_capacity-IsCapacity l.queue g.waiting t g.queued in
    elim (Bool-cases (ltb (length g.waiting) k_capacity)) [
      | inl room ↦
          let taken : (emplaced t l).0 ≡ true = said ∙ room in
          rw taken (
            accepted-Log t l seen g (
              subst
                (λ b.
                  Represents k_capacity (emplaced t l).1
                    (if b then g.waiting ++ (t ∷ []) else g.waiting))
                room rep))
      | inr full ↦
          let refused : (emplaced t l).0 ≡ false = said ∙ full in
          rw refused (
            lost-Log t l seen g
              (subst
                (λ b.
                  Represents k_capacity (emplaced t l).1
                    (if b then g.waiting ++ (t ∷ []) else g.waiting))
                full rep)
              full)
    ]

-- Rows that leave the ring join the file.
pub drained_file :
    {l : AsyncLogger} {seen : List Trade} (g : Log l seen) (m : List Line)
    → m ≡ l.file ++ map row g.waiting
    → m ≡ titles ∷ map row (g.written ++ g.waiting)
drained_file {l} g m e =
    e
    ∙ ap (λ f. f ++ map row g.waiting) g.file
    ∙ ap (λ f. titles ∷ f) (sym (map-append row g.written g.waiting))

round_lem :
    (l : AsyncLogger) → l.running ≡ true → round l ≡ (drain drain_rounds false l >>= λ r. some r.1)
unfolding round
round_lem l on = ground (arith, on)

round-Log : (l : AsyncLogger) (seen : List Trade) → Log l seen → Returns (round l) (λ m. Log m seen)
round-Log l seen g =
    let (r, ran, d) = drain-rounds l g.waiting g.is_open g.queued in
    (
      r.1,
      round_lem l g.running ∙ ap (λ o. o >>= λ r. some r.1) ran,
      record {
        written = g.written ++ g.waiting;
        waiting = [];
        lost = g.lost;
        file = drained_file g r.1.file d.file;
        queued = d.emptied;
        counted = d.dropped ∙ g.counted;
        order = rw append-nil (g.order);
        all = omega (arith, g.all, length-append g.written g.waiting);
        when_full = g.when_full;
        is_open = d.is_open;
        running = d.running ∙ g.running;
        quiet = d.warnings ∙ g.quiet;
      },
    )

handle-Log :
    (e : Event) (l : AsyncLogger) (seen : List Trade)
    → Log l seen
    → Returns (handle e l) (λ m. Log m (seen ++ trades (e ∷ [])))
unfolding handle
handle-Log (trade t) l seen g = (enqueue_trade t l, refl, enqueue_trade-Log t l seen g)
handle-Log wake l seen g = rw append-nil (round-Log l seen g)

pub handle_all-Log :
    (es : List Event) (l : AsyncLogger) (seen : List Trade)
    → Log l seen
    → Returns (handle_all es l) (λ m. Log m (seen ++ trades es))
unfolding handle_all
handle_all-Log [] l seen g = rw append-nil (l, refl, g)
handle_all-Log (e ∷ es) l seen g =
    let (m, ran, next) = handle-Log e l seen g in
    let (n, rest, end) = handle_all-Log es m (seen ++ trades (e ∷ [])) next in
    (
      n,
      ap (λ o. o >>= handle_all es) ran ∙ rest,
      subst (λ k. Log n k)
          (append_assoc seen (trades (e ∷ [])) (trades es) ∙ ap (λ k. seen ++ k) (joined e es)) end,
    )
  where
    joined : (e : Event) (es : List Event) → trades (e ∷ []) ++ trades es ≡ trades (e ∷ es)
    joined (trade t) es = refl
    joined wake es = refl
