-- ===== src/Logger/Drain.antt =====
-- `drain` of src/logging/AsyncLogger.hpp empties the ring into the file.
use nanomatch.Base.{
  ℕ, zero, suc, ◌<◌, ◌≡◌, refl, ◌∙◌, Bool, true, false, none, some, List, [], ◌∷◌, ◌++◌, length,
  arith, Returns,
}
use mathlib.Core.List.{map, append_assoc, append-nil}
use nanomatch.Orders.{Trade}
use nanomatch.Spsc.{pop}
use nanomatch.Spsc.Index.{IsCapacity}
use nanomatch.Spsc.Calls.{Represents, pop-first, pop_empty, few}
use nanomatch.Logger.{AsyncLogger, k_capacity, row, drain, drain_rounds}

pub k_capacity-IsCapacity : IsCapacity k_capacity
k_capacity-IsCapacity = record { exponent = 22; small = omega arith; power = refl }

-- The loop was entered for some trade.
abbrev pub found : Bool → List Trade → Bool
found any [] = any
found any (t ∷ ts) = true

-- `l` after its rows `ts` went from the ring to the file.
pub record Drained (any : Bool) (l : AsyncLogger) (ts : List Trade) (r : Bool × AsyncLogger)
    : Type 0 where
  pub result : r.0 ≡ found any ts
  pub file : r.1.file ≡ l.file ++ map row ts
  pub emptied : Represents k_capacity r.1.queue []
  pub is_open : r.1.is_open ≡ true
  pub dropped : r.1.dropped ≡ l.dropped
  pub running : r.1.running ≡ l.running
  pub worker : r.1.worker ≡ l.worker
  pub warnings : r.1.warnings ≡ l.warnings

-- A round of the loop.
drain_more :
    (fuel : ℕ) (any : Bool) (l : AsyncLogger) (t : Trade)
    → (pop k_capacity l.queue).0 ≡ some t
    → l.is_open ≡ true
    → drain (suc fuel) any l
      ≡ drain fuel true
          (record l { queue = (pop k_capacity l.queue).1; file = l.file ++ (row t ∷ []) })
unfolding drain
drain_more fuel any l t got op = ground (arith, got, op)

drain_end :
    (fuel : ℕ) (any : Bool) (l : AsyncLogger)
    → (pop k_capacity l.queue).0 ≡ none
    → drain (suc fuel) any l ≡ some (any, record l { queue = (pop k_capacity l.queue).1 })
unfolding drain
drain_end fuel any l got = ground (arith, got)

pub drain-Drained :
    (fuel : ℕ) (any : Bool) (l : AsyncLogger) (ts : List Trade)
    → length ts < fuel
    → l.is_open ≡ true
    → Represents k_capacity l.queue ts
    → Returns (drain fuel any l) (Drained any l ts)
drain-Drained zero any l ts enough op rep = absurd (omega arith)
drain-Drained (suc fuel) any l [] enough op rep =
    let (got, rest) = pop_empty k_capacity k_capacity-IsCapacity l.queue rep in
    (
      _,
      drain_end fuel any l got,
      record {
        result = refl;
        file = rw append-nil refl;
        emptied = rest;
        is_open = op;
        dropped = refl;
        running = refl;
        worker = refl;
        warnings = refl;
      },
    )
drain-Drained (suc fuel) any l (t ∷ ts) enough op rep =
    let (got, rest) = pop-first k_capacity k_capacity-IsCapacity l.queue t ts rep in
    let l' : AsyncLogger = record l {
      queue = (pop k_capacity l.queue).1;
      file = l.file ++ (row t ∷ []);
    } in
    let (r, ran, d) = drain-Drained fuel true l' ts (omega (arith, enough)) op rest in
    (
      r,
      drain_more fuel any l t got op ∙ ran,
      record {
        result = d.result ∙ found_true ts;
        file = d.file ∙ append_assoc l.file (row t ∷ []) (map row ts);
        emptied = d.emptied;
        is_open = d.is_open;
        dropped = d.dropped;
        running = d.running;
        worker = d.worker;
        warnings = d.warnings;
      },
    )
  where
    found_true : (us : List Trade) → found true us ≡ true
    found_true [] = refl
    found_true (u ∷ us) = refl

-- A round for each slot of the ring and one to end are enough.
pub drain-rounds :
    (l : AsyncLogger) (ts : List Trade)
    → l.is_open ≡ true
    → Represents k_capacity l.queue ts
    → Returns (drain drain_rounds false l) (Drained false l ts)
drain-rounds l ts op rep = drain-Drained drain_rounds false l ts (omega (arith, few rep)) op rep
