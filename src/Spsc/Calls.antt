-- ===== src/Spsc/Calls.antt =====
-- `emplace` and `pop` of `SPSCQueue` (src/logging/SPSCQueue.hpp) as whole calls.
use nanomatch.Base.{
  ℕ, ◌+◌, ◌≤◌, ◌≡◌, refl, ap, Bool, true, false, arith, List, [], ◌∷◌, ◌++◌, length, ltb, inl, inr,
  Bool-cases, Option, none, some, if◌then◌else◌,
}
use nanomatch.Spsc.{
  SpscQueue, emplace, pop, put, take, seems_full, seems_empty, load_head, load_tail, write_slot,
  new,
}
use nanomatch.Spsc.Index.{IsCapacity}
use nanomatch.Spsc.Window.{Window, new-Window}
use nanomatch.Spsc.Moves.{
  seems_full-false, seems_full-true, seems_empty-false, seems_empty-true, load_head-Window,
  load_tail-Window, write_slot-Window, write_slot-slot, publish_tail-Window, read_slot-first,
  release_head-Window,
}

-- The queue holds `xs`, oldest first.
pub record Represents {ℓ} {A : Type ℓ} (c : ℕ) (q : SpscQueue A) (xs : List A) : Type ℓ where
  pub first : ℕ
  pub head_seen : ℕ
  pub tail_seen : ℕ
  pub window : Window c q first head_seen tail_seen xs

pub few {ℓ} :
    {A : Type ℓ} {c : ℕ} {q : SpscQueue A} {xs : List A} → Represents c q xs → length xs ≤ c
few rep = omega (arith, rep.window.head_near, rep.window.head_old)

pub new-Represents {ℓ} : {A : Type ℓ} (c : ℕ) (memory : ℕ → A) → Represents c (new memory) []
new-Represents c memory = record {
  first = 0;
  head_seen = 0;
  tail_seen = 0;
  window = new-Window c memory;
}

abbrev pub oldest {ℓ} : {A : Type ℓ} → List A → Option A
oldest [] = none
oldest (x ∷ xs) = some x

abbrev pub younger {ℓ} : {A : Type ℓ} → List A → List A
younger [] = []
younger (x ∷ xs) = xs

module _ {ℓ} {A : Type ℓ} (c : ℕ) (cap : IsCapacity c) where
  -- What a call of `emplace` leaves, and whether it took the item.
  abbrev Emplaced : Bool × SpscQueue A → List A → A → Type ℓ
  Emplaced r xs item =
      (r.0 ≡ ltb (length xs) c)
      × Represents c r.1 (if ltb (length xs) c then xs ++ (item ∷ []) else xs)

  put-Emplaced :
      {first head_seen tail_seen : ℕ} (q : SpscQueue A) (xs : List A) (item : A)
      → Window c q first head_seen tail_seen xs
      → seems_full c q ≡ false
      → Emplaced (put c item q) xs item
  put-Emplaced q xs item w test =
      let room = seems_full-false c cap q w test in
      let written = write_slot-Window c cap q w item room in
      let fits : ltb (length xs) c ≡ true = ground (arith, room, w.head_old) in
      rw fits (
        refl,
        record {
          first = _;
          head_seen = _;
          tail_seen = _;
          window =
              publish_tail-Window c cap (write_slot c item q) written item room
                (write_slot-slot c cap q w item);
        },
      )

  emplace-refreshed :
      {first tail_seen : ℕ} (q : SpscQueue A) (xs : List A) (item : A)
      → Window c q first first tail_seen xs
      → Emplaced (if seems_full c q then (false, q) else put c item q) xs item
  emplace-refreshed q xs item w = elim (Bool-cases (seems_full c q)) [
    | inl full ↦
        let whole = seems_full-true c cap q w full in
        let fits : ltb (length xs) c ≡ false = ground (arith, whole) in
        rw (full, fits) (refl, record { first = _; head_seen = _; tail_seen = _; window = w })
    | inr room ↦ rw room (put-Emplaced q xs item w room)
  ]

  -- For a capacity that is a power of two of at most 2^63, on a queue that holds `xs`, whatever its
  -- cached counters say, `emplace` is true exactly when `xs` has fewer items than there are slots,
  -- and then the queue holds `xs` and the item behind it; otherwise it holds `xs`.
  pub emplace-Represents :
      (q : SpscQueue A) (xs : List A) (item : A)
      → Represents c q xs
      → ((emplace c item q).0 ≡ ltb (length xs) c)
        × Represents c (emplace c item q).1 (if ltb (length xs) c then xs ++ (item ∷ []) else xs)
  unfolding emplace
  emplace-Represents q xs item rep = elim (Bool-cases (seems_full c q)) [
    | inl full ↦
        rw full (emplace-refreshed (load_head q) xs item (load_head-Window c cap q rep.window))
    | inr room ↦ rw room (put-Emplaced q xs item rep.window room)
  ]

  -- The same of `pop`.
  abbrev Popped : Option A × SpscQueue A → List A → Type ℓ
  Popped r [] = (r.0 ≡ none) × Represents c r.1 []
  Popped r (x ∷ xs) = (r.0 ≡ some x) × Represents c r.1 xs

  take-Popped :
      {first head_seen tail_seen : ℕ} (q : SpscQueue A) (xs : List A)
      → Window c q first head_seen tail_seen xs
      → seems_empty q ≡ false
      → Popped (take c q) xs
  take-Popped q [] w test = absurd (omega (arith, seems_empty-false c cap q w test, w.tail_old))
  take-Popped q (x ∷ xs) w test = (
    ap some (read_slot-first c cap q w),
    record {
      first = _;
      head_seen = _;
      tail_seen = _;
      window = release_head-Window c cap q w (seems_empty-false c cap q w test);
    },
  )

  pop-refreshed :
      {first head_seen : ℕ} (q : SpscQueue A) (xs : List A)
      → Window c q first head_seen (first + length xs) xs
      → Popped (if seems_empty q then (none, q) else take c q) xs
  pop-refreshed q xs w = elim (Bool-cases (seems_empty q)) [
    | inl empty ↦ rw empty (nothing xs w (seems_empty-true c cap q w empty))
    | inr full ↦ rw full (take-Popped q xs w full)
  ]
    where
      nothing :
          {first head_seen : ℕ} (xs : List A)
          → Window c q first head_seen (first + length xs) xs
          → first ≡ first + length xs
          → Popped (none, q) xs
      nothing [] w e = (refl, record { first = _; head_seen = _; tail_seen = _; window = w })
      nothing (x ∷ xs) w e = absurd (omega (arith, e))

  pop-Popped : (q : SpscQueue A) (xs : List A) → Represents c q xs → Popped (pop c q) xs
  unfolding pop
  pop-Popped q xs rep = elim (Bool-cases (seems_empty q)) [
    | inl empty ↦ rw empty (pop-refreshed (load_tail q) xs (load_tail-Window c cap q rep.window))
    | inr full ↦ rw full (take-Popped q xs rep.window full)
  ]

  pub pop-first :
      (q : SpscQueue A) (x : A) (xs : List A)
      → Represents c q (x ∷ xs)
      → ((pop c q).0 ≡ some x) × Represents c (pop c q).1 xs
  pop-first q x xs rep = pop-Popped q (x ∷ xs) rep

  pub pop_empty :
      (q : SpscQueue A) → Represents c q [] → ((pop c q).0 ≡ none) × Represents c (pop c q).1 []
  pop_empty q rep = pop-Popped q [] rep

  -- For a capacity that is a power of two of at most 2^63, on a queue that holds `xs`, whatever its
  -- cached counters say, `pop` gives the oldest item of `xs`, or nothing where `xs` is empty, and
  -- the queue holds the items behind it.
  pub pop-Represents :
      (q : SpscQueue A) (xs : List A)
      → Represents c q xs
      → ((pop c q).0 ≡ oldest xs) × Represents c (pop c q).1 (younger xs)
  pop-Represents q [] rep = pop_empty q rep
  pop-Represents q (x ∷ xs) rep = pop-first q x xs rep
