-- ===== src/Queue/Append.antt =====
-- A slot joins a chain at its end.
use nanomatch.Base.{
  ℕ, ◌≡◌, ◌≢◌, refl, true, false, List, [], ◌∷◌, ◌++◌, ◌==◌, null_idx, arith, if◌then◌else◌,
  ==-true, ◌∙◌,
}
use nanomatch.Queue.{Slots, has, Distinct, Linked}

-- What `level_append` does to the links of the slots, `last` being the old tail.
pub record IsJoined (s t : Slots) (x last : ℕ) : Type 0 where
  pub back : (t x).prev_idx ≡ last
  pub end : (t x).next_idx ≡ null_idx
  pub others :
      (z : ℕ)
      → z ≢ null_idx
      → z ≢ x
      → ((t z).next_idx ≡ (if last == z then x else (s z).next_idx))
        × ((t z).prev_idx ≡ (s z).prev_idx)

pub last-mem :
    (s : Slots) (before head : ℕ) (y : ℕ) (ys : List ℕ) (last : ℕ)
    → Linked s before head (y ∷ ys) last
    → has last (y ∷ ys) ≡ true
last-mem s before head y [] last (a, b, c, (d, e)) = ground arith
last-mem s before head y (w ∷ ys) last (a, b, c, rest) =
    ground (arith, last-mem s y (s y).next_idx w ys last rest)

module _ (s t : Slots) (x last : ℕ) (joined : IsJoined s t x last) (real : x ≢ null_idx) where
  pub Linked-join :
      (before head : ℕ) (ys : List ℕ)
      → has x ys ≡ false
      → Distinct ys
      → Linked s before head ys last
      → Linked t before (if head == null_idx then x else head) (ys ++ x ∷ []) x
  Linked-join before head [] new d (a, b) =
      rw (==-true a) (refl, real, ground (arith, joined.back), (joined.end, refl))
  Linked-join before head (y ∷ ys) new d (a, b, c, rest) =
      let links = joined.others y b (ground arith) in
      let rest' = Linked-join y (s y).next_idx ys (ground arith) d.1 rest in
      let next : (t y).next_idx ≡ (if (s y).next_idx == null_idx then x else (s y).next_idx) =
        at_end y ys d.0 rest links.0 in
      let filled : (if head == null_idx then x else head) ≡ y = ground arith in
      rw filled (refl, b, links.1 ∙ c, rw next rest')
    where
      -- The last slot is the one whose link ends the chain.
      at_end :
          (y : ℕ) (ys : List ℕ)
          → has y ys ≡ false
          → Linked s y (s y).next_idx ys last
          → (t y).next_idx ≡ (if last == y then x else (s y).next_idx)
          → (t y).next_idx ≡ (if (s y).next_idx == null_idx then x else (s y).next_idx)
      at_end y [] out (d, e) link = ground arith
      at_end y (w ∷ ys) out (a, b, c, rest) link =
          ground (arith, last-mem s y (s y).next_idx w ys last (a, b, c, rest))
