-- ===== src/Queue/Remove.antt =====
-- A slot leaves a chain: its two neighbours are joined.
use nanomatch.Base.{
  ℕ, ◌≡◌, ◌≢◌, true, false, List, [], ◌∷◌, ◌++◌, ◌==◌, null_idx, arith, ◌⊎◌, inl, inr,
  if◌then◌else◌, ==-true,
}
use nanomatch.Queue.{Slots, has, Distinct, has-append, Linked, Linked-frame}

-- What `level_remove` does to the links of the slots other than `x`.
abbrev pub Unlinked : Slots → Slots → ℕ → Type 0
Unlinked s t x =
    (z : ℕ)
    → z ≢ null_idx
    → z ≢ x
    → ((t z).next_idx ≡ (if (s x).prev_idx == z then (s x).next_idx else (s z).next_idx))
      × ((t z).prev_idx ≡ (if (s x).next_idx == z then (s x).prev_idx else (s z).prev_idx))

module _ (s t : Slots) (x : ℕ) (un : Unlinked s t x) where
  -- The chain behind the slot.
  Linked-behind :
      (zs : List ℕ) (last : ℕ)
      → has x zs ≡ false
      → has (s x).prev_idx zs ≡ false
      → Distinct zs
      → Linked s x (s x).next_idx zs last
      → Linked t
          (s x).prev_idx
          (s x).next_idx
          zs
          (if (s x).next_idx == null_idx then (s x).prev_idx else last)
  Linked-behind [] last out far d (a, b) = (a, rw (==-true a))
  Linked-behind (z ∷ zs) last out far d (a, b, c, rest) =
      let links = un z b (ground arith) in
      let keep = frame_behind z zs last out far d (a, b, c, rest) in
      let end : (if (s x).next_idx == null_idx then (s x).prev_idx else last) ≡ last =
        ground arith in
      let next : (t z).next_idx ≡ (s z).next_idx = ground arith in
      rw end (a, b, ground arith, rw next keep)
    where
      frame_behind :
          (z : ℕ) (zs : List ℕ) (last : ℕ)
          → has x (z ∷ zs) ≡ false
          → has (s x).prev_idx (z ∷ zs) ≡ false
          → Distinct (z ∷ zs)
          → Linked s x (s x).next_idx (z ∷ zs) last
          → Linked t z (s z).next_idx zs last
      frame_behind z zs last out far d (a, b, c, rest) =
          Linked-frame s t z (s z).next_idx zs last
            (λ y m n. let links = un y n (ground arith) in (ground arith, ground arith)) rest

-- The slot before `x` is one of the chain, or what the chain starts from.
pub prev-mem :
    (s : Slots) (before head : ℕ) (y : ℕ) (ys : List ℕ) (x : ℕ) (zs : List ℕ) (last : ℕ)
    → Linked s before head (y ∷ ys ++ x ∷ zs) last
    → has (s x).prev_idx (y ∷ ys) ≡ true
prev-mem s before head y [] x zs last (a, b, c, (d, e, f, rest)) = ground arith
prev-mem s before head y (w ∷ ys) x zs last (a, b, c, rest) =
    ground (arith, prev-mem s y (s y).next_idx w ys x zs last rest)

-- The slot behind `x` is one of the rest, if there is one.
pub next-mem :
    (s : Slots) (before head : ℕ) (ys : List ℕ) (x : ℕ) (zs : List ℕ) (last : ℕ)
    → Linked s before head (ys ++ x ∷ zs) last
    → ((s x).next_idx ≡ null_idx) ⊎ (has (s x).next_idx zs ≡ true)
next-mem s before head [] x [] last (a, b, c, (d, e)) = inl d
next-mem s before head [] x (z ∷ zs) last (a, b, c, (d, e, f, rest)) = inr (ground arith)
next-mem s before head (y ∷ ys) x zs last (a, b, c, rest) =
    next-mem s y (s y).next_idx ys x zs last rest

module _ (s t : Slots) (x : ℕ) (un : Unlinked s t x) (zs : List ℕ) (last : ℕ) where
  -- The whole chain without the slot, with the head and the last slot that `level_remove` leaves.
  pub Linked-unlink :
      (before head : ℕ) (ys : List ℕ)
      → has before (ys ++ x ∷ zs) ≡ false
      → Distinct (ys ++ x ∷ zs)
      → Linked s before head (ys ++ x ∷ zs) last
      → Linked t before
          (if (s x).prev_idx == before then (s x).next_idx else head)
          (ys ++ zs)
          (if (s x).next_idx == null_idx then (s x).prev_idx else last)
  Linked-unlink before head [] far d (a, b, c, rest) =
      let rest' = Linked-behind s t x un zs last d.0 (ground arith) d.1 rest in
      rw (==-true c, ← c) rest'
  Linked-unlink before head (y ∷ ys) far d (a, b, c, rest) =
      let links = un y b (ground (arith, has-append y ys (x ∷ zs))) in
      let rest' = Linked-unlink y (s y).next_idx ys d.0 d.1 rest in
      let inner = prev-mem s before head y ys x zs last (a, b, c, rest) in
      let outer = next-mem s before head (y ∷ ys) x zs last (a, b, c, rest) in
      let here : ((s x).prev_idx == before) ≡ false =
        ground (arith, has-append before ys (x ∷ zs), inner) in
      let back : (t y).prev_idx ≡ before =
        ground (arith, has-append y ys (x ∷ zs), outer, links.1) in
      rw here (a, b, back, rw links.0 rest')

pub prev_or_before :
    (s : Slots) (before head : ℕ) (ys : List ℕ) (x : ℕ) (zs : List ℕ) (last : ℕ)
    → Linked s before head (ys ++ x ∷ zs) last
    → ((s x).prev_idx ≡ before) ⊎ (has (s x).prev_idx ys ≡ true)
prev_or_before s before head [] x zs last (a, b, c, rest) = inl c
prev_or_before s before head (y ∷ ys) x zs last h = inr (prev-mem s before head y ys x zs last h)

-- A chain of distinct slots does not loop at one of them.
pub Linked-apart :
    (s : Slots) (before head : ℕ) (ys : List ℕ) (x : ℕ) (zs : List ℕ) (last : ℕ)
    → before ≢ x
    → x ≢ null_idx
    → Distinct (ys ++ x ∷ zs)
    → Linked s before head (ys ++ x ∷ zs) last
    → ((s x).prev_idx ≢ x) × ((s x).next_idx ≢ x)
Linked-apart s before head [] x zs last ne real d (a, b, c, rest) =
    (ground arith, ground (arith, next-mem s before head [] x zs last (a, b, c, rest)))
Linked-apart s before head (y ∷ ys) x zs last ne real d (a, b, c, rest) =
    Linked-apart s y (s y).next_idx ys x zs last (ground (arith, has-append y ys (x ∷ zs))) real d.1
      rest
