-- ===== src/IdMap/Lookup.antt =====
-- `insert` and `find` of `IdMap` (src/core/OrderBook.hpp) as a finite map.
use nanomatch.Base.{
  ℕ, zero, suc, ◌<◌, ◌≡◌, ◌≢◌, refl, sym, ◌∙◌, ap, true, false, some, ◌>>=◌, ◌==◌, if◌then◌else◌,
  arith, Bool-cases, inl, inr, Returns, eq_of_==, ne_of_==, ==-true, ==-false,
}
use nanomatch.IdMap.{
  IdMap, empty, home, next_slot, stops, probe, find_from, find, insert, set_entry,
}
use nanomatch.IdMap.Probe.{IsTable, HasRoom, probe-HasRoom}

-- The loop of `find` reads the slot where a probe stops.
find_from-probe :
    (m : IdMap) (n key s r : ℕ)
    → probe m n key s ≡ some r
    → find_from m n key s ≡ some (m.entries r).val
unfolding probe find_from
find_from-probe m zero key s r h = cc
find_from-probe m (suc n) key s r h = ground (arith, find_from-probe m n key (next_slot m s) r)

pub find-probe :
    (m : IdMap) (key r : ℕ)
    → probe m m.capacity key (home m key) ≡ some r
    → find m key ≡ some (m.entries r).val
unfolding find
find-probe m key r h = find_from-probe m m.capacity key (home m key) r h

-- Every entry is found from the home of its key.
abbrev pub IsPlaced : IdMap → Type 0
IsPlaced m =
    (s : ℕ)
    → s < m.capacity
    → (m.entries s).val ≢ empty
    → let key = (m.entries s).key in probe m m.capacity key (home m key) ≡ some s

pub probe-stops : (m : IdMap) (n key s r : ℕ) → probe m n key s ≡ some r → stops m key r ≡ true
unfolding probe
probe-stops m zero key s r h = cc
probe-stops m (suc n) key s r h = elim (Bool-cases (stops m key s)) [
  | inl here ↦ let e : s ≡ r = ground arith in rw (← e) here
  | inr on ↦ probe-stops m n key (next_slot m s) r (ground arith)
]

some_inj : {a b : ℕ} → some a ≡ some b → a ≡ b
some_inj h = cc

module _ (m : IdMap) (key val slot : ℕ) (real : val ≢ empty) where
  abbrev written : IdMap
  written = set_entry m slot (record { key = key; val = val })

  same_next : (s : ℕ) → next_slot written s ≡ next_slot m s
  unfolding next_slot
  same_next s = refl

  same_home : (k : ℕ) → home written k ≡ home m k
  unfolding home
  same_home k = refl

  probe_self : (n s : ℕ) → probe m n key s ≡ some slot → probe written n key s ≡ some slot
  unfolding probe
  probe_self zero s h = cc
  probe_self (suc n) s h = elim (Bool-cases (stops m key s)) [
    | inl here ↦ let e : s ≡ slot = ground arith in ground arith
    | inr on ↦
        let rest : probe m n key (next_slot m s) ≡ some slot = ground arith in
        let stop = probe-stops m n key (next_slot m s) slot rest in
        let ne : (slot == s) ≡ false = ==-false (λ i. cc (on, stop)) in
        rw (ne, on, same_next s) (probe_self n (next_slot m s) rest)
  ]

  probe_other :
      (k n s r : ℕ) → k ≢ key → r ≢ slot → probe m n k s ≡ some r → probe written n k s ≡ some r
  unfolding probe
  probe_other k zero s r ne away h = cc
  probe_other k (suc n) s r ne away h =
      ground (arith, same_next s, probe_other k n (next_slot m s) r ne away)

-- Two entries are empty.
pub record HasSpare (m : IdMap) : Type 0 where
  pub first : HasRoom m
  pub second : HasRoom m
  pub differ : first.slot ≢ second.slot

module _ (m : IdMap) (t : IsTable m) (spare : HasSpare m) (placed : IsPlaced m) (key val : ℕ)
    (real : val ≢ empty) (slot : ℕ) (inside : slot < m.capacity)
    (found : probe m m.capacity key (home m key) ≡ some slot) where
  abbrev after : IdMap
  after = set_entry m slot (record { key = key; val = val })

  after-IsTable : IsTable after
  after-IsTable = record { exponent = t.exponent; capacity = t.capacity; mask = t.mask }

  after-HasRoom : HasRoom after
  after-HasRoom = elim (Bool-cases (slot == spare.first.slot)) [
    | inr away ↦ record {
      slot = spare.first.slot;
      inside = spare.first.inside;
      vacant = rw away (spare.first.vacant);
    }
    | inl taken ↦
        let away : (slot == spare.second.slot) ≡ false =
          ==-false (λ i. spare.differ (sym (eq_of_== _ _ taken) ∙ i)) in
        record {
          slot = spare.second.slot;
          inside = spare.second.inside;
          vacant = rw away (spare.second.vacant);
        }
  ]

  self_probe : probe after m.capacity key (home after key) ≡ some slot
  self_probe =
      rw (same_home m key val slot real key)
        (probe_self m key val slot real m.capacity (home m key) found)

  keeps :
      (j r : ℕ)
      → j ≢ key
      → r ≢ slot
      → probe m m.capacity j (home m j) ≡ some r
      → probe after m.capacity j (home after j) ≡ some r
  keeps j r ne away h =
      rw (same_home m key val slot real j)
        (probe_other m key val slot real j m.capacity (home m j) r ne away h)

  -- A key whose probe ended at the slot that is written was not in the table, and is not now.
  still_absent :
      (j : ℕ) → j ≢ key → probe m m.capacity j (home m j) ≡ some slot → find after j ≡ find m j
  still_absent j ne h =
      let (r, at_r, (in_r, stop)) = probe-HasRoom after after-IsTable j after-HasRoom in
      let free : (m.entries slot).val ≡ empty = ground (
        arith,
        probe-stops m m.capacity key (home m key) slot found,
        probe-stops m m.capacity j (home m j) slot h,
      ) in
      let away : r ≢ slot = λ i. ground arith in
      let vacant : (after.entries r).val ≡ empty =
        elim (Bool-cases ((after.entries r).val == empty)) [
          | inl e ↦ eq_of_== _ _ e
          | inr full ↦
              let k : (m.entries r).key ≡ j = ground arith in
              let p = placed r in_r (ground arith) in absurd (away (some_inj (sym (rw k at p) ∙ h)))
        ] in
      find-probe after j r at_r ∙ ap some (vacant ∙ sym free) ∙ sym (find-probe m j slot h)

  find-after : (j : ℕ) → find after j ≡ (if j == key then some val else find m j)
  find-after j = elim (Bool-cases (j == key)) [
    | inl same ↦
        let value : (after.entries slot).val ≡ val = rw (==-true {a = slot} {b = slot} refl) in
        rw (same, eq_of_== j key same) (find-probe after key slot self_probe ∙ ap some value)
    | inr ne ↦
        let (r, at_r, (in_r, stop)) = probe-HasRoom m t j spare.first in
        rw ne (elim (Bool-cases (r == slot)) [
          | inl i ↦ still_absent j (ne_of_== j key ne) (rw (eq_of_== r slot i) at at_r)
          | inr away ↦
              find-probe after j r (keeps j r (ne_of_== j key ne) (ne_of_== r slot away) at_r)
              ∙ (rw (==-false {a = slot} {b = r} (λ i. ne_of_== r slot away (sym i)))
                  (sym (find-probe m j r at_r)))
        ])
  ]

  after-IsPlaced : IsPlaced after
  after-IsPlaced s hs full = elim (Bool-cases (slot == s)) [
    | inl here ↦ rw here (self_probe ∙ ap some (eq_of_== slot s here))
    | inr away ↦
        let full' : (m.entries s).val ≢ empty = rw away at full in
        let p = placed s hs full' in
        let ne : (m.entries s).key ≢ key =
          λ i. ne_of_== slot s away (some_inj (sym found ∙ rw i at p)) in
        rw away (keeps (m.entries s).key s ne (λ i. ne_of_== slot s away (sym i)) p)
  ]

module _ (m : IdMap) (t : IsTable m) (spare : HasSpare m) (placed : IsPlaced m) (key val : ℕ)
    (real : val ≢ empty) where
  -- On a table whose capacity is a power of two, with two empty entries and each entry found from
  -- the home of its key, `insert` of a value that is not the mark of an empty entry ends in a table
  -- that looks the key up as its new value and every other key as before, and whose entries are all
  -- found from the homes of their keys.
  pub find-insert :
      Returns
        (insert m key val)
        (λ m'. IsPlaced m' × ((j : ℕ) → find m' j ≡ (if j == key then some val else find m j)))
  unfolding insert
  find-insert =
      let (slot, found, (inside, stop)) = probe-HasRoom m t key spare.first in
      (
        set_entry m slot (record { key = key; val = val }),
        rw (found, ◌>>=◌),
        (
          after-IsPlaced m t spare placed key val real slot inside found,
          find-after m t spare placed key val real slot inside found,
        ),
      )
