-- ===== src/IdMap/Ends.antt =====
-- Every operation of `IdMap` (src/core/OrderBook.hpp) ends when some entry is empty, and `erase` leaves
-- an entry empty.
use nanomatch.Base.{
  ℕ, zero, suc, ◌≤◌, ◌<◌, ◌≡◌, ◌≢◌, refl, false, ◌>>=◌, ◌==◌, arith, Bool-cases, inl, inr, Returns,
  ==-false,
}
use nanomatch.IdMap.{
  IdMap, Entry, empty, next_slot, find, insert, displaced, shift_back, vacate, set_entry, erase,
}
use nanomatch.IdMap.Lookup.{find-probe}
use nanomatch.IdMap.Probe.{
  IsTable, HasRoom, next_slot-lt, steps, steps_next, steps-lt, probe-HasRoom,
}

-- What `erase` promises beside its effect.
abbrev pub IsOpen : IdMap → IdMap → Type 0
IsOpen m m' = IsTable m' × HasRoom m' × (m'.capacity ≡ m.capacity)

same-IsTable : (m : IdMap) (f : ℕ → Entry) → IsTable m → IsTable (record m { entries = f })
same-IsTable m f t = record { exponent = t.exponent; capacity = t.capacity; mask = t.mask }

pub shift_back-Returns :
    (n : ℕ) (m : IdMap) (cur e : ℕ)
    → IsTable m
    → cur < m.capacity
    → e < m.capacity
    → cur ≢ e
    → (m.entries e).val ≡ empty
    → steps m.capacity cur e ≤ n
    → Returns (shift_back n m cur) (IsOpen m)
unfolding shift_back
shift_back-Returns zero m cur e t hc he ne vac few = absurd (ground arith)
shift_back-Returns (suc n) m cur e t hc he ne vac few =
    let nxt = next_slot m cur in
    let step = steps_next m cur e t hc he ne in
    elim (Bool-cases ((m.entries nxt).val == empty)) [
      | inl done ↦ (m, rw done, (t, record { slot = e; inside = he; vacant = vac }, refl))
      | inr full ↦ elim (Bool-cases (displaced m cur nxt)) [
        | inr home_slot ↦
            (m, rw (full, home_slot), (t, record { slot = e; inside = he; vacant = vac }, refl))
        | inl moves ↦
            let ne' : nxt ≢ e = λ i. cc (full, vac) in
            let m' = vacate (set_entry m cur (m.entries nxt)) nxt in
            let far : ((cur == e) ≡ false) × ((nxt == e) ≡ false) = (==-false ne, ==-false ne') in
            let (r, p, q) =
              shift_back-Returns n m' nxt e (same-IsTable m m'.entries t) (next_slot-lt m cur t hc)
                he ne' (rw (far.1, far.0) vac) (omega arith) in
            (r, rw (full, moves) p, q)
      ]
    ]

module _ (m : IdMap) (t : IsTable m) (room : HasRoom m) (key : ℕ) where
  -- On a table whose capacity is a power of two and that has an empty entry, `erase` of any key
  -- ends, in a table of the same capacity that has an empty entry.
  pub erase-Returns : Returns (erase m key) (IsOpen m)
  unfolding erase
  erase-Returns =
      let (slot, found, (inside, stop)) = probe-HasRoom m t key room in
      elim (Bool-cases ((m.entries slot).val == empty)) [
        | inl absent ↦ (m, rw (found, ◌>>=◌, absent), (t, room, refl))
        | inr present ↦
            let ne : slot ≢ room.slot = λ i. cc (present, room.vacant) in
            let m' = vacate m slot in
            let (r, p, q) =
              shift_back-Returns m.capacity m' slot room.slot (same-IsTable m m'.entries t) inside
                room.inside ne (rw (==-false ne) (room.vacant))
                (omega (arith, steps-lt m t key slot room.slot inside room.inside)) in
            (r, rw (found, ◌>>=◌, present) p, q)
      ]

  -- So does `insert`.
  pub insert-Returns :
      (val : ℕ) → Returns (insert m key val) (λ m'. IsTable m' × (m'.capacity ≡ m.capacity))
  unfolding insert
  insert-Returns val =
      let (slot, found, (inside, stop)) = probe-HasRoom m t key room in
      let m' = set_entry m slot (record { key = key; val = val }) in
      (m', rw (found, ◌>>=◌), (same-IsTable m m'.entries t, refl))

  pub find-Returns : Returns (find m key) (λ _. Unit {0})
  find-Returns =
      let (slot, found, _) = probe-HasRoom m t key room in
      ((m.entries slot).val, find-probe m key slot found, tt)
