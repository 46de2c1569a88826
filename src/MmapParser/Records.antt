-- ===== src/MmapParser/Records.antt =====
-- The records of a file that `MmapParser` (src/ingestion/MmapParser.cpp) accepts.
use native.Mathlib.Nat.{mul-le-mul_left}
use nanomatch.Base.{
  ℕ, suc, ◌*◌, ◌%◌, ◌≤◌, ◌<◌, ◌≡◌, refl, ap, Bool, true, false, not, none, some, Option, ltb, ◌/◌,
  ◌||◌, Bool-cases, inl, inr, length, ◌==◌, arith, Returns, ◌⊎◌,
}
use nanomatch.Wire.{◌>>=◌, word, drop}
use nanomatch.Wire.Length.{Takes, pure-Takes, bind-Takes, word-Takes, length-drop, drop-all}
use nanomatch.MmapParser.{
  read_record, sizeof_record, FileAnswers, MmapParser, Opened, open_failed, fstat_failed, bad_size,
  mmap_failed, opened, open_file, OrderRecord, first_of, record_at,
}

record-Takes : Takes sizeof_record read_record
unfolding read_record
record-Takes = bind-Takes (word-Takes 8) (λ _. bind-Takes (word-Takes 4) (λ _.
    bind-Takes (word-Takes 4)
      (λ _. bind-Takes (word-Takes 1) (λ _. bind-Takes (word-Takes 1) (λ _. pure-Takes _)))))

-- The whole records that a file holds, where it has no other bytes.
pub record IsWhole (p : MmapParser) : Type 0 where
  pub size : p.size ≡ length p.data_
  pub records : p.size ≡ sizeof_record * p.count
  pub some_record : 0 < p.count

pub record_at-Returns :
    (p : MmapParser) (i : ℕ) → IsWhole p → i < p.count → Returns (record_at p i) (λ _. Unit {0})
unfolding record_at
record_at-Returns p i w lt =
    let room : sizeof_record * suc i ≤ sizeof_record * p.count =
      mul-le-mul_left {m = suc i} {n = p.count} 18 lt in
    let at = length-drop (sizeof_record * i) p.data_ (omega (arith, room, w.size, w.records)) in
    let (r, rest, got, left) =
      record-Takes.taken (drop (sizeof_record * i) p.data_)
        (omega (arith, room, at, w.size, w.records)) in
    (r, ap first_of got, tt)

-- A read that needs more bytes than are left gives nothing.
none_past_end : (p : MmapParser) (i : ℕ) → IsWhole p → p.count ≤ i → record_at p i ≡ none
unfolding record_at read_record ◌>>=◌ word
none_past_end p i w le =
    let room : sizeof_record * p.count ≤ sizeof_record * i =
      mul-le-mul_left {m = p.count} {n = i} 18 le in
    rw (drop-all (sizeof_record * i) p.data_ (omega (arith, room, w.size, w.records))) refl

abbrev has_record : Option OrderRecord → Bool
has_record none = false
has_record (some r) = true

-- Exactly the records below the count are in the mapping.
has_record-below : (p : MmapParser) (i : ℕ) → IsWhole p → has_record (record_at p i) ≡ ltb i p.count
has_record-below p i w = elim (Bool-cases (ltb i p.count)) [
  | inl k ↦ let (r, e, _) = record_at-Returns p i w (ground (arith, k)) in rw (e, k) refl
  | inr k ↦ rw (none_past_end p i w (ground (arith, k)), k) refl
]

-- What each result of the constructor says of the system's answers, and of the records of the parser.
abbrev pub Explains : (a : FileAnswers) (i : ℕ) → Opened → Type 0
Explains a i open_failed = a.opens ≡ false
Explains a i fstat_failed = (a.opens ≡ true) × (a.has_stat ≡ false)
Explains a i bad_size =
    (a.opens ≡ true)
    × (a.has_stat ≡ true)
    × ((length a.content ≡ 0) ⊎ (0 < length a.content % sizeof_record))
Explains a i mmap_failed =
    (a.opens ≡ true)
    × (a.has_stat ≡ true)
    × (a.maps ≡ false)
    × (0 < length a.content)
    × (length a.content % sizeof_record ≡ 0)
Explains a i (opened p) =
    (a.opens ≡ true)
    × (a.has_stat ≡ true)
    × (a.maps ≡ true)
    × IsWhole p
    × (p.data_ ≡ a.content)
    × (has_record (record_at p i) ≡ ltb i p.count)

-- For any answers of `open`, `fstat` and `mmap`, the constructor's error names the first of them
-- that failed, or a file that is empty or whose size is no multiple of 18; where it gives a parser,
-- none of them failed, the parser has the bytes of the file, which are `count` records and at least
-- one, and reading the record at any index stays in the mapping exactly where the index is below
-- `count`.
pub open_file-Explains : (a : FileAnswers) (i : ℕ) → Explains a i (open_file a)
unfolding open_file
open_file-Explains a i = elim (Bool-cases a.opens) [
  | inr closed ↦ rw closed refl
  | inl ready ↦ elim (Bool-cases a.has_stat) [
    | inr unknown ↦ rw (ready, unknown) (refl, refl)
    | inl known ↦
        elim (Bool-cases ((length a.content == 0) || not (length a.content % sizeof_record == 0))) [
          | inl odd ↦ rw (ready, known, odd) (refl, refl, odd_size (length a.content) odd)
          | inr whole ↦ elim (Bool-cases a.maps) [
            | inr failed ↦
                rw (ready, known, whole, failed)
                  (refl, refl, refl, ground (arith, whole), ground (arith, whole))
            | inl mapped ↦
                let w : IsWhole (record {
                  size = length a.content;
                  count = length a.content / sizeof_record;
                  data_ = a.content;
                }) =
                  record {
                    size = refl;
                    records = ground (arith, whole);
                    some_record = ground (arith, whole);
                  } in
                rw (ready, known, whole, mapped) (refl, refl, refl, w, refl, has_record-below _ i w)
          ]
        ]
  ]
]
  where
    odd_size :
        (n : ℕ)
        → ((n == 0) || not (n % sizeof_record == 0)) ≡ true
        → (n ≡ 0) ⊎ (0 < n % sizeof_record)
    odd_size n h = ground (arith, h)
