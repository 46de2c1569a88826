-- ===== src/MmapParser/File.antt =====
-- A file of records for `MmapParser` (src/ingestion/MmapParser.hpp).
use native.Mathlib.Nat.{pow-suc}
use nanomatch.Base.{
  ℕ, zero, suc, ◌+◌, ◌*◌, ◌/◌, ◌%◌, ◌^◌, ◌<◌, ◌≡◌, refl, ◌∙◌, ap, sym, some, List, [], ◌∷◌, ◌++◌,
  length, length-append, arith,
}
use nanomatch.Wire.{pure, pass, word, drop}
use nanomatch.Wire.Length.{drop-append}
use nanomatch.Wire.Order.{Reads, pure-Reads, bind-Reads}
use nanomatch.MmapParser.{OrderRecord, read_record, sizeof_record, MmapParser, first_of, record_at}

-- The `n` bytes of `v` in the order of the machine.
unfoldable pub stored : (n v : ℕ) → List ℕ
stored zero v = []
stored (suc n) v = (v % 256) ∷ stored n (v / 256)

stored-Reads : (n v : ℕ) → v < 256 ^ n → Reads (word n) (stored n v) v
unfolding word stored
stored-Reads n v h = record { back = back n v h }
  where
    back : (n v : ℕ) → v < 256 ^ n → (rest : List ℕ) → word n (stored n v ++ rest) ≡ some (v, rest)
    back zero v h rest = ap (λ k. some (k, rest)) (omega (arith, h))
    back (suc n) v h rest =
        ap (λ o. pass o (λ w. pure (v % 256 + 256 * w)))
          (back n (v / 256) (omega (arith, h, pow-suc 256 n)) rest)
        ∙ ap (λ k. some (k, rest)) (omega arith)

length-stored : (n v : ℕ) → length (stored n v) ≡ n
unfolding stored
length-stored zero v = refl
length-stored (suc n) v = omega (arith, length-stored n (v / 256))

abbrev pub encode : OrderRecord → List ℕ
encode r =
    stored 8 r.order_id
    ++ (stored 4 r.price ++ (stored 4 r.qty ++ (stored 1 r.side ++ (stored 1 r.type ++ []))))

-- The fields of a record, in the widths of the struct.
abbrev pub FitsRecord : OrderRecord → Type 0
FitsRecord r =
    (r.order_id < 256 ^ 8)
    × (r.price < 256 ^ 4)
    × (r.qty < 256 ^ 4)
    × (r.side < 256 ^ 1)
    × (r.type < 256 ^ 1)

abbrev pub file : List OrderRecord → List ℕ
file [] = []
file (r ∷ rs) = encode r ++ file rs

pub length-encode : (r : OrderRecord) → length (encode r) ≡ sizeof_record
length-encode r = simp (length-append, length-stored) (omega arith)

pub length-file : (rs : List OrderRecord) → length (file rs) ≡ sizeof_record * length rs
length-file [] = refl
length-file (r ∷ rs) =
    omega (arith, length-append (encode r) (file rs), length-encode r, length-file rs)

encode-Reads : (r : OrderRecord) → FitsRecord r → Reads read_record (encode r) r
unfolding read_record
encode-Reads r (h0, h1, h2, h3, h4) = bind-Reads _ (stored-Reads 8 r.order_id h0) (
    bind-Reads _ (stored-Reads 4 r.price h1) (
      bind-Reads _ (stored-Reads 4 r.qty h2) (
        bind-Reads _ (stored-Reads 1 r.side h3)
          (bind-Reads _ (stored-Reads 1 r.type h4) (pure-Reads _)))))

drop-nil : (n : ℕ) → drop n [] ≡ []
drop-nil zero = refl
drop-nil (suc n) = refl

drop_more : (n m : ℕ) (bytes : List ℕ) → drop (n + m) bytes ≡ drop m (drop n bytes)
drop_more zero m bytes = ap (λ k. drop k bytes) (omega arith)
drop_more (suc n) m [] = drop-nil (suc n + m) ∙ sym (drop-nil m)
drop_more (suc n) m (b ∷ bytes) =
    ap (λ k. drop k (b ∷ bytes)) (let e : suc n + m ≡ suc (n + m) = omega arith in e)
    ∙ drop_more n m bytes

-- Where the bytes from record `i` on are those of `r ∷ rs`, that record is `r`, and the next ones follow.
pub record_at-file :
    (p : MmapParser) (i : ℕ) (r : OrderRecord) (rs : List OrderRecord)
    → FitsRecord r
    → drop (sizeof_record * i) p.data_ ≡ file (r ∷ rs)
    → (record_at p i ≡ some r) × (drop (sizeof_record * suc i) p.data_ ≡ file rs)
unfolding record_at
record_at-file p i r rs fits here = (
  ap (λ bytes. first_of (read_record bytes)) here
      ∙ ap first_of ((encode-Reads r fits).back (file rs)),
  ap (λ k. drop k p.data_)
        (let e : sizeof_record * suc i ≡ sizeof_record * i + length (encode r) =
            omega (arith, length-encode r) in
          e)
      ∙ drop_more (sizeof_record * i) (length (encode r)) p.data_
      ∙ ap (drop (length (encode r))) here
      ∙ drop-append (encode r) (file rs),
)
