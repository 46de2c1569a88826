-- ===== src/MmapParser.antt =====
-- `OrderRecord` and `MmapParser` (src/ingestion/MmapParser.hpp, src/ingestion/MmapParser.cpp). The answers of
-- the system are arguments, and the mapping is the list of the bytes of the file.
pub mod Records
pub mod File
use nanomatch.Base.{
  ℕ, ◌*◌, ◌/◌, ◌%◌, Bool, not, ◌||◌, Option, none, some, List, length, ◌==◌, if◌then◌else◌,
}
use nanomatch.Wire.{Reader, pure, ◌>>=◌, word, drop}

pub record OrderRecord : Type 0 where
  pub order_id : ℕ
  pub price : ℕ
  pub qty : ℕ
  pub side : ℕ
  pub type : ℕ

-- The struct is packed, and its numbers are in the order of the machine.
unfoldable pub read_record : Reader OrderRecord
read_record = do
  order_id ← word 8
  price ← word 4
  qty ← word 4
  side ← word 1
  type ← word 1
  pure (record { order_id = order_id; price = price; qty = qty; side = side; type = type })

abbrev pub sizeof_record : ℕ
sizeof_record = 18

-- What `open`, `fstat` and `mmap` answer.
pub record FileAnswers : Type 0 where
  pub opens : Bool
  pub has_stat : Bool
  pub content : List ℕ
  pub maps : Bool

pub record MmapParser : Type 0 where
  pub size : ℕ
  pub count : ℕ
  pub data_ : List ℕ

-- The constructor's results: the errors that it throws, or the parser.
pub data Opened : Type 0 where
  open_failed : Opened
  fstat_failed : Opened
  bad_size : Opened
  mmap_failed : Opened
  opened : MmapParser → Opened

unfoldable pub open_file : FileAnswers → Opened
open_file a =
    let size = length a.content in
    if not a.opens
    then open_failed
    else if not a.has_stat
    then fstat_failed
    else if (size == 0) || not (size % sizeof_record == 0)
    then bad_size
    else if not a.maps
    then mmap_failed
    else opened (record { size = size; count = size / sizeof_record; data_ = a.content })

abbrev pub first_of : Option (OrderRecord × List ℕ) → Option OrderRecord
first_of none = none
first_of (some (r, rest)) = some r

-- `get_records()[i]`: nothing is a read outside the mapping.
unfoldable pub record_at : MmapParser → ℕ → Option OrderRecord
record_at p i = first_of (read_record (drop (sizeof_record * i) p.data_))
