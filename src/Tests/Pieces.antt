-- ===== src/Tests/Pieces.antt =====
-- The theorems on bitmaps, tables and the pool at concrete words, tables and slots.
use nanomatch.Base.{
  ℕ, ◌≡◌, refl, Option, some, ◌>>=◌, [], ◌∷◌, arith, null_idx, Returns, ◌==◌, if◌then◌else◌,
}
use nanomatch.Bitmap.{Bitmap, find_next_set_bit, find_prev_set_bit}
use nanomatch.Bitmap.Scan.{IsNext, IsPrev}
use nanomatch.Bitmap.Next.{find_next_set_bit-IsNext}
use nanomatch.Bitmap.Prev.{find_prev_set_bit-IsPrev}
use nanomatch.IdMap.{IdMap}
use nanomatch.IdMap
use nanomatch.IdMap.Ends.{IsOpen, erase-Returns}
use nanomatch.IdMap.Lookup.{IsPlaced, HasSpare, find-insert}
use nanomatch.IdMap.Lost.{Clash, erase_loses}
use nanomatch.IdMap.Probe.{IsTable, HasRoom}
use nanomatch.Orders.{buy}
use nanomatch.Pool
use nanomatch.Pool.Fresh.{count_up}
use nanomatch.Book.State.{Book, put}
use nanomatch.Book.Level.{level_append}
use nanomatch.Book.Matching.{deallocate}
use nanomatch.Book.Invariant.{IsBook, Queues}
use nanomatch.Book.Invariant.Append.{level_append-IsBook}
use nanomatch.Book.Invariant.Slot.{allocate-IsBook, deallocate-IsBook}
use nanomatch.IdMap.Power.{IsLeastPower}
use nanomatch.Book.State
use nanomatch.Book.Fresh.{fresh-Holds, chain_from, round_up_pow2-least}
use nanomatch.Tests.{program, empty_book}

-- Places 0, 2, 64 and 66 and so on.
abbrev every_other : Bitmap
every_other = λ _. 5

find_next_set_bit_example : IsNext every_other 3 128 (find_next_set_bit every_other 2 3)
find_next_set_bit_example =
    find_next_set_bit-IsNext every_other (λ _. omega arith) 2 3 (omega arith) (omega arith)

find_prev_set_bit_example : IsPrev every_other 63 (find_prev_set_bit every_other 63)
find_prev_set_bit_example = find_prev_set_bit-IsPrev every_other (λ _. omega arith) 63 (omega arith)

abbrev small_map : IdMap
small_map = empty_book.id_map

small_map-IsTable : IsTable small_map
unfolding program
small_map-IsTable = record { exponent = 4; capacity = refl; mask = refl }

small_map-HasRoom : HasRoom small_map
unfolding program
small_map-HasRoom = record { slot = 0; inside = omega arith; vacant = refl }

small_map-HasSpare : HasSpare small_map
unfolding program
small_map-HasSpare = record {
  first = record { slot = 0; inside = omega arith; vacant = refl };
  second = record { slot = 1; inside = omega arith; vacant = refl };
  differ = omega arith;
}

small_map-IsPlaced : IsPlaced small_map
unfolding program
small_map-IsPlaced s inside full = absurd (full refl)

find-insert_example : Returns (IdMap.insert small_map 7 3) (λ m'.
    IsPlaced m' × ((j : ℕ) → IdMap.find m' j ≡ (if j == 7 then some 3 else IdMap.find small_map j)))
find-insert_example =
    find-insert small_map small_map-IsTable small_map-HasSpare small_map-IsPlaced 7 3 (omega arith)

erase-Returns_example : Returns (IdMap.erase small_map 7) (IsOpen small_map)
erase-Returns_example = erase-Returns small_map small_map-IsTable small_map-HasRoom 7

Clash-1_8_17 : Clash small_map 1 8 17
unfolding program
Clash-1_8_17 = record {
  table = small_map-IsTable;
  inner = omega arith;
  a_ne_b = omega arith;
  a_ne_c = omega arith;
  b_ne_c = omega arith;
  home_b = refl;
  home_c = refl;
  free₀ = refl;
  free₁ = refl;
  free₂ = refl;
}

abbrev three_orders : Option IdMap
three_orders =
    IdMap.insert small_map 1 10 >>= λ m. IdMap.insert m 8 11 >>= λ m. IdMap.insert m 17 12

erase_loses_example :
    (three_orders >>= (λ m'. IdMap.find m' 17) ≡ some 12)
    × (three_orders >>= (λ m'. IdMap.erase m' 1) >>= (λ m'. IdMap.find m' 17) ≡ some null_idx)
erase_loses_example =
    erase_loses small_map 1 8 17 10 11 12 Clash-1_8_17 (omega arith) (omega arith) (omega arith)

-- A book whose pool has eight slots, all of them free.
abbrev no_queues : Queues
no_queues = λ _ _. []

empty_book-IsBook : IsBook empty_book no_queues (0 ∷ count_up 1 7)
unfolding program
empty_book-IsBook =
    fresh-Holds empty_book.pool.slots 8 (chain_from 8 (omega arith) (omega arith) 8 0 refl)
      (omega arith)

allocate_example :
    ((Pool.allocate empty_book.pool).0 ≡ 0)
    × IsBook
        (record empty_book { pool = (Pool.allocate empty_book.pool).1 })
        no_queues
        (count_up 1 7)
allocate_example = allocate-IsBook empty_book no_queues 0 (count_up 1 7) empty_book-IsBook

abbrev one_given : Book
one_given = record empty_book { pool = (Pool.allocate empty_book.pool).1 }

deallocate_example : IsBook (deallocate 0 one_given) no_queues (0 ∷ count_up 1 7)
unfolding program
deallocate_example =
    deallocate-IsBook one_given no_queues (count_up 1 7) allocate_example.1 0 (omega arith) refl
      (λ _ _. refl)

level_append_example :
    IsBook (level_append buy 0 0 one_given) (put no_queues buy 0 (0 ∷ [])) (count_up 1 7)
unfolding program
level_append_example =
    level_append-IsBook buy 0 0 one_given no_queues (count_up 1 7) allocate_example.1 (omega arith)
      refl (λ _ _. refl) (record { here = refl; side = refl; small = omega arith })

round_up_pow2-least_example :
    IsLeastPower 100 (IdMap.round_up_pow2 100) × IsLeastPower 100 (State.round_up_pow2 100)
round_up_pow2-least_example = round_up_pow2-least 100 (omega arith)
