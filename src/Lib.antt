-- ===== src/Lib.antt =====
-- A verification library for the Nanomatch order matching engine.
--
-- The program. `OrderBook` (src/core/OrderBook.hpp, src/core/OrderBook.cpp) keeps the resting limit
-- orders of one instrument. Orders live in slots of `OrderPool`; each price level is a doubly linked
-- queue of slots; two bitmaps show which levels have orders; `TopOfBook` caches the best prices;
-- `IdMap` leads from order ids to slots. A new order first trades against the other side, best price
-- first and within a price in order of arrival, and what is left of it rests. Trades go to
-- `AsyncLogger` (src/logging/AsyncLogger.hpp). `Engine` (src/core/Engine.hpp) feeds records of a file
-- to a book, and the ITCH parser (src/ingestion/ItchParser.cpp) messages of a feed.
--
-- The files.
--   Base: Booleans, lists, options and machine words over the native numbers. A `uint32_t` is a number
--     whose wrap-around is written out (`u32`, `add32`, `sub32`).
--   Bits, Bitmap: bits of words, `find_prev_set_bit` and `find_next_set_bit`. Bitmap.Next and
--     Bitmap.Prev are about the scans, Bitmap.Scan about the updates.
--   Orders: the structs of src/core/Types.hpp and `TopOfBook`.
--   Pool: `OrderPool`. Queue: chains of slots.
--   IdMap: the map from ids to slots. IdMap.Probe and IdMap.Ends are about its loops, IdMap.Lookup about
--     `insert` and `find`, IdMap.Lost about `erase`,
--     IdMap.Power about `round_up_pow2`.
--   Book: the book. Book.State has its fields and the constructor, Book.Level `level_append` and
--     `level_remove`, Book.Top `update_best_bid` and `update_best_ask`, Book.Matching the matching loops
--     and `process_market_order`, Book.Rebase `rebase_base`, Book.Insert `insert_limit_order`, Book.Feed
--     `cancel_order`, `execute_order` and `reduce_order_qty`.
--   Book.Invariant: what holds of the arrays, and the operations on them. Book.Reference: matching on
--     plain lists. Book.Represents: when a book stands for plain lists. Book.TakeOut, Book.FillOrder,
--     Book.FillLevel, Book.Sweep, Book.Market, Book.Fresh, Book.Place, Book.Rest, Book.Limit, Book.Cancel,
--     Book.Shrink and Book.Execute lead from the arrays to the lists. Book.Tops is about the cached best
--     prices.
--   Spsc: `SPSCQueue`. Spsc.Index and Spsc.Window are about its counters and slots, Spsc.Moves about each
--     access, Spsc.Calls about whole calls, Spsc.Threads about the two threads, and in it
--     Emplace, Pop and Runs about a call that the other thread does not interrupt.
--   Logger: `AsyncLogger`. Logger.Drain is about `drain`, Logger.Events about the calls between `start` and
--     `stop`, Logger.Session about whole sessions.
--   Wire: reads of packed structs, their lengths and the order of their bytes. Outcome: how a run over a
--     file ends.
--   Itch: the feed. Itch.Protocol has the structs of src/ingestion/ItchProtocols.hpp, Itch.Decode the switch of
--     `parse_itch_file` up to the fields that it takes, Itch.Feed the state and the handlers, Itch.Parse the
--     loop.
--   MmapParser: `MmapParser` and `OrderRecord` (src/ingestion/MmapParser.hpp). Engine: `Engine`.
--   Tests: runs of the model, and the theorems at concrete states.
--
-- The state. A vector is a function of the index. `bids_` and `asks_` are one family of levels over
-- the two sides, and so are the bitmaps. The level that a function gets by reference is named by its
-- side and index, and the test on its address that picks a bitmap is kept. The time stamp counter is the
-- sequence of the values it will return, and the logger of a book is the list of the trades handed to it.
--
-- Loops. The scans of the bitmaps are recursion on the words that are left. A probe of the map has a
-- round for each entry: it then has seen every entry, and the source would go on for ever. The walk over
-- a level has a round for each slot of the pool and one to end, the sweep over the levels a round for
-- each level of the band and two more: a level has at most as many orders as the pool has slots, and a
-- sweep that goes on leaves a level behind in each round. The loops of `rebase_base` have a round for
-- each slot of the pool or each level of the band. A loop that uses its rounds up is `none`.
--
-- `drain` has a round for each slot of the ring and one to end, and the parser's loop a round for each byte
-- of the file and one to end, as a record has three bytes at least. The threads of the queue are a step
-- relation, so nothing bounds their runs.
--
-- Files and threads. A mapped file is the list of its bytes, a pointer into it the list of the bytes from
-- there on, and a read outside it a result of its own (`past_end`, `read_past_end`). The pointers in
-- `ref_owner` are indices of `market_books`. A book in the parser or the engine has the list of its trades;
-- the engine hands this list to the logger, with the rounds of the logger's thread at any place between.
-- The answers of `open`, `fstat` and `mmap`, the memory of the ring, the time stamps and the schedule of the
-- logger's thread are parameters. The file of the logger opens, and its writes succeed.
--
-- Not modelled: prefetching, alignment, locking and mapping of memory, which change no value; the memory
-- orders of the atomics beyond one order of all accesses; the printing of numbers and messages; the command
-- line (src/core/main.cpp, src/core/itch_main.cpp) and the telemetry, which only print and measure.
pub mod Base
pub mod Bits
pub mod Bitmap
pub mod Orders
pub mod Queue
pub mod Pool
pub mod IdMap
pub mod Book
pub mod Spsc
pub mod Logger
pub mod Wire
pub mod Outcome
pub mod Itch
pub mod MmapParser
pub mod Engine
mod Tests
