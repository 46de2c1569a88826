-- ===== src/Book.antt =====
-- `OrderBook` of src/core/OrderBook.hpp and src/core/OrderBook.cpp.
pub mod State
pub mod Level
pub mod Top
pub mod Matching
pub mod Rebase
pub mod Insert
pub mod Feed
pub mod Invariant
pub mod Reference
pub mod Represents
pub mod TakeOut
pub mod FillOrder
pub mod FillLevel
pub mod Sweep
pub mod Fresh
pub mod Place
pub mod Rest
pub mod Limit
pub mod Tops
pub mod Cancel
pub mod Market
pub mod Shrink
pub mod Execute
