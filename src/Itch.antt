-- ===== src/Itch.antt =====
-- The ITCH feed (src/ingestion/ItchProtocols.hpp, src/ingestion/ItchParser.cpp).
pub mod Protocol
pub mod Decode
pub mod Feed
pub mod Parse
