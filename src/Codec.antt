-- ===== src/Codec.antt =====
-- The wire protocol: src/libs/networking/framing, gcmd (market data) and oe (order entry).
pub mod Frame
pub mod Gcmd
pub mod Oe
mod Tests
