-- ===== src/Store.antt =====
-- The database of the Raspberry Pi: src/pi/storage and src/pi/inventory. A table is the list of its
-- rows; the engine that runs the statements is outside, and its answers to them are written out here
-- from the statements, checks and triggers of the source.
pub mod Stock
pub mod Migrations
pub mod Opening
