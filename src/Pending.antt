-- ===== src/Pending.antt =====
-- The single pending operation of the Raspberry Pi: src/pi/pending_operation.
pub mod View
pub mod Resolution
pub mod Gateway
pub mod Response
pub mod Operation
pub mod Flow
pub mod Slot
pub mod Worker
