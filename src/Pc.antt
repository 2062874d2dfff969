-- ===== src/Pc.antt =====
-- The PC's side: src/pc.
pub mod Match
pub mod Draft
pub mod Service
pub mod Pipeline
pub mod Server
