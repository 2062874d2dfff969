-- ===== src/Tests.antt =====
-- Tests on concrete inputs, and the theorems at inputs that meet their hypotheses.
mod Cycle
mod Catalog
mod Pipeline
mod Talk
mod Stock
mod Buffer
mod Codec
mod Wire
mod Store
mod Web
mod Capture
mod Devices
