-- ===== src/Contract.antt =====
-- The operation contract that the PC emits and the Raspberry Pi validates:
-- src/shared/operation_contract/payload.py, and src/pi/operation_contract.
pub mod Payload
pub mod Rejection
pub mod Normalize
pub mod Catalog
pub mod Resolver
pub mod Structure
pub mod Validator
