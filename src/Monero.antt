-- ===== src/Monero.antt =====
-- crates/nxms-monero-core: the domain logic of a Monero multisig escrow.
pub mod Types
pub mod Slots
pub mod Contract
pub mod Fee
pub mod Address
pub mod Bridge
