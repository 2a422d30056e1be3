-- ===== src/Orchestrator.antt =====
-- crates/nxms-escrow-orchestrator: the workflow of an escrow and its database.
pub mod Flow
pub mod Db
pub mod TxProfile
pub mod Token
