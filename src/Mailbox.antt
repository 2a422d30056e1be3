-- ===== src/Mailbox.antt =====
-- crates/nxms-mailbox: the store of sealed envelopes (db.rs) and the rate limiter (lib.rs).
pub mod Store
pub mod Limiter
pub mod Api
