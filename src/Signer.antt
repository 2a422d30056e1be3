-- ===== src/Signer.antt =====
-- The signer of a party: what it stores, what it accepts to sign, and how it serves a request.
pub mod Db
pub mod Snapshot
pub mod Token
pub mod VerifyLimiter
pub mod Bridge
pub mod Flow
