-- ===== src/Transport.antt =====
-- crates/nxms-transport: the wire format, and the admission of an escrow.
pub mod Security
pub mod Wire
pub mod Admission
