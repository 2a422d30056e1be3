-- ===== src/Monero/Bridge.antt =====
-- crates/nxms-monero-core/src/bridge.rs: the stateless bridge. Each request carries the part of the
-- contract that it needs, and the answer carries the part that it changed. The wallet that
-- `wallet_rpc_call` reaches is a parameter: what it answers to each call.
pub mod Names
pub mod Requests
pub mod Settlement
pub mod Keys
pub mod Confirm
