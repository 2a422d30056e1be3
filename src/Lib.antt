-- ===== src/Lib.antt =====
-- Nexum Core (NXMS): escrow over Monero multisig, with sealed messages between buyer, seller and
-- arbiter. The contract of an escrow (crates/nxms-monero-core) collects the data of three rounds of
-- key exchange, is funded, and is settled by two of three confirmations; the bridge serves it
-- statelessly. The signer (crates/nxms-signer) of a party signs and submits transactions for tokens
-- of the orchestrator, under a snapshot of the contract that a quorum has signed. The orchestrator
-- (crates/nxms-escrow-orchestrator) keeps each escrow's workflow, its received steps and an outbox
-- in SQLite. The mailbox (crates/nxms-mailbox) stores envelopes until
-- their receivers pull and acknowledge them; their form is that of crates/nxms-transport.
--
-- Files:
--   Common           shared names, results (Outcome), methods over mutable state (Method), Rust's
--                    texts (Text), maps (Table), signed numbers (Int)
--   Monero/Types, Monero/Slots, Monero/Contract
--                    crates/nxms-monero-core/src/types.rs and multisig/state.rs: EscrowContract;
--                    Rounds and Settlement hold its operations under the source's names, Ops their
--                    runs, Cases and Steps what each may end in, Invariant, Slots, Setup and
--                    Progress the theorems
--   Monero/Address   crates/nxms-monero-core/src/xmr_address.rs
--   Monero/Fee       crates/nxms-monero-core/src/fee_policy.rs
--   Monero/Bridge    crates/nxms-monero-core/src/bridge.rs: names, requests and answers
--   Transport/Wire   crates/nxms-transport/src/wire.rs: `validate_envelope` and `validate_payload`
--                    are the two methods `validate_basic`
--   Transport/Admission
--                    crates/nxms-transport/src/admission.rs: verify_against_bundle
--   Transport/Security
--                    crates/nxms-transport/src/security.rs: timing_safe_eq_fixed
--   Mailbox/Store    crates/nxms-mailbox/src/db.rs: push_sync, pull_sync, ack_sync, cleanup,
--                    and stats_sync (Stats)
--   Mailbox/Limiter  crates/nxms-mailbox/src/lib.rs: FixedWindowLimiter::check
--   Mailbox/Api      crates/nxms-mailbox/src/api.rs: the requests push, pull, ack and admin_stats, over the
--                    store and the limiter, and what their authorization establishes (Auth)
--   Orchestrator     crates/nxms-escrow-orchestrator/src/flow.rs, db.rs and tx_profile.rs; Db/Artifacts
--                    and Db/Proofs hold the tables that the tokens rest on
--   Orchestrator/Token
--                    crates/nxms-escrow-orchestrator/src/action_token.rs: the parameters (Params), the
--                    issue (Issue) and what it rests on (Claims); Accepted is the composition with
--                    Signer/Token, from the issue of a token to its verification
--   Signer/Snapshot  crates/nxms-signer/src/snapshot.rs: validate_transfer_against_snapshot
--   Signer/Bridge    crates/nxms-signer/src/orchestrator_bridge.rs: the check of the seller's proof
--   Signer/Db        crates/nxms-signer/src/db.rs: Sequence, Snapshots and Requests hold the operations,
--                    the files below them what they keep
--   Signer/VerifyLimiter, Signer/Token
--                    crates/nxms-signer/src/action_token.rs: VerifyRateLimiter and the checks of
--                    ActionTokenVerifier (Verify), and what they tie a token to (Binding)
--   Signer/Flow      crates/nxms-signer/src/agent/flow_ops.rs: Prepare, Authorize, Request and Wallet
--                    (and Admission, of agent.rs) hold the parts of sign_multisig_flow (Sign) and
--                    of submit_multisig_flow (Submit), that the source writes once in each;
--                    SingleUse, Approval and Proof the theorems
--   Examples         the theorems at concrete inputs
--
-- How state is modelled: a `&mut self` method, and a transaction on a database, is a function
-- from the state to an answer and the state; what was written before an error stays written,
-- unless the source rolls it back. A table is the list of its rows. The clock, the hash, the
-- serialization of envelopes, the random receipts, the wallet RPC and the address check
-- `is_xmr_address` are arguments (the last is that of Monero/Address), so the theorems hold for
-- any of them; `delivered` assumes that decoding is the inverse of encoding at its envelope. The
-- flows of the signer take as `Outside` SHA-256, the JWT library, the JSON and the hash of a
-- snapshot, the JSON of stored results, and the JSON and the hash of an admission artifact with
-- the verification of Falcon (`Seal`); a request comes with the clock and with the answers of
-- the wallet and of the orchestrator, and one reading of the clock serves the whole request. The
-- state of the agent keeps the calls of the wallet, each with the token that it was made for.
-- The audit log keeps the parts of a line, without the sender's own id, and always succeeds.
-- Every function is total by structural recursion; only the loop of the mailbox's `pull` has fuel, one
-- unit for a round: a round is followed by another only before the deadline, so that the rounds until
-- the clock has reached the deadline, and one more, are enough. Machine widths: fees are
-- computed with the limits of u64, u32 and u128, times and sequence numbers of the databases
-- saturate at the greatest i64, the counters of the limiter at the greatest u32. Identifiers of
-- rows are natural numbers. Error texts leave out the values that the source formats into them.
--
-- Not modelled: failures of SQLite itself and of threads, the router and the HTTP services, the rest
-- of the signer (received messages, pending approvals, proposals), the native
-- cryptography, the wallet and daemon clients, configuration, the iOS and web front ends.
mod Common
pub mod Monero
pub mod Transport
pub mod Mailbox
pub mod Orchestrator
pub mod Signer
mod Examples
