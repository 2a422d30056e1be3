-- ===== src/Examples.antt =====
-- The theorems at concrete inputs.
mod Escrow
mod Bridge
mod Mailbox
mod Wire
mod Orchestrator
mod Issue
mod Api
mod Signer
mod Flow
mod Party
