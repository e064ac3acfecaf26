-- ===== src/Examples.antt =====
-- The theorems at concrete inputs.
mod Words
mod Sessions
mod Approvals
mod Targets
mod Ledger
mod Streams
mod Receipts
