-- ===== src/Tests.antt =====
-- Runs of the models on concrete inputs, and the theorems at concrete inputs.
mod Listing
mod Tenants
mod Sorting
mod Ledger
mod Recon
mod Service
mod Api
mod Fixtures
mod Relay
mod Withdrawal
mod Collection
mod Postgres
mod Idempotency
mod Statements
