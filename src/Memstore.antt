-- ===== src/Memstore.antt =====
-- internal/store/memstore/memstore.go: the in-memory implementation of the stores.
pub mod Ids
pub mod Transactions
pub mod Customers
pub mod Accounts
pub mod Webhooks
pub mod Suspense
pub mod Runs
pub mod Ranges
pub mod Tenants
pub mod Relay
pub mod Statements
pub mod World
