-- ===== src/Service.antt =====
-- internal/service: what the HTTP handlers call.
pub mod Suspense
pub mod Provisioning
pub mod Customer
pub mod Withdrawal
pub mod Collection
