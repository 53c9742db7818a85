-- ===== src/Recon.antt =====
-- internal/recon: matching of incoming payments, the worker that posts them, and the sweep.
pub mod Matcher
pub mod Worker
pub mod Direct
pub mod Memory
pub mod Sweep
