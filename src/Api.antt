-- ===== src/Api.antt =====
-- internal/api: what the server does with a request.
pub mod Webhook
pub mod Idempotency
