-- ===== src/Domain.antt =====
-- internal/domain/domain.go: the entities, their status types and the checks on them.
mod Base
mod Party
mod Account
mod Payment
mod Operation
mod Request
unfoldable pub use Base.*
unfoldable pub use Party.*
unfoldable pub use Account.*
unfoldable pub use Payment.*
unfoldable pub use Operation.*
unfoldable pub use Request.*
