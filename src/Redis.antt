-- ===== src/Redis.antt =====
-- crates/redis-protocol/src: the storage backend and the command handler.
pub mod Storage
pub mod Runtime
pub mod Handler
pub mod Connection
mod Tests
