-- ===== src/Redis/Handler/Confined.antt =====
-- crates/redis-protocol/src/handler.rs: which databases a command can change. The rules for the
-- handler's guards, the commands of each family, and the dispatch.
pub mod Rules
pub mod Strings
pub mod Keys
pub mod Server
pub mod Hashes
pub mod Lists
pub mod Sets
pub mod SortedSets
pub mod Dispatch
