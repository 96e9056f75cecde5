-- ===== src/Common.antt =====
-- crates/fe-common/src: what the front end's parts share.
pub mod EditLog
mod Tests
