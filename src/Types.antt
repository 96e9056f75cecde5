-- ===== src/Types.antt =====
-- crates/types/src: the data that the engine's columns are made of.
pub mod Bitmap
mod Tests
