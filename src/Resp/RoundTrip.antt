-- ===== src/Resp/RoundTrip.antt =====
-- crates/redis-protocol/src/resp.rs, the encoder against the parser: lines and headers, the values
-- within the limits, `measure_value`, and `parse`.
pub mod Lines
pub mod Sendable
pub mod Shapes
pub mod Measure
pub mod Leaves
pub mod Decode
