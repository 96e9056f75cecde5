-- ===== src/Maxcompute.antt =====
-- crates/maxcompute-protocol/src: the MaxCompute endpoint, of which the tunnel's sessions are modelled.
pub mod Tunnel
mod Tests
