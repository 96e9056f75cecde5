-- ===== src/Mysql.antt =====
-- crates/mysql-protocol/src: the packets of the MySQL wire protocol.
pub mod Value
pub mod Packet
mod Tests
