-- ===== src/Mysql/Packet/Greeting.antt =====
-- crates/mysql-protocol/src/packet.rs: the server's greeting, `HandshakeV10`.
use roris_db.Prelude.{ℕ, ◌/◌, ◌%◌, ◌^◌, if◌then◌else◌, take, drop}
use roris_db.Bytes.{Bytes}
use roris_db.Mysql.Packet.{
  PacketBuilder, ◌|>◌, new_packet, put_slice, put_u8, put_u16_le, put_u32_le, packet_of, has_flag,
  secure_connection, plugin_auth,
}
use roris_db.Mysql.Packet.Rows.{zeros}

pub record HandshakeV10 : Type 0 where
  server_version : Bytes
  connection_id : ℕ
  -- twenty bytes
  auth_salt : Bytes
  capability_flags : ℕ
  charset : ℕ
  status_flags : ℕ
  auth_plugin_name : Bytes

-- the salt's second part, for a secure connection
abbrev put_salt : HandshakeV10 → PacketBuilder → PacketBuilder
put_salt h pb =
    if has_flag secure_connection h.capability_flags
    then pb |> put_slice (drop 8 h.auth_salt) |> put_u8 0
    else pb

abbrev put_plugin : HandshakeV10 → PacketBuilder → PacketBuilder
put_plugin h pb =
    if has_flag plugin_auth h.capability_flags
    then pb |> put_slice h.auth_plugin_name |> put_u8 0
    else pb

unfoldable pub encode_handshake : HandshakeV10 → ℕ → Bytes
encode_handshake h seq_id =
    new_packet seq_id
    |> put_u8 10
    |> put_slice h.server_version
    |> put_u8 0
    |> put_u32_le h.connection_id
    |> put_slice (take 8 h.auth_salt)
    |> put_u8 0
    |> put_u16_le (h.capability_flags % 2 ^ 16)
    |> put_u8 h.charset
    |> put_u16_le h.status_flags
    |> put_u16_le (h.capability_flags / 2 ^ 16 % 2 ^ 16)
    |> put_u8 (if has_flag secure_connection h.capability_flags then 21 else 0)
    |> put_slice (zeros 10)
    |> put_salt h
    |> put_plugin h
    |> packet_of
