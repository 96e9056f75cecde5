-- ===== src/Mysql/Packet.antt =====
-- crates/mysql-protocol/src/packet.rs: packet headers, the packet builder, the packets of a server,
-- and length-encoded integers read back.
pub mod Rows
pub mod Greeting
pub mod Handshake
pub mod Framing
pub mod Lenenc
use Prim.Native.String.{String}
use Prim.Native.Nat.{bit_and}
use roris_db.Prelude.{
  ℕ, zero, suc, ◌+◌, ◌*◌, ◌/◌, ◌%◌, Bool, true, false, not, Option, none, some, List, [], ◌∷◌, ◌++◌,
  length, take, ltb, leb, ◌==◌, ◌⊎◌, inl, inr, if◌then◌else◌,
}
use roris_db.Bytes.{Bytes, str}
use roris_db.Bytes.Endian.{le_bytes, from_le}
use roris_db.Mysql.Value.{encode_lenenc_int, encode_lenenc_str}

-- A packet header: the length in 3 bytes, then the sequence id. (What is left of a longer length is
-- its lowest 24 bits.)
unfoldable pub write_packet_header : ℕ → ℕ → Bytes
write_packet_header length seq_id = le_bytes 3 length ++ seq_id ∷ []

-- the length and the sequence id; `|` of bytes in different places is their sum
unfoldable pub read_packet_header : Bytes → Option (ℕ × ℕ)
read_packet_header (a ∷ b ∷ c ∷ seq_id ∷ rest) = some (from_le (a ∷ b ∷ c ∷ []), seq_id)
read_packet_header _ = none

pub record PacketBuilder : Type 0 where
  pub payload : Bytes
  pub seq_id : ℕ

-- A method on `&mut self` that returns `self`: calls are chained.
infixl 2 ◌|>◌
abbrev pub ◌|>◌ {ℓ} : {A : Type ℓ} → PacketBuilder → (PacketBuilder → A) → A
pb |> f = f pb

abbrev pub put_slice : Bytes → PacketBuilder → PacketBuilder
put_slice s pb = record pb { payload = pb.payload ++ s }

abbrev pub new_packet : ℕ → PacketBuilder
new_packet seq_id = record { payload = []; seq_id = seq_id }

abbrev pub put_u8 : ℕ → PacketBuilder → PacketBuilder
put_u8 v = put_slice (v ∷ [])

abbrev pub put_u16_le : ℕ → PacketBuilder → PacketBuilder
put_u16_le v = put_slice (le_bytes 2 v)

abbrev pub put_u32_le : ℕ → PacketBuilder → PacketBuilder
put_u32_le v = put_slice (le_bytes 4 v)

abbrev pub put_u64_le : ℕ → PacketBuilder → PacketBuilder
put_u64_le v = put_slice (le_bytes 8 v)

abbrev pub lenenc_int : ℕ → PacketBuilder → PacketBuilder
lenenc_int n = put_slice (encode_lenenc_int n)

abbrev pub lenenc_str : Bytes → PacketBuilder → PacketBuilder
lenenc_str s = put_slice (encode_lenenc_str s)

abbrev pub lenenc_bytes : Bytes → PacketBuilder → PacketBuilder
lenenc_bytes b pb = pb |> put_slice (encode_lenenc_int (length b)) |> put_slice b

-- `seq_id.wrapping_add(1)`
abbrev pub next_seq : ℕ → ℕ
next_seq seq_id = (seq_id + 1) % 256

-- the packet with its header, and the next sequence id
unfoldable pub finish : PacketBuilder → Bytes × ℕ
unfolding write_packet_header
finish pb = (write_packet_header (length pb.payload) pb.seq_id ++ pb.payload, next_seq pb.seq_id)

unfoldable pub write_to : Bytes → PacketBuilder → Bytes × ℕ
unfolding write_packet_header
write_to buf pb =
    ((buf ++ write_packet_header (length pb.payload) pb.seq_id) ++ pb.payload, next_seq pb.seq_id)

-- `let (packet, _) = pb.finish(); packet`
abbrev pub packet_of : PacketBuilder → Bytes
packet_of pb = (finish pb).0

unfoldable pub make_ok_packet : ℕ → ℕ → ℕ → ℕ → ℕ → Bytes
make_ok_packet seq_id affected_rows last_insert_id status_flags warning_count =
    new_packet seq_id
    |> put_u8 0x00
    |> lenenc_int affected_rows
    |> lenenc_int last_insert_id
    |> put_u16_le status_flags
    |> put_u16_le warning_count
    |> packet_of

-- `sql_state` is an array of five bytes.
unfoldable pub make_err_packet : ℕ → ℕ → Bytes → Bytes → Bytes
make_err_packet seq_id error_code sql_state message =
    new_packet seq_id
    |> put_u8 0xFF
    |> put_u16_le error_code
    |> put_u8 b'#'
    |> put_slice sql_state
    |> put_slice message
    |> packet_of

unfoldable pub make_general_err : ℕ → ℕ → Bytes → Bytes
unfolding make_err_packet
make_general_err seq_id error_code message = make_err_packet seq_id error_code (str "HY000") message

unfoldable pub make_eof_packet : ℕ → ℕ → ℕ → Bytes
make_eof_packet seq_id warning_count status_flags =
    new_packet seq_id
    |> put_u8 0xFE
    |> put_u16_le warning_count
    |> put_u16_le status_flags
    |> packet_of

unfoldable pub make_result_set_eof_ok_packet : ℕ → ℕ → ℕ → ℕ → ℕ → Bytes
make_result_set_eof_ok_packet seq_id affected_rows last_insert_id status_flags warning_count =
    new_packet seq_id
    |> put_u8 0xFE
    |> lenenc_int affected_rows
    |> lenenc_int last_insert_id
    |> put_u16_le status_flags
    |> put_u16_le warning_count
    |> packet_of

unfoldable pub make_stmt_prepare_ok : ℕ → ℕ → ℕ → ℕ → ℕ → Bytes
make_stmt_prepare_ok seq_id stmt_id num_columns num_params warning_count =
    new_packet seq_id
    |> put_u8 0x00
    |> put_u32_le stmt_id
    |> put_u16_le num_columns
    |> put_u16_le num_params
    |> put_u8 0x00
    |> put_u16_le warning_count
    |> packet_of

unfoldable pub make_auth_switch_request : ℕ → Bytes → Bytes → Bytes
make_auth_switch_request seq_id plugin_name plugin_data =
    new_packet seq_id
    |> put_u8 0xFE
    |> put_slice plugin_name
    |> put_u8 0
    |> put_slice plugin_data
    |> packet_of

pub record Column : Type 0 where
  pub schema : Bytes
  pub table : Bytes
  pub org_table : Bytes
  pub name : Bytes
  pub org_name : Bytes
  pub charset : ℕ
  pub column_length : ℕ
  pub column_type : ℕ
  pub flags : ℕ
  pub decimals : ℕ

-- utf8mb4
abbrev pub default_charset : ℕ
default_charset = 45

unfoldable pub new_column : Bytes → ℕ → Column
new_column name column_type = record {
  schema = str "def";
  table = [];
  org_table = [];
  name = name;
  org_name = name;
  charset = default_charset;
  column_length = 0;
  column_type = column_type;
  flags = 0;
  decimals = 0;
}

-- `Column::encode`
unfoldable pub encode_column : ℕ → Column → Bytes
encode_column seq_id c =
    new_packet seq_id
    |> lenenc_str (str "def")
    |> lenenc_str c.schema
    |> lenenc_str c.table
    |> lenenc_str c.org_table
    |> lenenc_str c.name
    |> lenenc_str c.org_name
    |> lenenc_int 0x0C
    |> put_u16_le c.charset
    |> put_u32_le c.column_length
    |> put_u8 c.column_type
    |> put_u16_le c.flags
    |> put_u8 c.decimals
    |> put_u16_le 0
    |> packet_of

-- The `Err` strings of `read_lenenc_int`, as values.
pub data LenencError : Type 0 where
  buffer_empty : LenencError
  too_short : ℕ → LenencError
  invalid_prefix : ℕ → LenencError

-- `buf[1..=n]` as a little-endian number, if it is there
abbrev lenenc_tail : ℕ → ℕ → Bytes → LenencError ⊎ (ℕ × ℕ)
lenenc_tail prefix n s =
    if ltb (length s) n then inl (too_short prefix) else inr (from_le (take n s), suc n)

-- the value, and the bytes that it takes
unfoldable pub read_lenenc_int : Bytes → LenencError ⊎ (ℕ × ℕ)
read_lenenc_int [] = inl buffer_empty
read_lenenc_int (prefix ∷ s) =
    if leb prefix 0xFA
    then inr (prefix, 1)
    else if prefix == 0xFC
    then lenenc_tail 0xFC 2 s
    else if prefix == 0xFD
    then lenenc_tail 0xFD 3 s
    else if prefix == 0xFE
    then lenenc_tail 0xFE 8 s
    else inl (invalid_prefix prefix)

-- `(flags & flag) != 0`
abbrev pub has_flag : ℕ → ℕ → Bool
has_flag flag flags = not (bit_and flags flag == 0)

abbrev pub connect_with_db : ℕ
connect_with_db = 0x00000008

abbrev pub secure_connection : ℕ
secure_connection = 0x00008000

abbrev pub plugin_auth : ℕ
plugin_auth = 0x00080000

abbrev pub plugin_auth_lenenc_client_data : ℕ
plugin_auth_lenenc_client_data = 0x00200000
