-- ===== src/Mysql/Packet/Rows.antt =====
-- crates/mysql-protocol/src/packet.rs: the rows of result sets, in the text protocol and in the binary
-- one, each built apart and built into a buffer.
pub mod Into
use Prim.Native.Nat.{bit_or, max}
use roris_db.Prelude.{
  ℕ, zero, suc, ◌+◌, ◌-◌, ◌*◌, ◌/◌, ◌%◌, ◌^◌, Bool, true, false, Option, none, some, List, [], ◌∷◌,
  ◌++◌, length, set, get_elem?, take, drop, ◌==◌, if◌then◌else◌, ℤ, pos, negsuc,
}
use roris_db.Bytes.{Bytes}
use roris_db.Bytes.Endian.{le_bytes}
use roris_db.Mysql.Value.{
  encode_lenenc_int, encode_lenenc_string, encode_null, sign_flag, year_month_day,
}
use roris_db.Mysql.Packet.{
  PacketBuilder, new_packet, put_u8, put_u16_le, put_u32_le, put_u64_le, put_slice, lenenc_bytes,
  packet_of, next_seq, ◌|>◌,
}

-- the loop over the values, on the builder
unfoldable pub put_text_values : List (Option Bytes) → PacketBuilder → PacketBuilder
put_text_values [] pb = pb
put_text_values (some s ∷ values) pb = put_text_values values (lenenc_bytes s pb)
put_text_values (none ∷ values) pb = put_text_values values (put_u8 0xFB pb)

unfoldable pub encode_text_row : ℕ → List (Option Bytes) → Bytes
unfolding put_text_values
encode_text_row seq_id values = packet_of (put_text_values values (new_packet seq_id))

-- the same loop, on the buffer
unfoldable pub extend_text_values : List (Option Bytes) → Bytes → Bytes
extend_text_values [] buf = buf
extend_text_values (some s ∷ values) buf =
    extend_text_values values ((buf ++ encode_lenenc_int (length s)) ++ s)
extend_text_values (none ∷ values) buf = extend_text_values values (buf ++ encode_null)

-- The length of what stands behind the four bytes at `packet_start`, written into the first three of
-- them.
unfoldable pub fill_header : ℕ → Bytes → Bytes
fill_header packet_start buf =
    let payload_len : ℕ = length buf - packet_start - 4 in
    set
      (set (set buf packet_start (payload_len % 256)) (packet_start + 1) (payload_len / 256 % 256))
      (packet_start + 2) (payload_len / 65536 % 256)

-- `encode_text_row_into` and `encode_text_row_strings_into`: the buffer, and the next sequence id
unfoldable pub encode_text_row_into : ℕ → List (Option Bytes) → Bytes → Bytes × ℕ
unfolding extend_text_values fill_header
encode_text_row_into seq_id values buf = (
  fill_header (length buf) (extend_text_values values (buf ++ 0 ∷ 0 ∷ 0 ∷ seq_id ∷ [])),
  next_seq seq_id,
)

-- Signed numbers stand by their two's complement, floats by their bits.
pub data BinaryValue : Type 0 where
  int8 uint8 int16 uint16 int32 uint32 int64 uint64 float double : ℕ → BinaryValue
  string : Bytes → BinaryValue
  date : ℕ → ℕ → ℕ → BinaryValue
  datetime : ℕ → ℕ → ℕ → ℕ → ℕ → ℕ → ℕ → BinaryValue
  time : Bool → ℕ → ℕ → ℕ → ℕ → ℕ → BinaryValue

-- year, month and day
abbrev put_date : ℕ → ℕ → ℕ → PacketBuilder → PacketBuilder
put_date year month day pb = pb |> put_u16_le year |> put_u8 month |> put_u8 day

abbrev put_clock : ℕ → ℕ → ℕ → PacketBuilder → PacketBuilder
put_clock hour minute second pb = pb |> put_u8 hour |> put_u8 minute |> put_u8 second

-- `encode_binary_value`
unfoldable pub put_binary_value : BinaryValue → PacketBuilder → PacketBuilder
put_binary_value (int8 n) pb = put_u8 (n % 256) pb
put_binary_value (uint8 n) pb = put_u8 n pb
put_binary_value (int16 n) pb = put_u16_le n pb
put_binary_value (uint16 n) pb = put_u16_le n pb
put_binary_value (int32 n) pb = put_u32_le n pb
put_binary_value (uint32 n) pb = put_u32_le n pb
put_binary_value (int64 n) pb = put_u64_le n pb
put_binary_value (uint64 n) pb = put_u64_le n pb
put_binary_value (float n) pb = put_slice (le_bytes 4 n) pb
put_binary_value (double n) pb = put_slice (le_bytes 8 n) pb
put_binary_value (string s) pb = lenenc_bytes s pb
put_binary_value (date year month day) pb = pb |> put_u8 4 |> put_date year month day
put_binary_value (datetime year month day hour minute second micros) pb =
    if micros == 0
    then pb |> put_u8 7 |> put_date year month day |> put_clock hour minute second
    else pb
      |> put_u8 11
      |> put_date year month day
      |> put_clock hour minute second
      |> put_u32_le micros
put_binary_value (time is_neg days hours minutes seconds micros) pb =
    if micros == 0
    then pb
      |> put_u8 8
      |> put_u8 (sign_flag is_neg)
      |> put_u32_le days
      |> put_clock hours minutes seconds
    else (pb
        |> put_u8 12
        |> put_u8 (sign_flag is_neg)
        |> put_u32_le days
        |> put_clock hours minutes seconds
        |> put_u32_le micros)

-- `encode_binary_value_into`: the same bytes, behind the buffer
unfoldable pub extend_binary_value : BinaryValue → Bytes → Bytes
extend_binary_value (int8 n) buf = buf ++ (n % 256) ∷ []
extend_binary_value (uint8 n) buf = buf ++ n ∷ []
extend_binary_value (int16 n) buf = buf ++ le_bytes 2 n
extend_binary_value (uint16 n) buf = buf ++ le_bytes 2 n
extend_binary_value (int32 n) buf = buf ++ le_bytes 4 n
extend_binary_value (uint32 n) buf = buf ++ le_bytes 4 n
extend_binary_value (int64 n) buf = buf ++ le_bytes 8 n
extend_binary_value (uint64 n) buf = buf ++ le_bytes 8 n
extend_binary_value (float n) buf = buf ++ le_bytes 4 n
extend_binary_value (double n) buf = buf ++ le_bytes 8 n
extend_binary_value (string s) buf = (buf ++ encode_lenenc_int (length s)) ++ s
extend_binary_value (date year month day) buf = buf ++ 4 ∷ year_month_day year month day
extend_binary_value (datetime year month day hour minute second micros) buf =
    if micros == 0
    then (buf ++ 7 ∷ year_month_day year month day) ++ hour ∷ minute ∷ second ∷ []
    else ((buf ++ 11 ∷ year_month_day year month day) ++ hour ∷ minute ∷ second ∷ [])
      ++ le_bytes 4 micros
extend_binary_value (time is_neg days hours minutes seconds micros) buf =
    if micros == 0
    then (buf ++ 8 ∷ sign_flag is_neg ∷ le_bytes 4 days) ++ hours ∷ minutes ∷ seconds ∷ []
    else ((buf ++ 12 ∷ sign_flag is_neg ∷ le_bytes 4 days) ++ hours ∷ minutes ∷ seconds ∷ [])
      ++ le_bytes 4 micros

abbrev pub zeros : ℕ → Bytes
zeros zero = []
zeros (suc n) = 0 ∷ zeros n

abbrev pub null_bitmap_size : ℕ → ℕ
null_bitmap_size num_columns = max ((num_columns + 9) / 8) 1

-- The bit of a NULL in column `i`, in the bitmap at `start`; `none` is the panic of an index out of
-- bounds.
unfoldable pub mark_nulls : ℕ → List (Option BinaryValue) → ℕ → Bytes → Option Bytes
mark_nulls start [] i buf = some buf
mark_nulls start (some v ∷ values) i buf = mark_nulls start values (i + 1) buf
mark_nulls start (none ∷ values) i buf = elim (get_elem? buf (start + (i + 2) / 8)) [
  | none ↦ none
  | some w ↦
      mark_nulls start values (i + 1) (set buf (start + (i + 2) / 8) (bit_or w (2 ^ ((i + 2) % 8))))
]

unfoldable pub put_binary_values : List (Option BinaryValue) → PacketBuilder → PacketBuilder
unfolding put_binary_value
put_binary_values [] pb = pb
put_binary_values (some v ∷ values) pb = put_binary_values values (put_binary_value v pb)
put_binary_values (none ∷ values) pb = put_binary_values values pb

unfoldable pub encode_binary_row : ℕ → List (Option BinaryValue) → ℕ → Option Bytes
unfolding mark_nulls put_binary_values
encode_binary_row seq_id values num_columns =
    elim (mark_nulls 0 values 0 (zeros (null_bitmap_size num_columns))) [
      | none ↦ none
      | some null_bitmap ↦ some (
          new_packet seq_id
          |> put_u8 0x00
          |> put_slice null_bitmap
          |> put_binary_values values
          |> packet_of)
    ]

unfoldable pub extend_binary_values : List (Option BinaryValue) → Bytes → Bytes
unfolding extend_binary_value
extend_binary_values [] buf = buf
extend_binary_values (some v ∷ values) buf = extend_binary_values values (extend_binary_value v buf)
extend_binary_values (none ∷ values) buf = extend_binary_values values buf

unfoldable pub encode_binary_row_into :
    ℕ → List (Option BinaryValue) → ℕ → Bytes → Option (Bytes × ℕ)
unfolding mark_nulls extend_binary_values fill_header
encode_binary_row_into seq_id values num_columns buf =
    let start : Bytes = buf ++ 0 ∷ 0 ∷ 0 ∷ seq_id ∷ 0x00 ∷ [] in
    elim (mark_nulls (length start) values 0 (start ++ zeros (null_bitmap_size num_columns))) [
      | none ↦ none
      | some marked ↦
          some (fill_header (length buf) (extend_binary_values values marked), next_seq seq_id)
    ]
