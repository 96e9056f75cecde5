-- ===== src/Maxcompute/Tunnel/Io.antt =====
-- crates/maxcompute-protocol/src/tunnel/io.rs: the records of an upload and of a download on the wire.
pub mod Write
pub mod Read
pub mod At
pub mod Stream
pub mod Fields
pub mod Records
pub mod RoundTrip
pub mod Endless
pub mod Width
use roris_db.Prelude.{ℕ, ◌+◌, ◌*◌, ◌%◌, ◌^◌, Bool, Option, List, [], ◌∷◌, ◌==◌, if◌then◌else◌}
use roris_db.Bytes.{Bytes, str, bytes_eq}
use roris_db.Maxcompute.Tunnel.Sql.{is_one_of}

abbrev pub tunnel_end_record : ℕ
tunnel_end_record = 33553408

abbrev pub tunnel_meta_count : ℕ
tunnel_meta_count = 33554430

abbrev pub tunnel_meta_checksum : ℕ
tunnel_meta_checksum = 33554431

-- What the code takes from the crates `crc32fast` and `hex` and from Rust's texts. A float is its bits.
pub record Codec : Type 0 where
  pub crc32 : Bytes → ℕ
  pub hex_decode : Bytes → Option Bytes
  pub hex_encode : Bytes → Bytes
  pub to_uppercase : Bytes → Bytes
  pub from_utf8_lossy : Bytes → Bytes
  pub parse_f32 : Bytes → Option ℕ
  pub f32_to_string : ℕ → Bytes
  pub parse_f64 : Bytes → Option ℕ
  pub f64_to_string : ℕ → Bytes

-- `WIRE_TYPE_VARINT` and its like, by their numbers
abbrev pub wire_type_varint : ℕ
wire_type_varint = 0

abbrev pub wire_type_fixed64 : ℕ
wire_type_fixed64 = 1

abbrev pub wire_type_length_delimited : ℕ
wire_type_length_delimited = 2

abbrev pub wire_type_fixed32 : ℕ
wire_type_fixed32 = 5

-- The arms of the matches on a column's type, those with the same body as one: `BIGINT` to `TINYINT`,
-- `DATETIME`, `TIMESTAMP` and `DATE` are an `integer`, texts, decimals and all other types a `text`.
pub data FieldKind : Type 0 where
  integer boolean float double binary text : FieldKind

abbrev integer_types : List Bytes
integer_types =
    str "BIGINT"
    ∷ str "INT"
    ∷ str "SMALLINT"
    ∷ str "TINYINT"
    ∷ str "DATETIME"
    ∷ str "TIMESTAMP"
    ∷ str "DATE"
    ∷ []

abbrev binary_types : List Bytes
binary_types = str "BINARY" ∷ str "BLOB" ∷ str "VARBINARY" ∷ []

unfoldable pub kind_of : Bytes → FieldKind
kind_of upper =
    if is_one_of upper integer_types
    then integer
    else if bytes_eq upper (str "BOOLEAN")
    then boolean
    else if bytes_eq upper (str "FLOAT")
    then float
    else if is_one_of upper (str "DOUBLE" ∷ str "REAL" ∷ [])
    then double
    else if is_one_of upper binary_types
    then binary
    else text
