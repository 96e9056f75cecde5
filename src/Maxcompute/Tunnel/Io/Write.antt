-- ===== src/Maxcompute/Tunnel/Io/Write.antt =====
-- crates/maxcompute-protocol/src/tunnel/io.rs: `TunnelWriter`.
use roris_db.Prelude.{
  ℕ, suc, ◌+◌, ◌*◌, ◌%◌, ◌^◌, ◌||◌, Option, none, some, List, [], ◌∷◌, ◌++◌, length, if◌then◌else◌,
  pos,
}
use roris_db.Bytes.{Bytes, str, bytes_eq}
use roris_db.Bytes.Decimal.{parse_i64}
use roris_db.Bytes.Endian.{le_bytes}
use roris_db.Maxcompute.Tunnel.{TunnelColumn, TunnelSchema, all_columns, Row}
use roris_db.Maxcompute.Tunnel.Sql.{eq_ignore_ascii_case}
use roris_db.Maxcompute.Tunnel.Varint.{encode_varint, zigzag_encode}
use roris_db.Maxcompute.Tunnel.Io.{
  tunnel_end_record, tunnel_meta_count, tunnel_meta_checksum, Codec, wire_type_varint,
  wire_type_fixed64, wire_type_length_delimited, wire_type_fixed32, FieldKind, integer, boolean,
  float, double, binary, text, kind_of,
}

pub record TunnelWriter : Type 0 where
  pub buf : Bytes
  pub per_record_checksums : List ℕ

-- `(field_number << 3) | wire_type`, of 32 bits
abbrev pub tag : ℕ → ℕ → ℕ
tag field_number wire_type = field_number * 8 % 2 ^ 32 + wire_type

abbrev pub or_else {ℓ} : {A : Type ℓ} → A → Option A → A
or_else default none = default
or_else default (some a) = a

abbrev pub as_boolean : Bytes → ℕ
as_boolean value =
    if bytes_eq value (str "1") || eq_ignore_ascii_case value (str "true") then 1 else 0

abbrev pub with_length : Bytes → Bytes
with_length value = encode_varint (length value) ++ value

-- the indices of the nulls of a row, whose first index is given
abbrev pub null_indices : ℕ → Row → List ℕ
null_indices i [] = []
null_indices i (none ∷ row) = i ∷ null_indices (suc i) row
null_indices i (some v ∷ row) = null_indices (suc i) row

abbrev pub encode_indices : List ℕ → Bytes
encode_indices [] = []
encode_indices (i ∷ indices) = encode_varint i ++ encode_indices indices

module _ (codec : Codec) where
  -- What `write_field` puts behind the buffer for a field, by the kind of its type: first its tag,
  unfoldable pub kind_tag : FieldKind → ℕ → ℕ
  kind_tag integer field_number = tag field_number wire_type_varint
  kind_tag boolean field_number = tag field_number wire_type_varint
  kind_tag float field_number = tag field_number wire_type_fixed32
  kind_tag double field_number = tag field_number wire_type_fixed64
  kind_tag binary field_number = tag field_number wire_type_length_delimited
  kind_tag text field_number = tag field_number wire_type_length_delimited

  -- and then its value.
  unfoldable pub kind_value : FieldKind → Bytes → Bytes
  kind_value integer value = encode_varint (zigzag_encode (or_else (pos 0) (parse_i64 value)))
  kind_value boolean value = encode_varint (as_boolean value)
  kind_value float value = le_bytes 4 (or_else 0 (codec.parse_f32 value))
  kind_value double value = le_bytes 8 (or_else 0 (codec.parse_f64 value))
  kind_value binary value = with_length (or_else value (codec.hex_decode value))
  kind_value text value = with_length value

  unfoldable pub write_field : ℕ → Bytes → Bytes → Bytes
  unfolding kind_tag kind_value
  write_field field_number odps_type value =
      let kind : FieldKind = kind_of (codec.to_uppercase odps_type) in
      encode_varint (kind_tag kind field_number) ++ kind_value kind value

  -- The fields of the columns from the index on that are not null. `none` is the panic of a row that is
  -- shorter than the columns. A column's index is among the nulls where the row's value is one.
  unfoldable pub write_fields : ℕ → List TunnelColumn → Row → Option Bytes
  unfolding write_field
  write_fields col_idx [] row = some []
  write_fields col_idx (col ∷ columns) [] = none
  write_fields col_idx (col ∷ columns) (none ∷ row) = write_fields (suc col_idx) columns row
  write_fields col_idx (col ∷ columns) (some value ∷ row) =
      elim (write_fields (suc col_idx) columns row) [
        | none ↦ none
        | some fields ↦ some (write_field ((col_idx + 1) % 2 ^ 32) col.odps_type value ++ fields)
      ]

  -- the bytes of a record, of which the checksum is taken
  unfoldable pub record_bytes : Row → TunnelSchema → Option Bytes
  unfolding write_fields
  record_bytes row schema = elim (write_fields 0 (all_columns schema) row) [
    | none ↦ none
    | some fields ↦ some (
        encode_varint (length (null_indices 0 row))
        ++ (encode_indices (null_indices 0 row) ++ fields))
  ]

  -- a record with its end
  abbrev pub closed : Bytes → Bytes
  closed fields = fields ++ (encode_varint tunnel_end_record ++ le_bytes 4 (codec.crc32 fields))

  unfoldable pub write_row : Row → TunnelSchema → TunnelWriter → Option TunnelWriter
  unfolding record_bytes
  write_row row schema w = elim (record_bytes row schema) [
    | none ↦ none
    | some fields ↦ some (record {
      buf = w.buf ++ closed fields;
      per_record_checksums = w.per_record_checksums ++ codec.crc32 fields ∷ [];
    })
  ]

  abbrev pub checksum_bytes : List ℕ → Bytes
  checksum_bytes [] = []
  checksum_bytes (crc ∷ checksums) = le_bytes 4 crc ++ checksum_bytes checksums

  abbrev pub overall_crc : List ℕ → ℕ
  overall_crc checksums = codec.crc32 (checksum_bytes checksums)

  abbrev pub footer : List ℕ → Bytes
  footer checksums =
      encode_varint tunnel_meta_count
      ++ (encode_varint (length checksums)
          ++ (encode_varint tunnel_meta_checksum ++ le_bytes 4 (overall_crc checksums)))

  unfoldable pub write_footer : TunnelWriter → TunnelWriter
  write_footer w = record w { buf = w.buf ++ footer w.per_record_checksums }

  unfoldable pub write_rows : List Row → TunnelSchema → TunnelWriter → Option TunnelWriter
  unfolding write_row
  write_rows [] schema w = some w
  write_rows (row ∷ rows) schema w = elim (write_row row schema w) [
    | none ↦ none
    | some w' ↦ write_rows rows schema w'
  ]

  unfoldable pub finish : List Row → TunnelSchema → TunnelWriter → Option Bytes
  unfolding write_rows write_footer
  finish rows schema w = elim (write_rows rows schema w) [
    | none ↦ none
    | some w' ↦ some (write_footer w').buf
  ]

abbrev pub new : TunnelWriter
new = record { buf = []; per_record_checksums = [] }
