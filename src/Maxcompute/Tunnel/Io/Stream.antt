-- ===== src/Maxcompute/Tunnel/Io/Stream.antt =====
-- crates/maxcompute-protocol/src/tunnel/io.rs: the stream that `TunnelWriter` makes of rows that fit their
-- columns, in one piece.
use roris_db.Prelude.{
  ℕ, suc, ◌+◌, ◌%◌, ◌^◌, ◌<◌, ◌≡◌, refl, ap, ◌∙◌, ◌⊎◌, Option, none, some, List, [], ◌∷◌, ◌++◌,
  append_assoc, All, length, ℤ, IsI64,
}
use roris_db.Bytes.{Bytes, str}
use roris_db.Bytes.Decimal.{int_to_string}
use roris_db.Maxcompute.Tunnel.{TunnelColumn, TunnelSchema, all_columns, Row}
use roris_db.Maxcompute.Tunnel.Varint.{encode_varint}
use roris_db.Maxcompute.Tunnel.Io.{
  Codec, FieldKind, integer, boolean, float, double, binary, text, kind_of,
}
use roris_db.Maxcompute.Tunnel.Io.Write.{
  TunnelWriter, new, write_field, write_fields, record_bytes, write_row, write_footer, write_rows,
  finish, null_indices, encode_indices, closed, footer,
}

module _ (codec : Codec) where
  -- The value is a text that its type prints: a number of the type's range, a text that decoding leaves as
  -- it is, or the text of some bytes.
  abbrev pub IsCanonical : FieldKind → Bytes → Type 0
  IsCanonical integer v = (a : ℤ) × IsI64 a × (v ≡ int_to_string a)
  IsCanonical boolean v = (v ≡ str "0") ⊎ (v ≡ str "1")
  IsCanonical float v =
      (bits : ℕ) × (bits < 2 ^ 32)
      × (codec.parse_f32 v ≡ some bits)
      × (codec.f32_to_string bits ≡ v)
  IsCanonical double v =
      (bits : ℕ) × (bits < 2 ^ 64)
      × (codec.parse_f64 v ≡ some bits)
      × (codec.f64_to_string bits ≡ v)
  IsCanonical binary v = (s : Bytes) × (codec.hex_decode v ≡ some s) × (codec.hex_encode s ≡ v)
  IsCanonical text v = codec.from_utf8_lossy v ≡ v

  abbrev pub IsColumnValue : TunnelColumn → Option Bytes → Type 0
  IsColumnValue col none = Unit
  IsColumnValue col (some v) = IsCanonical (kind_of (codec.to_uppercase col.odps_type)) v

  -- The row has a value for each column, and no more.
  abbrev pub FitsColumns : List TunnelColumn → Row → Type 0
  FitsColumns [] [] = Unit
  FitsColumns [] (val ∷ row) = ⊥
  FitsColumns (col ∷ columns) [] = ⊥
  FitsColumns (col ∷ columns) (val ∷ row) = IsColumnValue col val × FitsColumns columns row

  -- the fields of the columns from an index on
  unfoldable pub fields_of : ℕ → List TunnelColumn → Row → Bytes
  unfolding write_field
  fields_of i [] row = []
  fields_of i (col ∷ columns) [] = []
  fields_of i (col ∷ columns) (none ∷ row) = fields_of (suc i) columns row
  fields_of i (col ∷ columns) (some v ∷ row) =
      write_field codec ((i + 1) % 2 ^ 32) col.odps_type v ++ fields_of (suc i) columns row

  unfoldable pub record_of : List TunnelColumn → Row → Bytes
  unfolding fields_of
  record_of columns row =
      encode_varint (length (null_indices 0 row))
      ++ (encode_indices (null_indices 0 row) ++ fields_of 0 columns row)

  -- the records, and the footer with the checksums of those before them and their own
  unfoldable pub stream : List TunnelColumn → List Row → List ℕ → Bytes
  unfolding record_of
  stream columns [] checksums = footer codec checksums
  stream columns (row ∷ rows) checksums =
      closed codec (record_of columns row)
      ++ stream columns rows (checksums ++ codec.crc32 (record_of columns row) ∷ [])

  -- the checksums of the records
  unfoldable pub record_checksums : List TunnelColumn → List Row → List ℕ
  unfolding record_of
  record_checksums columns [] = []
  record_checksums columns (row ∷ rows) =
      codec.crc32 (record_of columns row) ∷ record_checksums columns rows

  write_fields_lem :
      (i : ℕ) (columns : List TunnelColumn) (row : Row)
      → FitsColumns columns row
      → write_fields codec i columns row ≡ some (fields_of i columns row)
  unfolding write_fields fields_of
  write_fields_lem i [] row fits = refl
  write_fields_lem i (col ∷ columns) [] fits = absurd fits
  write_fields_lem i (col ∷ columns) (none ∷ row) fits = write_fields_lem (suc i) columns row fits.1
  write_fields_lem i (col ∷ columns) (some v ∷ row) fits =
      rw (write_fields_lem (suc i) columns row fits.1) refl

  write_row_lem :
      (row : Row) (schema : TunnelSchema) (w : TunnelWriter)
      → FitsColumns (all_columns schema) row
      → write_row codec row schema w
        ≡ some (record {
          buf = w.buf ++ closed codec (record_of (all_columns schema) row);
          per_record_checksums =
              w.per_record_checksums ++ codec.crc32 (record_of (all_columns schema) row) ∷ [];
        })
  unfolding write_row record_bytes record_of
  write_row_lem row schema w fits =
      rw (write_fields_lem 0 (all_columns schema) row fits, write_row, record_bytes) refl

  finish_from :
      (rows : List Row) (schema : TunnelSchema) (w : TunnelWriter)
      → All (FitsColumns (all_columns schema)) rows
      → finish codec rows schema w
        ≡ some (w.buf ++ stream (all_columns schema) rows w.per_record_checksums)
  unfolding finish write_rows write_footer stream
  finish_from [] schema w fits = refl
  finish_from (row ∷ rows) schema w fits =
      let whole : Bytes = record_of (all_columns schema) row in
      let w' : TunnelWriter = record {
        buf = w.buf ++ closed codec whole;
        per_record_checksums = w.per_record_checksums ++ codec.crc32 whole ∷ [];
      } in
      rw (write_row_lem row schema w fits.0, finish, write_rows)
        (finish_from rows schema w' fits.1
          ∙ ap some (
              append_assoc w.buf (closed codec whole)
                (stream (all_columns schema) rows w'.per_record_checksums)))

  pub finish-stream :
      (rows : List Row) (schema : TunnelSchema)
      → All (FitsColumns (all_columns schema)) rows
      → finish codec rows schema new ≡ some (stream (all_columns schema) rows [])
  finish-stream rows schema fits = finish_from rows schema new fits
