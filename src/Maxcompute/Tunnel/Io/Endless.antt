-- ===== src/Maxcompute/Tunnel/Io/Endless.antt =====
-- crates/maxcompute-protocol/src/tunnel/io.rs: a stream that the reader never comes to the end of.
use roris_db.Prelude.{
  ℕ, zero, suc, ◌≡◌, refl, ap, ◌∙◌, false, ◌||◌, none, some, ltb, ◌==◌, if◌then◌else◌, List, ◌∷◌,
  length, arith,
}
use roris_db.Bytes.{Bytes}
use roris_db.Maxcompute.Tunnel.{TunnelColumn, TunnelSchema, all_columns, column_count, Row}
use roris_db.Maxcompute.Tunnel.Varint.{decode_varint}
use roris_db.Maxcompute.Tunnel.Io.{tunnel_meta_count, tunnel_meta_checksum, Codec}
use roris_db.Maxcompute.Tunnel.Io.Read.{
  TunnelReader, ok, unfinished, then_read, is_at_end, read_varint, skip_field, read_field,
  read_fields, read_record, read_row, read_rows, read_all, nulls,
}

-- No nulls, and a field of no column with a length that leads back to its own tag.
abbrev pub endless : Bytes → Bytes
endless s = 0 ∷ 2 ∷ 245 ∷ 255 ∷ 255 ∷ 255 ∷ 255 ∷ 255 ∷ 255 ∷ 255 ∷ 255 ∷ 1 ∷ s

abbrev at_position : ℕ → Bytes → TunnelReader
at_position pos s = record { bytes = endless s; pos = pos }

read_zero : (s : Bytes) → read_varint (at_position 0 s) ≡ ok 0 (at_position 1 s)
unfolding read_varint decode_varint
read_zero s = refl

read_tag : (s : Bytes) → read_varint (at_position 1 s) ≡ ok 2 (at_position 2 s)
unfolding read_varint decode_varint
read_tag s = refl

read_length :
    (s : Bytes) → read_varint (at_position 2 s) ≡ ok 18446744073709551605 (at_position 12 s)
unfolding read_varint decode_varint
read_length s = refl

skip_back : (s : Bytes) → skip_field 2 (at_position 2 s) ≡ ok tt (at_position 1 s)
unfolding skip_field
skip_back s =
    let inside : ltb (length (endless s)) 1 ≡ false = ground arith in
    rw (read_length s, skip_field, then_read, inside) refl

not_at_end : (s : Bytes) → is_at_end (at_position 1 s) ≡ false
not_at_end s = ground arith

module _ (codec : Codec) where
  read_fields_endless :
      (fuel : ℕ) (columns : List TunnelColumn) (row : Row) (s : Bytes)
      → read_fields codec fuel columns row (at_position 1 s) ≡ unfinished
  unfolding read_fields read_field then_read
  read_fields_endless zero columns row s = refl
  read_fields_endless (suc fuel) columns row s = rw (not_at_end s) (
      ap (λ p. then_read p (read_field codec columns (read_fields codec fuel columns) row))
        (read_tag s)
      ∙ ap (λ p. then_read p (λ _ r. read_fields codec fuel columns row r)) (skip_back s)
      ∙ read_fields_endless fuel columns row s)

  read_row_endless :
      (fuel : ℕ) (schema : TunnelSchema) (s : Bytes)
      → read_row codec fuel schema (at_position 0 s) ≡ unfinished
  unfolding read_row read_record then_read
  read_row_endless fuel schema s =
      let start : is_at_end (at_position 0 s) ≡ false = ground arith in
      rw start (
        ap
          (λ p. then_read p (λ tag r.
            if tag == tunnel_meta_count || tag == tunnel_meta_checksum
            then ok none (at_position 0 s)
            else read_record codec fuel schema tag r))
          (read_zero s)
        ∙ ap (λ p. then_read p (λ row r. ok (some row) r))
            (read_fields_endless fuel (all_columns schema) (nulls (column_count schema)) s))

  read_rows_endless :
      (rounds fuel : ℕ) (schema : TunnelSchema) (s : Bytes)
      → read_rows codec rounds fuel schema (at_position 0 s) ≡ unfinished
  unfolding read_rows then_read
  read_rows_endless zero fuel schema s = refl
  read_rows_endless (suc rounds) fuel schema s = rw (read_row_endless fuel schema s) refl

  -- An upload of these twelve bytes, whatever follows them, keeps the reader busy for ever: no fuel is
  -- enough. The field's length wraps the position around to the field's own tag.
  pub read_all-endless :
      (fuel : ℕ) (schema : TunnelSchema) (s : Bytes)
      → read_all codec fuel schema (record { bytes = endless s; pos = 0 }) ≡ unfinished
  unfolding read_all then_read
  read_all-endless fuel schema s = rw (read_rows_endless fuel fuel schema s) refl
