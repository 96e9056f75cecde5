-- ===== src/Maxcompute/Tunnel/Io/Records.antt =====
-- crates/maxcompute-protocol/src/tunnel/io.rs: a record, read back.
use roris_db.Prelude.{
  ℕ, zero, suc, ◌+◌, ◌%◌, ◌^◌, ◌<◌, ◌≤◌, ◌≡◌, refl, sym, ap, ◌∙◌, true, false, ◌||◌, ◌==◌, leb,
  none, some, List, [], ◌∷◌, ◌++◌, All, append_assoc, length, length-append, set, arith,
}
use roris_db.Bytes.{Bytes}
use roris_db.Bytes.Endian.{le_bytes, length-le_bytes}
use roris_db.Maxcompute.Tunnel.{TunnelColumn, TunnelSchema, all_columns, column_count, Row}
use roris_db.Maxcompute.Tunnel.Varint.{encode_varint}
use roris_db.Maxcompute.Tunnel.Io.{
  tunnel_end_record, tunnel_meta_count, tunnel_meta_checksum, Codec, FieldKind, kind_of,
}
use roris_db.Maxcompute.Tunnel.Io.Write.{
  write_field, kind_tag, kind_value, null_indices, encode_indices, closed,
}
use roris_db.Maxcompute.Tunnel.Io.Read.{
  TunnelReader, is_at_end, read_varint, read_indices, read_field, read_fields, read_record,
  read_row, nulls, mark_nulls, skip_crc,
}
use roris_db.Maxcompute.Tunnel.Io.At.{
  At, Reads, ok-Reads, At-same, At-assoc, then_read-Reads, advance-At, read_varint-Reads,
  varint_ahead,
}
use roris_db.Maxcompute.Tunnel.Io.Stream.{FitsColumns, fields_of, record_of}
use roris_db.Maxcompute.Tunnel.Io.Fields.{read_field-Reads}

skip_crc-At :
    (crc s : Bytes) (r : TunnelReader) → length crc ≡ 4 → At (crc ++ s) r → At s (skip_crc r)
unfolding At
skip_crc-At crc s r size here =
    let inside : leb (r.pos + 4) (length r.bytes) ≡ true =
      ground (arith, here.1, length-append crc s) in
    rw (inside, sym size) (advance-At crc s r here)

-- an element moved from the second list to the first
moved {ℓ} : {A : Type ℓ} (xs : List A) (x : A) (ys : List A) → xs ++ x ∷ ys ≡ (xs ++ x ∷ []) ++ ys
moved xs x ys = sym (append_assoc xs (x ∷ []) ys)

length-moved {ℓ κ} :
    {A : Type ℓ} {B : Type κ} (xs : List A) (x : A) (ys : List B) (y : B)
    → length xs ≡ length ys
    → length (xs ++ x ∷ []) ≡ length (ys ++ y ∷ [])
length-moved xs x ys y e = omega (arith, length-append xs (x ∷ []), length-append ys (y ∷ []))

field_ahead :
    (codec : Codec) (n : ℕ) (odps_type v s : Bytes) (r : TunnelReader)
    → At (write_field codec n odps_type v ++ s) r
    → is_at_end r ≡ false
unfolding write_field
field_ahead codec n odps_type v s r here =
    let kind : FieldKind = kind_of (codec.to_uppercase odps_type) in
    varint_ahead (kind_tag codec kind n) (kind_value codec kind v ++ s) r
      (At-assoc (encode_varint (kind_tag codec kind n)) (kind_value codec kind v) s r here)

module _ (codec : Codec) where
  end_of_record : Bytes → Bytes → Bytes
  end_of_record crc s = encode_varint tunnel_end_record ++ (crc ++ s)

  -- The fields of the columns behind `before` are read into the nulls behind `done`.
  read_fields-Reads :
      (fuel i : ℕ) (before columns : List TunnelColumn) (done row : Row) (crc s : Bytes)
      (r : TunnelReader)
      → i ≡ length before
      → length done ≡ length before
      → length before + length columns < 4194176
      → length columns < fuel
      → length crc ≡ 4
      → FitsColumns codec columns row
      → At (fields_of codec i columns row ++ end_of_record crc s) r
      → Reads
          (read_fields codec fuel (before ++ columns) (done ++ nulls (length columns)) r)
          (done ++ row)
          s
  unfolding read_fields fields_of end_of_record read_field
  read_fields-Reads zero i before columns done row crc s r start size few room short fits here =
      absurd (omega arith)
  read_fields-Reads (suc fuel) i before [] done [] crc s r start size few room short fits here =
      rw (varint_ahead tunnel_end_record (crc ++ s) r here) (
        then_read-Reads (read_varint r) _ tunnel_end_record (done ++ []) (crc ++ s) s
          (read_varint-Reads tunnel_end_record (crc ++ s) r (omega arith) here)
          (λ r' there.
            ok-Reads (done ++ []) (done ++ []) s (skip_crc r') refl
              (skip_crc-At crc s r' short there)))
  read_fields-Reads (suc fuel) i before [] done (val ∷ row) crc s r start size few room short fits
        here =
      absurd fits
  read_fields-Reads (suc fuel) i before (col ∷ columns) done [] crc s r start size few room short
        fits here =
      absurd fits
  read_fields-Reads (suc fuel) i before (col ∷ columns) done (none ∷ row) crc s r start size few
        room short fits here =
      rw (moved before col columns, moved done none (nulls (length columns)), moved done none row)
        (read_fields-Reads (suc fuel) (suc i) (before ++ col ∷ []) columns (done ++ none ∷ []) row
          crc s r (omega (arith, length-append before (col ∷ [])))
          (length-moved done none before col size) (omega (arith, length-append before (col ∷ [])))
          (omega arith) short fits.1 here)
  read_fields-Reads (suc fuel) i before (col ∷ columns) done (some v ∷ row) crc s r start size few
        room short fits here =
      let rest : Bytes = fields_of codec (suc i) columns row ++ end_of_record crc s in
      let field : ℕ → Bytes = λ n. write_field codec ((n + 1) % 2 ^ 32) col.odps_type v in
      let head : At (field (length before) ++ rest) r =
        At-same (field i) (field (length before)) rest r (ap field start)
          (At-assoc (field i) (fields_of codec (suc i) columns row) (end_of_record crc s) r here) in
      rw (field_ahead codec ((length before + 1) % 2 ^ 32) col.odps_type v rest r head) (
        read_field-Reads codec before col columns (read_fields codec fuel (before ++ col ∷ columns))
          done (nulls (length columns)) (done ++ some v ∷ row) v rest s r size (omega arith) fits.0
          head
          (λ r' there.
            rw
              (
                moved before col columns,
                moved done (some v) (nulls (length columns)),
                moved done (some v) row,
              )
              (read_fields-Reads fuel (suc i) (before ++ col ∷ []) columns (done ++ some v ∷ []) row
                crc s r' (omega (arith, length-append before (col ∷ [])))
                (length-moved done (some v) before col size)
                (omega (arith, length-append before (col ∷ []))) (omega arith) short fits.1 there)))

  read_indices-Reads :
      (indices : List ℕ) (s : Bytes) (r : TunnelReader)
      → All (λ i. i < 2 ^ 64) indices
      → At (encode_indices indices ++ s) r
      → Reads (read_indices (length indices) r) indices s
  unfolding read_indices
  read_indices-Reads [] s r small here = ok-Reads [] [] s r refl here
  read_indices-Reads (i ∷ indices) s r small here =
      then_read-Reads (read_varint r) _ i (i ∷ indices) (encode_indices indices ++ s) s
        (read_varint-Reads i (encode_indices indices ++ s) r small.0
          (At-assoc (encode_varint i) (encode_indices indices) s r here))
        (λ r' there.
          then_read-Reads (read_indices (length indices) r') _ indices (i ∷ indices) s s
            (read_indices-Reads indices s r' small.1 there)
            (λ r'' behind. ok-Reads (i ∷ indices) (i ∷ indices) s r'' refl behind))

  null_indices_small :
      (i : ℕ) (row : Row) → i + length row < 2 ^ 64 → All (λ j. j < 2 ^ 64) (null_indices i row)
  null_indices_small i [] h = tt
  null_indices_small i (none ∷ row) h = (omega arith, null_indices_small (suc i) row (omega arith))
  null_indices_small i (some v ∷ row) h = null_indices_small (suc i) row (omega arith)

  length-null_indices : (i : ℕ) (row : Row) → length (null_indices i row) ≤ length row
  length-null_indices i [] = omega arith
  length-null_indices i (none ∷ row) = omega (arith, length-null_indices (suc i) row)
  length-null_indices i (some v ∷ row) = omega (arith, length-null_indices (suc i) row)

  set-nulls : (n i : ℕ) → set (nulls n) i none ≡ nulls n
  set-nulls zero i = refl
  set-nulls (suc n) zero = refl
  set-nulls (suc n) (suc i) = ap (λ row. none ∷ row) (set-nulls n i)

  mark_nulls-nulls : (indices : List ℕ) (n : ℕ) → mark_nulls indices (nulls n) ≡ nulls n
  mark_nulls-nulls [] n = refl
  mark_nulls-nulls (i ∷ indices) n =
      ap (mark_nulls indices) (set-nulls n i) ∙ mark_nulls-nulls indices n

  length-FitsColumns :
      (columns : List TunnelColumn) (row : Row)
      → FitsColumns codec columns row
      → length row ≡ length columns
  length-FitsColumns [] [] fits = refl
  length-FitsColumns [] (val ∷ row) fits = absurd fits
  length-FitsColumns (col ∷ columns) [] fits = absurd fits
  length-FitsColumns (col ∷ columns) (val ∷ row) fits =
      ap suc (length-FitsColumns columns row fits.1)

  column_count_lem : (schema : TunnelSchema) → column_count schema ≡ length (all_columns schema)
  column_count_lem schema = sym (length-append schema.columns schema.partition_keys)

  end_of_record-At :
      (fields crc s : Bytes) (r : TunnelReader)
      → At (fields ++ ((encode_varint tunnel_end_record ++ crc) ++ s)) r
      → At (fields ++ end_of_record crc s) r
  unfolding end_of_record
  end_of_record-At fields crc s r here =
      rw (sym (append_assoc (encode_varint tunnel_end_record) crc s)) here

  -- A record of a row that fits the columns is read back.
  pub read_row-Reads :
      (fuel : ℕ) (schema : TunnelSchema) (row : Row) (s : Bytes) (r : TunnelReader)
      → length (all_columns schema) < 4194176
      → length (all_columns schema) < fuel
      → FitsColumns codec (all_columns schema) row
      → At (closed codec (record_of codec (all_columns schema) row) ++ s) r
      → Reads (read_row codec fuel schema r) (some row) s
  unfolding read_row read_record record_of
  read_row-Reads fuel schema row s r few room fits here =
      let columns : List TunnelColumn = all_columns schema in
      let indices : List ℕ = null_indices 0 row in
      let fields : Bytes = fields_of codec 0 columns row in
      let mark : Bytes = encode_varint tunnel_end_record in
      let crc : Bytes = le_bytes 4 (codec.crc32 (record_of codec columns row)) in
      let tail : Bytes = (mark ++ crc) ++ s in
      let behind_count : Bytes = (encode_indices indices ++ fields) ++ tail in
      let size : length row ≡ length columns = length-FitsColumns columns row fits in
      let head : At (encode_varint (length indices) ++ behind_count) r =
        At-assoc (encode_varint (length indices)) (encode_indices indices ++ fields) tail r
          (At-assoc (record_of codec columns row) (mark ++ crc) s r here) in
      let no_footer : (length indices == tunnel_meta_count
            || length indices == tunnel_meta_checksum)
          ≡ false =
        ground (arith, length-null_indices 0 row) in
      rw (varint_ahead (length indices) behind_count r head) (
        then_read-Reads (read_varint r) _ (length indices) (some row) behind_count s
          (read_varint-Reads (length indices) behind_count r
            (omega (arith, length-null_indices 0 row)) head)
          (λ r' there. rw no_footer (
            then_read-Reads (read_indices (length indices) r') _ indices (some row) (fields ++ tail)
              s
              (read_indices-Reads indices (fields ++ tail) r'
                (null_indices_small 0 row (omega arith))
                (At-assoc (encode_indices indices) fields tail r' there))
              (λ r'' behind.
                rw (mark_nulls-nulls indices (column_count schema), column_count_lem schema)
                  (then_read-Reads (read_fields codec fuel columns (nulls (length columns)) r'') _
                    row (some row) s s
                    (read_fields-Reads fuel 0 [] columns [] row crc s r'' refl refl (omega arith)
                      room (length-le_bytes 4 (codec.crc32 (record_of codec columns row))) fits
                      (end_of_record-At fields crc s r'' behind))
                    (λ last at_last. ok-Reads (some row) (some row) s last refl at_last))))))
