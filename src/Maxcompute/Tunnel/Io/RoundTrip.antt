-- ===== src/Maxcompute/Tunnel/Io/RoundTrip.antt =====
-- crates/maxcompute-protocol/src/tunnel/io.rs: a stream of records and its footer, read back.
use roris_db.Prelude.{
  ℕ, zero, suc, ◌+◌, ◌^◌, ◌<◌, ◌≤◌, ◌≡◌, refl, sym, ap, ◌∙◌, true, false, leb, none, some, List, [],
  ◌∷◌, ◌++◌, All, append_assoc, append-nil, length, length-append, take, arith,
}
use roris_db.Bytes.{Bytes}
use roris_db.Bytes.Endian.{le_bytes, from_le, length-le_bytes, from_le-le_bytes}
use roris_db.Maxcompute.Tunnel.{TunnelColumn, TunnelSchema, all_columns, Row}
use roris_db.Maxcompute.Tunnel.Varint.{encode_varint}
use roris_db.Maxcompute.Tunnel.Io.{
  tunnel_end_record, tunnel_meta_count, tunnel_meta_checksum, Codec,
}
use roris_db.Maxcompute.Tunnel.Io.Write.{new, finish, closed, footer, overall_crc}
use roris_db.Maxcompute.Tunnel.Io.Read.{
  TunnelReader, ok, then_read, remaining, is_at_end, read_varint, read_row, read_rows, read_count,
  read_checksum, read_footer, read_all,
}
use roris_db.Maxcompute.Tunnel.Io.At.{
  At, Reads, ok-Reads, then_read-Reads, read_varint-Reads, varint_ahead, encode_varint-length,
}
use roris_db.Maxcompute.Tunnel.Io.Stream.{
  FitsColumns, record_of, stream, record_checksums, finish-stream,
}
use roris_db.Maxcompute.Tunnel.Io.Records.{read_row-Reads}

-- the checksum that stands at the end of the bytes
last_crc-At :
    (crc : ℕ) (r : TunnelReader)
    → crc < 2 ^ 32
    → At (le_bytes 4 crc) r
    → (leb (r.pos + 4) (length r.bytes) ≡ true) × (from_le (take 4 (remaining r)) ≡ crc)
unfolding At
last_crc-At crc r small here = (
  ground (arith, here.1, length-le_bytes 4 crc),
  ap (λ s. from_le (take 4 s)) here.0 ∙ from_le-le_bytes 4 crc (omega arith),
)

read_checksum_lem :
    (crc : ℕ) (r : TunnelReader)
    → crc < 2 ^ 32
    → At (encode_varint tunnel_meta_checksum ++ le_bytes 4 crc) r
    → read_checksum r ≡ some (some crc)
unfolding read_checksum Reads At
read_checksum_lem crc r small here =
    let (r', e, there) =
      read_varint-Reads tunnel_meta_checksum (le_bytes 4 crc) r (omega arith) here in
    let (inside, value) = last_crc-At crc r' small there in
    let room : leb (r.pos + 4 + 1) (length r.bytes) ≡ true = ground (
      arith,
      here.1,
      length-append (encode_varint tunnel_meta_checksum) (le_bytes 4 crc),
      encode_varint-length tunnel_meta_checksum,
      length-le_bytes 4 crc,
    ) in
    rw (room, e, inside, value) refl

read_count_lem :
    (count : ℕ) (r r' : TunnelReader)
    → read_varint r ≡ ok count r'
    → read_count tunnel_meta_count r ≡ (some count, r')
unfolding read_count
read_count_lem count r r' e = rw (e, read_count) refl

footer_of :
    (count crc : ℕ) (r r' r'' : TunnelReader)
    → is_at_end r ≡ false
    → read_varint r ≡ ok tunnel_meta_count r'
    → read_varint r' ≡ ok count r''
    → read_checksum r'' ≡ some (some crc)
    → read_footer r ≡ some (some count, some crc)
unfolding read_footer
footer_of count crc r r' r'' inside tag counted summed =
    rw (inside, tag, read_count_lem count r' r'' counted, summed)
      (ap (λ p. some (p.0, some crc)) (read_count_lem count r' r'' counted))

module _ (codec : Codec) where
  read_footer_lem :
      (checksums : List ℕ) (r : TunnelReader)
      → length checksums < 2 ^ 64
      → overall_crc codec checksums < 2 ^ 32
      → At (footer codec checksums) r
      → read_footer r ≡ some (some (length checksums), some (overall_crc codec checksums))
  unfolding Reads
  read_footer_lem checksums r few small here =
      let checksum : Bytes =
        encode_varint tunnel_meta_checksum ++ le_bytes 4 (overall_crc codec checksums) in
      let count : Bytes = encode_varint (length checksums) in
      let (r', e, there) =
        read_varint-Reads tunnel_meta_count (count ++ checksum) r (omega arith) here in
      let (r'', e', behind) = read_varint-Reads (length checksums) checksum r' few there in
      footer_of (length checksums) (overall_crc codec checksums) r r' r''
        (varint_ahead tunnel_meta_count (count ++ checksum) r here) e e'
        (read_checksum_lem (overall_crc codec checksums) r'' small behind)

  no_row-Reads :
      (fuel : ℕ) (schema : TunnelSchema) (checksums : List ℕ) (r : TunnelReader)
      → At (footer codec checksums) r
      → Reads (read_row codec fuel schema r) none (footer codec checksums)
  unfolding read_row
  no_row-Reads fuel schema checksums r here =
      let rest : Bytes =
        encode_varint (length checksums)
        ++ (encode_varint tunnel_meta_checksum ++ le_bytes 4 (overall_crc codec checksums)) in
      rw (varint_ahead tunnel_meta_count rest r here) (
        then_read-Reads (read_varint r) _ tunnel_meta_count none rest (footer codec checksums)
          (read_varint-Reads tunnel_meta_count rest r (omega arith) here)
          (λ r' there. ok-Reads none none (footer codec checksums) r refl here))

  pub read_rows-Reads :
      (rounds fuel : ℕ) (schema : TunnelSchema) (rows : List Row) (checksums : List ℕ)
      (r : TunnelReader)
      → length (all_columns schema) < 4194176
      → length (all_columns schema) < fuel
      → length rows < rounds
      → All (FitsColumns codec (all_columns schema)) rows
      → At (stream codec (all_columns schema) rows checksums) r
      → Reads
          (read_rows codec rounds fuel schema r)
          rows
          (footer codec (checksums ++ record_checksums codec (all_columns schema) rows))
  unfolding read_rows stream record_checksums
  read_rows-Reads zero fuel schema rows checksums r few room more fits here = absurd (omega arith)
  read_rows-Reads (suc rounds) fuel schema [] checksums r few room more fits here =
      rw (append-nil checksums) (
        then_read-Reads (read_row codec fuel schema r) _ none [] (footer codec checksums)
          (footer codec checksums) (no_row-Reads fuel schema checksums r here)
          (λ r' there. ok-Reads [] [] (footer codec checksums) r' refl there))
  read_rows-Reads (suc rounds) fuel schema (row ∷ rows) checksums r few room more fits here =
      let columns : List TunnelColumn = all_columns schema in
      let crc : ℕ = codec.crc32 (record_of codec columns row) in
      let rest : Bytes = stream codec columns rows (checksums ++ crc ∷ []) in
      then_read-Reads (read_row codec fuel schema r) _ (some row) (row ∷ rows) rest
        (footer codec (checksums ++ crc ∷ record_checksums codec columns rows))
        (read_row-Reads codec fuel schema row rest r few room fits.0 here)
        (λ r' there.
          then_read-Reads (read_rows codec rounds fuel schema r') _ rows (row ∷ rows)
            (footer codec ((checksums ++ crc ∷ []) ++ record_checksums codec columns rows))
            (footer codec (checksums ++ crc ∷ record_checksums codec columns rows))
            (read_rows-Reads rounds fuel schema rows (checksums ++ crc ∷ []) r' few room
              (omega arith) fits.1 there)
            (λ r'' behind.
              ok-Reads (row ∷ rows) (row ∷ rows)
                (footer codec (checksums ++ crc ∷ record_checksums codec columns rows)) r'' refl
                (rw (sym (append_assoc checksums (crc ∷ []) (record_checksums codec columns rows)))
                  behind)))

  length-record_checksums :
      (columns : List TunnelColumn) (rows : List Row)
      → length (record_checksums codec columns rows) ≡ length rows
  unfolding record_checksums
  length-record_checksums columns [] = refl
  length-record_checksums columns (row ∷ rows) = ap suc (length-record_checksums columns rows)

  -- a record takes bytes
  rows_in_stream :
      (columns : List TunnelColumn) (rows : List Row) (checksums : List ℕ)
      → length rows ≤ length (stream codec columns rows checksums)
  unfolding stream
  rows_in_stream columns [] checksums = omega arith
  rows_in_stream columns (row ∷ rows) checksums =
      let whole : Bytes = record_of codec columns row in
      let last : Bytes = le_bytes 4 (codec.crc32 whole) in
      let mark : Bytes = encode_varint tunnel_end_record in
      let rest : Bytes = stream codec columns rows (checksums ++ codec.crc32 whole ∷ []) in
      omega (
        arith,
        length-append (closed codec whole) rest,
        length-append whole (mark ++ last),
        length-append mark last,
        encode_varint-length tunnel_end_record,
        rows_in_stream columns rows (checksums ++ codec.crc32 whole ∷ []),
      )

  pub start-At : (s : Bytes) → length s < 2 ^ 64 → At s (record { bytes = s; pos = 0 })
  unfolding At
  start-At s short = (refl, omega arith, short)

  all_of :
      (fuel : ℕ) (schema : TunnelSchema) (r r' : TunnelReader) (rows : List Row) (count crc : ℕ)
      → read_rows codec fuel fuel schema r ≡ ok rows r'
      → read_footer r' ≡ some (some count, some crc)
      → read_all codec fuel schema r ≡ ok (rows, (some count, some crc)) r'
  unfolding read_all
  all_of fuel schema r r' rows count crc e f = rw (e, read_all, then_read, f) refl

  -- Rows that fit their columns, with values as their types print them, are written without a panic, and
  -- reading what is written gives the rows back, with their number and the checksum of the footer. The
  -- columns are fewer than 4194176, the checksums are numbers of 32 bits, the stream is shorter than 2^64
  -- bytes, and the fuel is more than the columns and more than the rows.
  pub read_all-finish :
      (fuel : ℕ) (schema : TunnelSchema) (rows : List Row)
      → ((s : Bytes) → codec.crc32 s < 2 ^ 32)
      → length (all_columns schema) < 4194176
      → length (all_columns schema) < fuel
      → length rows < fuel
      → All (FitsColumns codec (all_columns schema)) rows
      → length (stream codec (all_columns schema) rows []) < 2 ^ 64
      → (bytes : Bytes) × (finish codec rows schema new ≡ some bytes)
        × (r : TunnelReader) × (read_all codec fuel schema (record { bytes = bytes; pos = 0 })
            ≡ ok
                (
                  rows,
                  (
                    some (length rows),
                    some (overall_crc codec (record_checksums codec (all_columns schema) rows)),
                  ),
                )
                r)
  unfolding Reads
  read_all-finish fuel schema rows crc_small few room more fits short =
      let columns : List TunnelColumn = all_columns schema in
      let bytes : Bytes = stream codec columns rows [] in
      let checksums : List ℕ = record_checksums codec columns rows in
      let (r, e, there) =
        read_rows-Reads fuel fuel schema rows [] (record { bytes = bytes; pos = 0 }) few room more
          fits (start-At bytes short) in
      let size : length checksums ≡ length rows = length-record_checksums columns rows in
      let counted : length checksums < 2 ^ 64 = omega (arith, rows_in_stream columns rows []) in
      (
        bytes,
        finish-stream codec rows schema fits,
        r,
        all_of fuel schema (record { bytes = bytes; pos = 0 }) r rows (length rows)
            (overall_crc codec checksums) e
            (read_footer_lem checksums r counted (crc_small _) there
              ∙ ap (λ n. some (some n, some (overall_crc codec checksums))) size),
      )
