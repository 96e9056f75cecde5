-- ===== src/Maxcompute/Tests/Io.antt =====
-- The theorems about the tunnel's records at two rows, with stand-ins for the codec.
use roris_db.Prelude.{◌%◌, ◌^◌, ◌≡◌, refl, some, List, [], ◌∷◌, All, length, pos, arith}
use roris_db.Bytes.{Bytes, str, bytes_eq}
use roris_db.Bytes.Decimal.{int_to_string, parse_i64}
use roris_db.Maxcompute.Tunnel.{all_columns, Row}
use roris_db.Maxcompute.Tunnel.Varint.{encode_varint}
use roris_db.Maxcompute.Tunnel.Io.{Codec, kind_of}
use roris_db.Maxcompute.Tunnel.Io.Write.{new, finish, overall_crc}
use roris_db.Maxcompute.Tunnel.Io.Read.{TunnelReader, ok, unfinished, read_all}
use roris_db.Maxcompute.Tunnel.Io.Stream.{FitsColumns, stream, record_checksums, finish-stream}
use roris_db.Maxcompute.Tunnel.Io.RoundTrip.{read_all-finish}
use roris_db.Maxcompute.Tunnel.Io.Endless.{endless, read_all-endless}
use roris_db.Maxcompute.Tunnel.Blocks.{insert_block}
use roris_db.Maxcompute.Tunnel.Handlers.{receive_block, stored, receive_block-finish}
use roris_db.Table.{lookup, insert}
use roris_db.Maxcompute.Tunnel.Manager.{panicked, commit_upload}
use roris_db.Maxcompute.Tunnel.Steps.{creating_upload, committing, cleaning}
use roris_db.Maxcompute.Tunnel.Requests
use roris_db.Maxcompute.Tunnel.Requests.{
  Request, sending, calling, serve_all, commit_upload-serve_all,
}
use roris_db.Maxcompute.Tests.{engine, users, ann, bob, two_blocks, with_upload}

abbrev codec : Codec
codec = record {
  crc32 = λ s. length s % 2 ^ 32;
  hex_decode = λ s. some s;
  hex_encode = λ s. s;
  to_uppercase = λ s. s;
  from_utf8_lossy = λ s. s;
  parse_f32 = λ s. some 0;
  f32_to_string = λ bits. str "0";
  parse_f64 = λ s. some 0;
  f64_to_string = λ bits. str "0";
}

abbrev rows : List Row
rows = ann ∷ bob ∷ []

rows_fit : All (FitsColumns codec (all_columns users)) rows
unfolding kind_of bytes_eq str int_to_string
rows_fit = (
  ((pos 1, (omega arith, omega arith), refl), (refl, tt)),
  (((pos 2, (omega arith, omega arith), refl), (tt, tt)), tt),
)

length-stream : length (stream codec (all_columns users) rows []) ≡ 45
unfolding stream kind_of bytes_eq str parse_i64 encode_varint
length-stream = refl

read_all-finish_example :
    (bytes : Bytes) × (finish codec rows users new ≡ some bytes)
    × (r : TunnelReader) × (read_all codec 10 users (record { bytes = bytes; pos = 0 })
        ≡ ok
            (
              rows,
              (
                some (length rows),
                some (overall_crc codec (record_checksums codec (all_columns users) rows)),
              ),
            )
            r)
read_all-finish_example =
    read_all-finish codec 10 users rows (λ s. omega arith) (omega arith) (omega arith) (omega arith)
      rows_fit (omega (arith, length-stream))

read_all-endless_example :
    read_all codec 1000 users (record { bytes = endless (0 ∷ []); pos = 0 }) ≡ unfinished
read_all-endless_example = read_all-endless codec 1000 users (0 ∷ [])

receive_block-finish_example :
    receive_block codec 10
      (str "u1")
      7
      (stream codec (all_columns users) rows [])
      (with_upload two_blocks)
    ≡ (
      stored,
      record (with_upload two_blocks) {
        upload_sessions =
            insert
              (str "u1")
              (record two_blocks { blocks = insert_block 7 rows two_blocks.blocks })
              (with_upload two_blocks).upload_sessions;
      },
    )
unfolding lookup bytes_eq str
receive_block-finish_example =
    receive_block-finish codec 10 (str "u1") 7 rows (stream codec (all_columns users) rows [])
      (with_upload two_blocks) two_blocks refl refl (omega arith) (omega arith) (omega arith)
      rows_fit (finish-stream codec rows users rows_fit) (omega (arith, length-stream))

-- An upload is made, two rows and a stray byte arrive as its blocks, and it is committed.
abbrev requests : List Request
requests =
    calling (creating_upload (str "u1") 10 (str "p") (str "users") 1)
    ∷ sending (str "u1") 0 (stream codec (all_columns users) rows [])
    ∷ sending (str "u1") 1 (200 ∷ [])
    ∷ calling (committing (str "u1") 1)
    ∷ calling (cleaning 20)
    ∷ []

commit_upload-serve_all_example : ¬ (
    (commit_upload engine (str "u1") 1 (serve_all engine codec 10 requests (Requests.new, []))).0
    ≡ panicked)
commit_upload-serve_all_example =
    commit_upload-serve_all engine codec 10 requests [] (str "u1") 1
      (tt, (tt, (tt, (tt, (tt, tt)))))
