-- ===== src/Maxcompute/Tunnel/Handlers.antt =====
-- crates/maxcompute-protocol/src/tunnel/handlers.rs: what the handlers of a block and of a page of a
-- download do between the request's parameters and the response, without compression.
use roris_db.Prelude.{
  ℕ, ◌^◌, ◌<◌, ◌≡◌, sym, ap, ◌∙◌, true, Option, none, some, List, [], All, length,
}
use roris_db.Bytes.{Bytes}
use roris_db.Table.{lookup, insert}
use roris_db.Maxcompute.Tunnel.{TunnelSchema, all_columns, Row, UploadSession, TunnelSessionManager}
use roris_db.Maxcompute.Tunnel.Blocks.{insert_block}
use roris_db.Maxcompute.Tunnel.Varint.{IoError}
use roris_db.Maxcompute.Tunnel.Manager.{
  TunnelError, Answer, ok, err, panicked, is_normal, upload_block,
}
use roris_db.Maxcompute.Tunnel.Parallel.{with_block, upload_block_open}
use roris_db.Maxcompute.Tunnel.Io.{Codec}
use roris_db.Maxcompute.Tunnel.Io.Write.{new, finish}
use roris_db.Maxcompute.Tunnel.Io.Read.{Read, TunnelReader, read_rows}
use roris_db.Maxcompute.Tunnel.Io.At.{At, Reads}
use roris_db.Maxcompute.Tunnel.Io.Stream.{FitsColumns, stream, finish-stream}
use roris_db.Maxcompute.Tunnel.Io.RoundTrip.{read_rows-Reads, start-At}

-- the responses to a block, and what is none
pub data BlockReply : Type 0 where
  stored session_not_found crashed endless : BlockReply
  not_decoded : IoError → BlockReply
  refused : TunnelError → BlockReply

abbrev reply_of : Answer (Unit {0}) → BlockReply
reply_of (ok u) = stored
reply_of (err e) = refused e
reply_of panicked = crashed

-- the rows, if they could be read, as a block of the session
unfoldable pub store_rows :
    Bytes → ℕ → TunnelSessionManager → Read (List Row) → BlockReply × TunnelSessionManager
unfolding upload_block
store_rows upload_id block_id m (Read.ok rows r) =
    let (answer, m') = upload_block upload_id block_id rows m in (reply_of answer, m')
store_rows upload_id block_id m (Read.failed e) = (not_decoded e, m)
store_rows upload_id block_id m Read.panicked = (crashed, m)
store_rows upload_id block_id m Read.unfinished = (endless, m)

-- `get_upload_session_schema`
unfoldable pub get_upload_session_schema : Bytes → TunnelSessionManager → Option TunnelSchema
get_upload_session_schema upload_id m = elim (lookup upload_id m.upload_sessions) [
  | none ↦ none
  | some s ↦ some s.schema
]

module _ (codec : Codec) where
  -- The handler `upload_block`, from the decompressed body on; the fuel bounds the loop over the rows and
  -- the loop over the fields of each.
  unfoldable pub receive_block :
      ℕ → Bytes → ℕ → Bytes → TunnelSessionManager → BlockReply × TunnelSessionManager
  unfolding get_upload_session_schema
  receive_block fuel upload_id block_id body m = elim (get_upload_session_schema upload_id m) [
    | none ↦ (session_not_found, m)
    | some schema ↦
        store_rows upload_id block_id m
          (read_rows codec fuel fuel schema (record { bytes = body; pos = 0 }))
  ]

  written :
      (rows : List Row) (schema : TunnelSchema) (body : Bytes)
      → All (FitsColumns codec (all_columns schema)) rows
      → finish codec rows schema new ≡ some body
      → stream codec (all_columns schema) rows [] ≡ body
  written rows schema body fits made =
      let same : some (stream codec (all_columns schema) rows []) ≡ some body =
        sym (finish-stream codec rows schema fits) ∙ made in
      cc

  store_rows_lem :
      (id : Bytes) (block_id : ℕ) (rows : List Row) (m : TunnelSessionManager) (s : UploadSession)
      (p : Read (List Row)) (r : TunnelReader)
      → lookup id m.upload_sessions ≡ some s
      → is_normal s.status ≡ true
      → p ≡ Read.ok rows r
      → store_rows id block_id m p ≡ (stored, with_block id s block_id rows m)
  unfolding store_rows
  store_rows_lem id block_id rows m s p r there fresh e =
      ap (store_rows id block_id m) e
      ∙ ap (λ answer. (reply_of answer.0, answer.1))
          (upload_block_open id block_id rows m s there fresh)

  -- A block that a client writes with `TunnelWriter`, of rows that fit the columns of an open upload, is
  -- stored under its number with exactly those rows, and the other sessions stay as they are.
  pub receive_block-finish :
      (fuel : ℕ) (id : Bytes) (block_id : ℕ) (rows : List Row) (body : Bytes)
      (m : TunnelSessionManager) (s : UploadSession)
      → lookup id m.upload_sessions ≡ some s
      → is_normal s.status ≡ true
      → length (all_columns s.schema) < 4194176
      → length (all_columns s.schema) < fuel
      → length rows < fuel
      → All (FitsColumns codec (all_columns s.schema)) rows
      → finish codec rows s.schema new ≡ some body
      → length body < 2 ^ 64
      → receive_block fuel id block_id body m ≡ (
        stored,
        record m {
          upload_sessions =
              insert id
                (record s { blocks = insert_block block_id rows s.blocks })
                m.upload_sessions;
        },
      )
  unfolding receive_block get_upload_session_schema with_block Reads
  receive_block-finish fuel id block_id rows body m s there fresh few room more fits made short =
      let at_start : At (stream codec (all_columns s.schema) rows [])
          (record { bytes = body; pos = 0 }) =
        rw (written rows s.schema body fits made) (start-At codec body short) in
      let (r, e, behind) =
        read_rows-Reads codec fuel fuel s.schema rows [] (record { bytes = body; pos = 0 }) few room
          more fits at_start in
      rw (there, receive_block, get_upload_session_schema)
        (store_rows_lem id block_id rows m s
          (read_rows codec fuel fuel s.schema (record { bytes = body; pos = 0 })) r there fresh e)
