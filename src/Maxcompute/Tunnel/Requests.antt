-- ===== src/Maxcompute/Tunnel/Requests.antt =====
-- crates/maxcompute-protocol/src/tunnel: the requests that the handlers pass on to the session manager, and
-- what holds of the rows that they bring.
use roris_db.Prelude.{
  ℕ, ◌-◌, ◌≡◌, some, List, [], ◌∷◌, ◌++◌, All, ◌⊎◌, inl, inr, length, take, leb, Bool-cases,
  Option-cases,
}
use roris_db.Bytes.{Bytes}
use roris_db.Table.{lookup}
use roris_db.Maxcompute.Tunnel.{
  Row, committed, all_columns, TunnelSchema, UploadSession, TunnelSessionManager, Engine,
}
use roris_db.Maxcompute.Tunnel.Blocks.{insert_block, all_rows}
use roris_db.Maxcompute.Tunnel.Sql.{build_insert_sql}
use roris_db.Maxcompute.Tunnel.Evict.{
  Aged, aged_uploads, aged_downloads, sort_aged, expired_ids, session_ttl_secs, remove_aged,
  remove_all, evict_oldest, evict_if_needed, cleanup, total_sessions, eviction_target, max_sessions,
}
use roris_db.Maxcompute.Tunnel.Manager.{
  State, TunnelError, panicked, first_is_error, select_all, is_normal, upload_block, mark_committed,
  insert_rows, commit_sql, commit_rows, commit_upload, has_error, fetch_table_schema, open_upload,
  open_download, cache_rows, create_upload_session, create_download_session,
}
use roris_db.Maxcompute.Tunnel.Steps.{
  Call, creating_upload, creating_download, uploading, committing, cleaning, step,
}
use roris_db.Maxcompute.Tunnel.Square.{
  HasWidth, IsSquare, AreSquare, IsSquare-same, insert_block-BlocksHaveWidth, insert-IsSquare,
  remove-IsSquare, commit_upload-calm,
}
use roris_db.Maxcompute.Tunnel.Io.{Codec}
use roris_db.Maxcompute.Tunnel.Io.Read.{Read, read_rows}
use roris_db.Maxcompute.Tunnel.Io.Width.{Yields, read_rows-Yields}
use roris_db.Maxcompute.Tunnel.Handlers.{get_upload_session_schema, store_rows, receive_block}

abbrev pub new : TunnelSessionManager
new = record { upload_sessions = []; download_sessions = [] }

-- A block arrives as the body of a request, of which the rows are read; the other calls are made as they are.
pub data Request : Type 0 where
  sending : Bytes → ℕ → Bytes → Request
  calling : Call → Request

-- No request brings rows that are not read from its body.
abbrev pub IsRequest : Request → Type 0
IsRequest (calling (uploading id block_id rows)) = ⊥
IsRequest _ = Unit

module _ {H : Type 0} (engine : Engine H) (codec : Codec) (fuel : ℕ) where
  unfoldable pub serve : Request → State engine → State engine
  unfolding step receive_block
  serve (sending id block_id body) (m, h) = ((receive_block codec fuel id block_id body m).1, h)
  serve (calling call) state = step engine call state

  unfoldable pub serve_all : List Request → State engine → State engine
  unfolding serve
  serve_all [] state = state
  serve_all (request ∷ requests) state = serve_all requests (serve request state)

remove_aged-AreSquare :
    (a : Aged) (m : TunnelSessionManager) → AreSquare m → AreSquare (remove_aged a m)
unfolding remove_aged
remove_aged-AreSquare a m square id = elim (Bool-cases a.is_upload) [
  | inl e ↦ rw e (remove-IsSquare a.id id m.upload_sessions (square id))
  | inr e ↦ rw e (square id)
]

remove_all-AreSquare :
    (aged : List Aged) (m : TunnelSessionManager) → AreSquare m → AreSquare (remove_all aged m)
unfolding remove_all
remove_all-AreSquare [] m square = square
remove_all-AreSquare (a ∷ aged) m square =
    remove_all-AreSquare aged (remove_aged a m) (remove_aged-AreSquare a m square)

evict_if_needed-AreSquare : (m : TunnelSessionManager) → AreSquare m → AreSquare (evict_if_needed m)
unfolding evict_if_needed evict_oldest
evict_if_needed-AreSquare m square id = elim (Bool-cases (leb max_sessions (total_sessions m))) [
  | inl e ↦ rw e (elim (Bool-cases (leb (total_sessions m) eviction_target)) [
    | inl f ↦ rw f (square id)
    | inr f ↦ rw f (
        remove_all-AreSquare
          (take (total_sessions m - eviction_target)
            (sort_aged (aged_uploads m.upload_sessions ++ aged_downloads m.download_sessions)))
          m square id)
  ])
  | inr e ↦ rw e (square id)
]

upload_block-AreSquare :
    (id : Bytes) (block_id : ℕ) (rows : List Row) (m : TunnelSessionManager) (s : UploadSession)
    → lookup id m.upload_sessions ≡ some s
    → HasWidth (length (all_columns s.schema)) rows
    → AreSquare m
    → AreSquare (upload_block id block_id rows m).1
unfolding upload_block
upload_block-AreSquare id block_id rows m s there wide square j =
    elim (Bool-cases (is_normal s.status)) [
      | inl f ↦
          let here : IsSquare (some s) =
            IsSquare-same (lookup id m.upload_sessions) (some s) there (square id) in
          rw (there, upload_block, f)
            (insert-IsSquare id j (record s { blocks = insert_block block_id rows s.blocks })
              m.upload_sessions
              (insert_block-BlocksHaveWidth (length (all_columns s.schema)) block_id rows s.blocks
                wide here)
              (square j))
      | inr f ↦ rw (there, upload_block, f) (square j)
    ]

store_rows-AreSquare :
    (id : Bytes) (block_id : ℕ) (m : TunnelSessionManager) (s : UploadSession) (p : Read (List Row))
    → lookup id m.upload_sessions ≡ some s
    → Yields (HasWidth (length (all_columns s.schema))) p
    → AreSquare m
    → AreSquare (store_rows id block_id m p).1
unfolding store_rows
store_rows-AreSquare id block_id m s (Read.ok rows r) there wide square =
    upload_block-AreSquare id block_id rows m s there wide square
store_rows-AreSquare id block_id m s (Read.failed e) there wide square = square
store_rows-AreSquare id block_id m s Read.panicked there wide square = square
store_rows-AreSquare id block_id m s Read.unfinished there wide square = square

receive_block-AreSquare :
    (codec : Codec) (fuel : ℕ) (id : Bytes) (block_id : ℕ) (body : Bytes) (m : TunnelSessionManager)
    → AreSquare m
    → AreSquare (receive_block codec fuel id block_id body m).1
unfolding receive_block get_upload_session_schema
receive_block-AreSquare codec fuel id block_id body m square j =
    elim (Option-cases (lookup id m.upload_sessions)) [
      | inl e ↦ rw (e, receive_block, get_upload_session_schema) (square j)
      | inr (s, e) ↦
          rw (e, receive_block, get_upload_session_schema)
            (store_rows-AreSquare id block_id m s
              (read_rows codec fuel fuel s.schema (record { bytes = body; pos = 0 })) e
              (read_rows-Yields codec fuel fuel s.schema (record { bytes = body; pos = 0 })) square
              j)
    ]

module _ {H : Type 0} (engine : Engine H) where
  commit_rows-AreSquare :
      (id : Bytes) (conn_id : ℕ) (s : UploadSession) (rows : List Row) (m : TunnelSessionManager)
      (h : H)
      → IsSquare (some s)
      → AreSquare m
      → AreSquare (commit_rows engine id conn_id s rows (m, h)).1.0
  unfolding commit_rows commit_sql insert_rows mark_committed
  commit_rows-AreSquare id conn_id s [] m h here square j =
      insert-IsSquare id j (record s { status = committed }) m.upload_sessions here (square j)
  commit_rows-AreSquare id conn_id s (row ∷ rows) m h here square j =
      elim (Option-cases (build_insert_sql engine.to_uppercase s (row ∷ rows))) [
        | inl e ↦ rw e (square j)
        | inr (sql, e) ↦
            rw e
              (elim (Bool-cases (
                has_error engine.to_uppercase
                  (engine.handle_query conn_id sql
                    (engine.set_database conn_id s.project h)).0.columns)) [
                      | inl f ↦ rw f (square j)
                      | inr f ↦ rw f (
                          insert-IsSquare id j (record s { status = committed }) m.upload_sessions
                            here (square j))
                    ])
      ]

  commit_upload-AreSquare :
      (id : Bytes) (conn_id : ℕ) (m : TunnelSessionManager) (h : H)
      → AreSquare m
      → AreSquare (commit_upload engine id conn_id (m, h)).1.0
  unfolding commit_upload
  commit_upload-AreSquare id conn_id m h square j =
      elim (Option-cases (lookup id m.upload_sessions)) [
        | inl e ↦ rw (e, commit_upload) (square j)
        | inr (s, e) ↦ elim (Bool-cases (is_normal s.status)) [
          | inl f ↦
              let here : IsSquare (some s) =
                IsSquare-same (lookup id m.upload_sessions) (some s) e (square id) in
              rw (e, commit_upload, f)
                (commit_rows-AreSquare id conn_id s (all_rows s.blocks) m h here square j)
          | inr f ↦ rw (e, commit_upload, f) (square j)
        ]
      ]

  open_upload-AreSquare :
      (id : Bytes) (now : ℕ) (project table : Bytes) (m : TunnelSessionManager)
      (fetched : (TunnelError ⊎ TunnelSchema) × H)
      → AreSquare m
      → AreSquare (open_upload engine id now project table m fetched).1.0
  unfolding open_upload
  open_upload-AreSquare id now project table m (inl e, h) square j = square j
  open_upload-AreSquare id now project table m (inr schema, h) square j =
      insert-IsSquare id j _ m.upload_sessions tt (square j)

  open_download-AreSquare :
      (id : Bytes) (now : ℕ) (project table : Bytes) (conn_id : ℕ) (m : TunnelSessionManager)
      (fetched : (TunnelError ⊎ TunnelSchema) × H)
      → AreSquare m
      → AreSquare (open_download engine id now project table conn_id m fetched).1.0
  unfolding open_download cache_rows
  open_download-AreSquare id now project table conn_id m (inl e, h) square j = square j
  open_download-AreSquare id now project table conn_id m (inr schema, h) square j =
      let (result, h') =
        engine.handle_query conn_id (select_all table) (engine.set_database conn_id project h) in
      elim (Bool-cases (first_is_error engine.to_uppercase result.columns)) [
        | inl e ↦ rw e (square j)
        | inr e ↦ rw e (square j)
      ]

  serve-AreSquare :
      (codec : Codec) (fuel : ℕ) (request : Request) (m : TunnelSessionManager) (h : H)
      → IsRequest request
      → AreSquare m
      → AreSquare (serve engine codec fuel request (m, h)).0
  unfolding serve step create_upload_session create_download_session cleanup
  serve-AreSquare codec fuel (sending id block_id body) m h is square =
      receive_block-AreSquare codec fuel id block_id body m square
  serve-AreSquare codec fuel (calling (creating_upload id now project table conn_id)) m h is
        square =
      open_upload-AreSquare id now project table (evict_if_needed m)
        (fetch_table_schema engine conn_id project table h) (evict_if_needed-AreSquare m square)
  serve-AreSquare codec fuel (calling (creating_download id now project table conn_id)) m h is
        square =
      open_download-AreSquare id now project table conn_id (evict_if_needed m)
        (fetch_table_schema engine conn_id project table h) (evict_if_needed-AreSquare m square)
  serve-AreSquare codec fuel (calling (uploading id block_id rows)) m h is square = absurd is
  serve-AreSquare codec fuel (calling (committing id conn_id)) m h is square =
      commit_upload-AreSquare id conn_id m h square
  serve-AreSquare codec fuel (calling (cleaning now)) m h is square =
      let cutoff : ℕ = now - session_ttl_secs in
      let kept : TunnelSessionManager =
        remove_all (expired_ids cutoff (aged_uploads m.upload_sessions)) m in
      remove_all-AreSquare (expired_ids cutoff (aged_downloads kept.download_sessions)) kept
        (remove_all-AreSquare (expired_ids cutoff (aged_uploads m.upload_sessions)) m square)

  serve_all-AreSquare :
      (codec : Codec) (fuel : ℕ) (requests : List Request) (state : State engine)
      → All IsRequest requests
      → AreSquare state.0
      → AreSquare (serve_all engine codec fuel requests state).0
  unfolding serve_all
  serve_all-AreSquare codec fuel [] state are square = square
  serve_all-AreSquare codec fuel (request ∷ requests) (m, h) (is, are) square =
      serve_all-AreSquare codec fuel requests (serve engine codec fuel request (m, h)) are
        (serve-AreSquare codec fuel request m h is square)

new-AreSquare : AreSquare new
unfolding lookup
new-AreSquare id = tt

-- Whatever requests a new manager has served, whose blocks are of any bytes, and whatever the query handler
-- has answered, a commit does not panic: every row that is stored has a value for each column.
pub commit_upload-serve_all :
    {H : Type 0} (engine : Engine H) (codec : Codec) (fuel : ℕ) (requests : List Request) (h : H)
    (id : Bytes) (conn_id : ℕ)
    → All IsRequest requests
    → ¬ (
        (commit_upload engine id conn_id (serve_all engine codec fuel requests (new, h))).0
        ≡ panicked)
commit_upload-serve_all engine codec fuel requests h id conn_id are =
    let (m, h') = serve_all engine codec fuel requests (new, h) in
    commit_upload-calm engine id conn_id m h'
      (serve_all-AreSquare engine codec fuel requests (new, h) are new-AreSquare id)
