-- ===== src/Maxcompute/Tunnel/Manager.antt =====
-- crates/maxcompute-protocol/src/tunnel/session.rs: the operations of `TunnelSessionManager`. Each returns
-- its answer with the manager and the handler's state that it leaves.
use roris_db.Prelude.{
  ℕ, ◌+◌, ◌-◌, ◌%◌, ◌^◌, Bool, true, false, ◌||◌, Option, none, some, List, [], ◌∷◌, ◌++◌, ◌⊎◌, inl,
  inr, length, take, drop, ltb, leb, if◌then◌else◌,
}
use Prim.Native.Nat.{min}
use roris_db.Bytes.{Bytes, str}
use roris_db.Table.{lookup, insert}
use roris_db.Maxcompute.Tunnel.{
  TunnelSchema, Row, UploadStatus, normal, committed, UploadSession, DownloadStatus, ready,
  outdated, DownloadSession, TunnelSessionManager, QueryResult, Engine,
}
use roris_db.Maxcompute.Tunnel.Blocks.{insert_block, block_ids, all_rows}
use roris_db.Maxcompute.Tunnel.Sql.{
  replace_char, contains, build_insert_sql, first_value, described_schema,
}
use roris_db.Maxcompute.Tunnel.Evict.{evict_if_needed}

-- the `Err` strings, as values
pub data TunnelError : Type 0 where
  upload_not_found download_not_found : Bytes → TunnelError
  not_in_normal_state cannot_be_committed : Bytes → UploadStatus → TunnelError
  download_not_normal : Bytes → TunnelError
  too_few_columns : Bytes → ℕ → TunnelError
  query_failed : Bytes → TunnelError

pub data Answer {ℓ} (A : Type ℓ) : Type ℓ where
  ok : A → Answer A
  err : TunnelError → Answer A
  panicked : Answer A

abbrev pub is_normal : UploadStatus → Bool
is_normal normal = true
is_normal _ = false

-- `table.replace('`', "``")`, between backquotes
abbrev quoted_name : Bytes → Bytes
quoted_name table = b'`' ∷ (replace_char b'`' (str "``") table ++ b'`' ∷ [])

abbrev pub select_all : Bytes → Bytes
select_all table = str "SELECT * FROM " ++ quoted_name table

abbrev pub first_is_error : (Bytes → Bytes) → List Bytes → Bool
first_is_error to_uppercase [] = false
first_is_error to_uppercase (c ∷ columns) = contains (str "ERROR") (to_uppercase c)

-- any column whose name tells of an error
abbrev pub has_error : (Bytes → Bytes) → List Bytes → Bool
has_error to_uppercase [] = false
has_error to_uppercase (c ∷ columns) =
    (contains (str "ERROR") (to_uppercase c) || contains (str "PARSE") (to_uppercase c))
    || has_error to_uppercase columns

-- An upload that is there, normal, and open to more blocks.
unfoldable pub upload_block :
    Bytes → ℕ → List Row → TunnelSessionManager → Answer (Unit {0}) × TunnelSessionManager
upload_block upload_id block_id rows m = elim (lookup upload_id m.upload_sessions) [
  | none ↦ (err (upload_not_found upload_id), m)
  | some s ↦
      if is_normal s.status
      then (
        ok tt,
        record m {
          upload_sessions =
              insert upload_id (record s { blocks = insert_block block_id rows s.blocks })
                m.upload_sessions;
        },
      )
      else (err (not_in_normal_state upload_id s.status), m)
]

-- `entry.status = UploadStatus::Committed`
unfoldable pub mark_committed : Bytes → UploadSession → TunnelSessionManager → TunnelSessionManager
mark_committed upload_id s m = record m {
  upload_sessions = insert upload_id (record s { status = committed }) m.upload_sessions;
}

module _ {H : Type 0} (engine : Engine H) where
  abbrev pub State : Type 0
  State = TunnelSessionManager × H

  unfoldable pub fetch_table_schema : ℕ → Bytes → Bytes → H → (TunnelError ⊎ TunnelSchema) × H
  fetch_table_schema conn_id project table h =
      let (result, h') =
        engine.handle_query conn_id (str "DESCRIBE " ++ quoted_name table)
          (engine.set_database conn_id project h) in
      (
        if ltb (length result.columns) 2
            then inl (too_few_columns table (length result.columns))
            else if first_is_error engine.to_uppercase result.columns
            then inl (query_failed (first_value result))
            else inr (described_schema engine.to_uppercase result.rows),
        h',
      )

  -- the new session, if its table has a schema
  unfoldable pub open_upload :
      Bytes
      → ℕ
      → Bytes
      → Bytes
      → TunnelSessionManager
      → (TunnelError ⊎ TunnelSchema) × H
      → Answer UploadSession × State
  open_upload id now project table m (inl e, h) = (err e, (m, h))
  open_upload id now project table m (inr schema, h) =
      let s : UploadSession = record {
        upload_id = id;
        project = project;
        table = table;
        schema = schema;
        blocks = [];
        status = normal;
        created_at = now;
        overwrite = false;
      } in
      (ok s, (record m { upload_sessions = insert id s m.upload_sessions }, h))

  -- `id` is the identifier that the session gets, and `now` the time.
  unfoldable pub create_upload_session :
      Bytes → ℕ → Bytes → Bytes → ℕ → State → Answer UploadSession × State
  unfolding fetch_table_schema open_upload
  create_upload_session id now project table conn_id (m, h) =
      open_upload id now project table (evict_if_needed m)
        (fetch_table_schema conn_id project table h)

  -- The INSERT of a session's rows, and what its result makes of the session.
  unfoldable pub insert_rows : Bytes → ℕ → UploadSession → Bytes → State → Answer (List ℕ) × State
  insert_rows upload_id conn_id s insert_sql (m, h) =
      let (result, h') =
        engine.handle_query conn_id insert_sql (engine.set_database conn_id s.project h) in
      if has_error engine.to_uppercase result.columns
      then (err (query_failed (first_value result)), (m, h'))
      else (ok (block_ids s.blocks), (mark_committed upload_id s m, h'))

  -- the statement, if it could be built
  unfoldable pub commit_sql :
      Bytes → ℕ → UploadSession → Option Bytes → State → Answer (List ℕ) × State
  unfolding insert_rows
  commit_sql upload_id conn_id s none state = (panicked, state)
  commit_sql upload_id conn_id s (some insert_sql) state =
      insert_rows upload_id conn_id s insert_sql state

  -- the session's rows; with none there is nothing to insert
  unfoldable pub commit_rows :
      Bytes → ℕ → UploadSession → List Row → State → Answer (List ℕ) × State
  unfolding commit_sql mark_committed
  commit_rows upload_id conn_id s [] (m, h) =
      (ok (block_ids s.blocks), (mark_committed upload_id s m, h))
  commit_rows upload_id conn_id s (row ∷ rows) state =
      commit_sql upload_id conn_id s (build_insert_sql engine.to_uppercase s (row ∷ rows)) state

  unfoldable pub commit_upload : Bytes → ℕ → State → Answer (List ℕ) × State
  unfolding commit_rows
  commit_upload upload_id conn_id (m, h) = elim (lookup upload_id m.upload_sessions) [
    | none ↦ (err (upload_not_found upload_id), (m, h))
    | some s ↦
        if is_normal s.status
        then commit_rows upload_id conn_id s (all_rows s.blocks) (m, h)
        else (err (cannot_be_committed upload_id s.status), (m, h))
  ]

  -- the session with the rows of the table, unless the result tells of an error
  unfoldable pub cache_rows :
      Bytes
      → ℕ
      → Bytes
      → Bytes
      → TunnelSchema
      → TunnelSessionManager
      → QueryResult × H
      → Answer DownloadSession × State
  cache_rows id now project table schema m (result, h) =
      let s : DownloadSession = record {
        download_id = id;
        project = project;
        table = table;
        schema = schema;
        record_count = length result.rows;
        cached_data = result.rows;
        status = ready;
        created_at = now;
      } in
      if first_is_error engine.to_uppercase result.columns
      then (err (query_failed (first_value result)), (m, h))
      else (ok s, (record m { download_sessions = insert id s m.download_sessions }, h))

  unfoldable pub open_download :
      Bytes
      → ℕ
      → Bytes
      → Bytes
      → ℕ
      → TunnelSessionManager
      → (TunnelError ⊎ TunnelSchema) × H
      → Answer DownloadSession × State
  unfolding cache_rows
  open_download id now project table conn_id m (inl e, h) = (err e, (m, h))
  open_download id now project table conn_id m (inr schema, h) =
      cache_rows id now project table schema m
        (engine.handle_query conn_id (select_all table) (engine.set_database conn_id project h))

  unfoldable pub create_download_session :
      Bytes → ℕ → Bytes → Bytes → ℕ → State → Answer DownloadSession × State
  unfolding fetch_table_schema open_download
  create_download_session id now project table conn_id (m, h) =
      open_download id now project table conn_id (evict_if_needed m)
        (fetch_table_schema conn_id project table h)

abbrev pub is_ready : DownloadStatus → Bool
is_ready ready = true
is_ready outdated = false

-- `cached_data[start..end]`, where the end is a sum that wraps around
unfoldable pub page : ℕ → ℕ → List Row → Answer (List Row)
page start row_count cached_data =
    let end : ℕ = min ((start + row_count) % 2 ^ 64) (length cached_data) in
    if leb (length cached_data) start
    then ok []
    else if ltb end start
    then panicked
    else ok (take (end - start) (drop start cached_data))

unfoldable pub get_download_data : Bytes → ℕ → ℕ → TunnelSessionManager → Answer (List Row)
unfolding page
get_download_data download_id row_start row_count m =
    elim (lookup download_id m.download_sessions) [
      | none ↦ err (download_not_found download_id)
      | some s ↦
          if is_ready s.status
          then page row_start row_count s.cached_data
          else err (download_not_normal download_id)
    ]

-- the session, and the numbers of its blocks
unfoldable pub reload_upload_session :
    Bytes → TunnelSessionManager → Option (UploadSession × List ℕ)
reload_upload_session upload_id m = elim (lookup upload_id m.upload_sessions) [
  | none ↦ none
  | some s ↦ some (s, block_ids s.blocks)
]
