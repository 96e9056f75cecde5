-- ===== src/Maxcompute/Tunnel/Invariant.antt =====
-- crates/maxcompute-protocol/src/tunnel/session.rs: the manager never holds more sessions than its limit.
use roris_db.Prelude.{
  ℕ, ◌-◌, ◌≤◌, ◌<◌, ◌≡◌, some, List, [], ◌∷◌, ◌⊎◌, inl, inr, leb, arith, Bool-cases, Option-cases,
}
use roris_db.Bytes.{Bytes}
use roris_db.Table.{lookup, insert, contains_key, insert-HasUniqueKeys, length-insert}
use roris_db.Maxcompute.Tunnel.{
  Row, committed, UploadSession, DownloadSession, TunnelSessionManager, TunnelSchema, QueryResult,
  Engine,
}
use roris_db.Maxcompute.Tunnel.Blocks.{insert_block, all_rows}
use roris_db.Maxcompute.Tunnel.Sql.{build_insert_sql}
use roris_db.Maxcompute.Tunnel.Evict.{
  Aged, total_sessions, remove_all, evict_if_needed, cleanup, max_sessions, eviction_target,
  aged_uploads, aged_downloads, expired_ids, session_ttl_secs,
}
use roris_db.Maxcompute.Tunnel.Removal.{HasUniqueIds, remove_all-HasUniqueIds, total-remove_all-le}
use roris_db.Maxcompute.Tunnel.Capacity.{total-evict_oldest, evict_oldest-HasUniqueIds}
use roris_db.Maxcompute.Tunnel.Manager.{
  State, TunnelError, select_all, upload_block, is_normal, mark_committed, insert_rows, commit_sql,
  commit_rows, commit_upload, has_error, first_is_error, fetch_table_schema, open_upload,
  open_download, cache_rows, create_upload_session, create_download_session,
}
use roris_db.Maxcompute.Tunnel.Steps.{
  Call, creating_upload, creating_download, uploading, committing, cleaning, step, run,
}

-- The identifiers are distinct, and there are no more sessions than the limit.
unfoldable pub IsSound : TunnelSessionManager → Type 0
IsSound m = HasUniqueIds m × (total_sessions m ≤ max_sessions)

-- There is room for one more.
HasRoom : TunnelSessionManager → Type 0
HasRoom m = HasUniqueIds m × (total_sessions m < max_sessions)

evict_if_needed-HasRoom : (m : TunnelSessionManager) → IsSound m → HasRoom (evict_if_needed m)
unfolding IsSound HasRoom evict_if_needed
evict_if_needed-HasRoom m (unique, bound) =
    elim (Bool-cases (leb max_sessions (total_sessions m))) [
      | inl e ↦ rw e (
        evict_oldest-HasUniqueIds eviction_target m unique,
        omega (arith, total-evict_oldest eviction_target m unique),
      )
      | inr e ↦ rw e (unique, ground arith)
    ]

HasRoom-IsSound : (m : TunnelSessionManager) → HasRoom m → IsSound m
unfolding IsSound HasRoom
HasRoom-IsSound m (unique, room) = (unique, omega arith)

add_upload-IsSound :
    (id : Bytes) (s : UploadSession) (m : TunnelSessionManager)
    → HasRoom m
    → IsSound (record m { upload_sessions = insert id s m.upload_sessions })
unfolding IsSound HasRoom
add_upload-IsSound id s m ((ups, downs), room) = (
  (insert-HasUniqueKeys id s m.upload_sessions ups, downs),
  ground (arith, length-insert id s m.upload_sessions),
)

add_download-IsSound :
    (id : Bytes) (s : DownloadSession) (m : TunnelSessionManager)
    → HasRoom m
    → IsSound (record m { download_sessions = insert id s m.download_sessions })
unfolding IsSound HasRoom
add_download-IsSound id s m ((ups, downs), room) = (
  (ups, insert-HasUniqueKeys id s m.download_sessions downs),
  ground (arith, length-insert id s m.download_sessions),
)

-- a session that is there already
update_upload-IsSound :
    (id : Bytes) (old s : UploadSession) (m : TunnelSessionManager)
    → lookup id m.upload_sessions ≡ some old
    → IsSound m
    → IsSound (record m { upload_sessions = insert id s m.upload_sessions })
unfolding IsSound contains_key
update_upload-IsSound id old s m there ((ups, downs), bound) = (
  (insert-HasUniqueKeys id s m.upload_sessions ups, downs),
  ground (arith, length-insert id s m.upload_sessions),
)

remove_all-IsSound :
    (aged : List Aged) (m : TunnelSessionManager) → IsSound m → IsSound (remove_all aged m)
unfolding IsSound
remove_all-IsSound aged m (unique, bound) =
    (remove_all-HasUniqueIds aged m unique, omega (arith, total-remove_all-le aged m))

upload_block-IsSound :
    (id : Bytes) (block_id : ℕ) (rows : List Row) (m : TunnelSessionManager)
    → IsSound m
    → IsSound (upload_block id block_id rows m).1
unfolding upload_block
upload_block-IsSound id block_id rows m sound = elim (Option-cases (lookup id m.upload_sessions)) [
  | inl e ↦ rw (e, upload_block) sound
  | inr (s, e) ↦ elim (Bool-cases (is_normal s.status)) [
    | inl f ↦
        rw (e, upload_block, f)
          (update_upload-IsSound id s (record s { blocks = insert_block block_id rows s.blocks }) m
            e sound)
    | inr f ↦ rw (e, upload_block, f) sound
  ]
]

module _ {H : Type 0} (engine : Engine H) where
  commit_rows-IsSound :
      (id : Bytes) (conn_id : ℕ) (s : UploadSession) (rows : List Row) (m : TunnelSessionManager)
      (h : H)
      → lookup id m.upload_sessions ≡ some s
      → IsSound m
      → IsSound (commit_rows engine id conn_id s rows (m, h)).1.0
  unfolding commit_rows commit_sql insert_rows mark_committed
  commit_rows-IsSound id conn_id s [] m h there sound =
      update_upload-IsSound id s (record s { status = committed }) m there sound
  commit_rows-IsSound id conn_id s (row ∷ rows) m h there sound =
      elim (Option-cases (build_insert_sql engine.to_uppercase s (row ∷ rows))) [
        | inl e ↦ rw e sound
        | inr (sql, e) ↦
            rw e
              (elim (Bool-cases (
                has_error engine.to_uppercase
                  (engine.handle_query conn_id sql
                    (engine.set_database conn_id s.project h)).0.columns)) [
                      | inl f ↦ rw f sound
                      | inr f ↦ rw f (
                          update_upload-IsSound id s (record s { status = committed }) m there
                            sound)
                    ])
      ]

  commit_upload-IsSound :
      (id : Bytes) (conn_id : ℕ) (m : TunnelSessionManager) (h : H)
      → IsSound m
      → IsSound (commit_upload engine id conn_id (m, h)).1.0
  unfolding commit_upload
  commit_upload-IsSound id conn_id m h sound = elim (Option-cases (lookup id m.upload_sessions)) [
    | inl e ↦ rw (e, commit_upload) sound
    | inr (s, e) ↦ elim (Bool-cases (is_normal s.status)) [
      | inl f ↦
          rw (e, commit_upload, f)
            (commit_rows-IsSound id conn_id s (all_rows s.blocks) m h e sound)
      | inr f ↦ rw (e, commit_upload, f) sound
    ]
  ]

  open_upload-IsSound :
      (id : Bytes) (now : ℕ) (project table : Bytes) (m : TunnelSessionManager)
      (fetched : (TunnelError ⊎ TunnelSchema) × H)
      → HasRoom m
      → IsSound (open_upload engine id now project table m fetched).1.0
  unfolding open_upload
  open_upload-IsSound id now project table m (inl e, h) room = HasRoom-IsSound m room
  open_upload-IsSound id now project table m (inr schema, h) room = add_upload-IsSound id _ m room

  cache_rows-IsSound :
      (id : Bytes) (now : ℕ) (project table : Bytes) (schema : TunnelSchema)
      (m : TunnelSessionManager) (answer : QueryResult × H)
      → HasRoom m
      → IsSound (cache_rows engine id now project table schema m answer).1.0
  unfolding cache_rows
  cache_rows-IsSound id now project table schema m (result, h) room =
      elim (Bool-cases (first_is_error engine.to_uppercase result.columns)) [
        | inl e ↦ rw e (HasRoom-IsSound m room)
        | inr e ↦ rw e (add_download-IsSound id _ m room)
      ]

  open_download-IsSound :
      (id : Bytes) (now : ℕ) (project table : Bytes) (conn_id : ℕ) (m : TunnelSessionManager)
      (fetched : (TunnelError ⊎ TunnelSchema) × H)
      → HasRoom m
      → IsSound (open_download engine id now project table conn_id m fetched).1.0
  unfolding open_download
  open_download-IsSound id now project table conn_id m (inl e, h) room = HasRoom-IsSound m room
  open_download-IsSound id now project table conn_id m (inr schema, h) room =
      cache_rows-IsSound id now project table schema m
        (engine.handle_query conn_id (select_all table) (engine.set_database conn_id project h))
        room

  pub step-IsSound :
      (call : Call) (state : State engine) → IsSound state.0 → IsSound (step engine call state).0
  unfolding step create_upload_session create_download_session cleanup
  step-IsSound (creating_upload id now project table conn_id) (m, h) sound =
      open_upload-IsSound id now project table (evict_if_needed m)
        (fetch_table_schema engine conn_id project table h) (evict_if_needed-HasRoom m sound)
  step-IsSound (creating_download id now project table conn_id) (m, h) sound =
      open_download-IsSound id now project table conn_id (evict_if_needed m)
        (fetch_table_schema engine conn_id project table h) (evict_if_needed-HasRoom m sound)
  step-IsSound (uploading id block_id rows) (m, h) sound =
      upload_block-IsSound id block_id rows m sound
  step-IsSound (committing id conn_id) (m, h) sound = commit_upload-IsSound id conn_id m h sound
  step-IsSound (cleaning now) (m, h) sound =
      let cutoff : ℕ = now - session_ttl_secs in
      let kept : TunnelSessionManager =
        remove_all (expired_ids cutoff (aged_uploads m.upload_sessions)) m in
      remove_all-IsSound (expired_ids cutoff (aged_downloads kept.download_sessions)) kept
        (remove_all-IsSound (expired_ids cutoff (aged_uploads m.upload_sessions)) m sound)

-- Through any sequence of calls, whatever the handler answers, a manager whose identifiers are distinct
-- and that holds at most a thousand sessions stays so.
pub run-IsSound :
    {H : Type 0} (engine : Engine H) (calls : List Call) (state : State engine)
    → IsSound state.0
    → IsSound (run engine calls state).0
unfolding run
run-IsSound engine [] state sound = sound
run-IsSound engine (call ∷ calls) state sound =
    run-IsSound engine calls (step engine call state) (step-IsSound engine call state sound)
