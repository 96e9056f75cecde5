-- ===== src/Maxcompute/Tunnel/Frozen.antt =====
-- crates/maxcompute-protocol/src/tunnel/session.rs: no call changes an upload that is committed, unless it
-- removes it.
use roris_db.Prelude.{
  ℕ, ◌-◌, ◌≡◌, refl, sym, ap, ◌∙◌, Bool, true, false, Option, none, some, List, [], ◌∷◌, ◌++◌, All,
  ◌⊎◌, inl, inr, take, leb, arith, Bool-cases, Option-cases,
}
use roris_db.Bytes.{Bytes, bytes_eq, bytes_eq_iff}
use roris_db.Table.{Table, lookup, insert, lookup-insert, lookup-remove}
use roris_db.Maxcompute.Tunnel.{
  Row, committed, UploadSession, TunnelSessionManager, TunnelSchema, Engine,
}
use roris_db.Maxcompute.Tunnel.Blocks.{all_rows, insert_block}
use roris_db.Maxcompute.Tunnel.Sql.{build_insert_sql}
use roris_db.Maxcompute.Tunnel.Evict.{
  Aged, aged_uploads, aged_downloads, sort_aged, expired_ids, session_ttl_secs, remove_aged,
  remove_all, evict_oldest, evict_if_needed, cleanup, total_sessions, eviction_target, max_sessions,
}
use roris_db.Maxcompute.Tunnel.Manager.{
  State, TunnelError, open_upload, open_download, cache_rows, commit_rows, commit_sql, has_error,
  is_normal, upload_block, mark_committed, insert_rows, fetch_table_schema, create_upload_session,
  commit_upload, create_download_session,
}
use roris_db.Maxcompute.Tunnel.Steps.{
  Call, creating_upload, creating_download, uploading, committing, cleaning, step, run,
  SparesUpload,
}

-- gone, or as it was
abbrev pub Keeps : UploadSession → Option UploadSession → Type 0
Keeps s o = (o ≡ none) ⊎ (o ≡ some s)

abbrev pub upload_at : Bytes → TunnelSessionManager → Option UploadSession
upload_at id m = lookup id m.upload_sessions

-- what an eviction removes
abbrev oldest : TunnelSessionManager → List Aged
oldest m =
    take (total_sessions m - eviction_target)
      (sort_aged (aged_uploads m.upload_sessions ++ aged_downloads m.download_sessions))

none-some : (t : UploadSession) → none ≡ some t → ⊥
none-some t e = cc

true-false : true ≡ false → ⊥
true-false e = cc

abbrev status_normal : Option UploadSession → Bool
status_normal none = false
status_normal (some t) = is_normal t.status

module _ (id : Bytes) (s : UploadSession) where
  Keeps-remove_aged :
      (a : Aged) (m : TunnelSessionManager)
      → Keeps s (upload_at id m)
      → Keeps s (upload_at id (remove_aged a m))
  unfolding remove_aged
  Keeps-remove_aged a m kept = ground (arith, lookup-remove a.id id m.upload_sessions)

  Keeps-remove_all :
      (aged : List Aged) (m : TunnelSessionManager)
      → Keeps s (upload_at id m)
      → Keeps s (upload_at id (remove_all aged m))
  unfolding remove_all
  Keeps-remove_all [] m kept = kept
  Keeps-remove_all (a ∷ aged) m kept =
      Keeps-remove_all aged (remove_aged a m) (Keeps-remove_aged a m kept)

  Keeps-evict_if_needed :
      (m : TunnelSessionManager)
      → Keeps s (upload_at id m)
      → Keeps s (upload_at id (evict_if_needed m))
  unfolding evict_if_needed evict_oldest
  Keeps-evict_if_needed m kept = elim (Bool-cases (leb max_sessions (total_sessions m))) [
    | inl e ↦ rw e (elim (Bool-cases (leb (total_sessions m) eviction_target)) [
      | inl f ↦ rw f kept
      | inr f ↦ rw f (Keeps-remove_all (oldest m) m kept)
    ])
    | inr e ↦ rw e kept
  ]

  -- a write under another key
  same-insert :
      (other : Bytes) (t : UploadSession) (sessions : Table UploadSession)
      → bytes_eq other id ≡ false
      → lookup id (insert other t sessions) ≡ lookup id sessions
  same-insert other t sessions differs = lookup-insert other id t sessions ∙ rw differs refl

  -- A session that is open is another one.
  open_elsewhere :
      (other : Bytes) (t : UploadSession) (m : TunnelSessionManager)
      → s.status ≡ committed
      → Keeps s (upload_at id m)
      → lookup other m.upload_sessions ≡ some t
      → is_normal t.status ≡ true
      → bytes_eq other id ≡ false
  open_elsewhere other t m done kept there normal = elim (Bool-cases (bytes_eq other id)) [
    | inr e ↦ e
    | inl same ↦
        let at : other ≡ id = (bytes_eq_iff other id).0 same in
        absurd (elim kept [
          | inl gone ↦
              none-some t (sym gone ∙ ap (λ k. lookup k m.upload_sessions) (sym at) ∙ there)
          | inr still ↦
              let equal : some t ≡ some s =
                sym there ∙ ap (λ k. lookup k m.upload_sessions) at ∙ still in
              true-false (sym normal ∙ ap (λ o. status_normal o) equal ∙ ap is_normal done)
        ])
  ]

  pub same-upload_block :
      (other : Bytes) (block_id : ℕ) (rows : List Row) (m : TunnelSessionManager)
      → s.status ≡ committed
      → Keeps s (upload_at id m)
      → upload_at id (upload_block other block_id rows m).1 ≡ upload_at id m
  unfolding upload_block lookup
  same-upload_block other block_id rows m done kept =
      elim (Option-cases (lookup other m.upload_sessions)) [
        | inl e ↦ rw (e, upload_block) refl
        | inr (t, e) ↦ elim (Bool-cases (is_normal t.status)) [
          | inl f ↦
              rw (e, upload_block, f)
                (same-insert other (record t { blocks = insert_block block_id rows t.blocks })
                  m.upload_sessions (open_elsewhere other t m done kept e f))
          | inr f ↦ rw (e, upload_block, f) refl
        ]
      ]

  module _ {H : Type 0} (engine : Engine H) where
    same-insert_rows :
        (other : Bytes) (conn_id : ℕ) (t : UploadSession) (sql : Bytes) (m : TunnelSessionManager)
        (h : H)
        → bytes_eq other id ≡ false
        → upload_at id (insert_rows engine other conn_id t sql (m, h)).1.0 ≡ upload_at id m
    unfolding insert_rows mark_committed
    same-insert_rows other conn_id t sql m h differs =
        elim (Bool-cases (
          has_error engine.to_uppercase
            (engine.handle_query conn_id sql
              (engine.set_database conn_id t.project h)).0.columns)) [
                | inl e ↦ rw e refl
                | inr e ↦
                    rw e (
                      same-insert other (record t { status = committed }) m.upload_sessions differs)
              ]

    same-commit_rows :
        (other : Bytes) (conn_id : ℕ) (t : UploadSession) (rows : List Row)
        (m : TunnelSessionManager) (h : H)
        → bytes_eq other id ≡ false
        → upload_at id (commit_rows engine other conn_id t rows (m, h)).1.0 ≡ upload_at id m
    unfolding commit_rows commit_sql mark_committed
    same-commit_rows other conn_id t [] m h differs =
        same-insert other (record t { status = committed }) m.upload_sessions differs
    same-commit_rows other conn_id t (row ∷ rows) m h differs =
        elim (Option-cases (build_insert_sql engine.to_uppercase t (row ∷ rows))) [
          | inl e ↦ rw e refl
          | inr (sql, e) ↦ rw e (same-insert_rows other conn_id t sql m h differs)
        ]

    pub same-commit_upload :
        (other : Bytes) (conn_id : ℕ) (m : TunnelSessionManager) (h : H)
        → s.status ≡ committed
        → Keeps s (upload_at id m)
        → upload_at id (commit_upload engine other conn_id (m, h)).1.0 ≡ upload_at id m
    unfolding commit_upload lookup
    same-commit_upload other conn_id m h done kept =
        elim (Option-cases (lookup other m.upload_sessions)) [
          | inl e ↦ rw (e, commit_upload) refl
          | inr (t, e) ↦ elim (Bool-cases (is_normal t.status)) [
            | inr f ↦ rw (e, commit_upload, f) refl
            | inl f ↦
                rw (e, commit_upload, f)
                  (same-commit_rows other conn_id t (all_rows t.blocks) m h
                    (open_elsewhere other t m done kept e f))
          ]
        ]

    pub same-open_upload :
        (other : Bytes) (now : ℕ) (project table : Bytes) (m : TunnelSessionManager)
        (fetched : (TunnelError ⊎ TunnelSchema) × H)
        → bytes_eq other id ≡ false
        → upload_at id (open_upload engine other now project table m fetched).1.0 ≡ upload_at id m
    unfolding open_upload
    same-open_upload other now project table m (inl e, h) differs = refl
    same-open_upload other now project table m (inr schema, h) differs =
        same-insert other _ m.upload_sessions differs

    pub same-open_download :
        (other : Bytes) (now : ℕ) (project table : Bytes) (conn_id : ℕ) (m : TunnelSessionManager)
        (fetched : (TunnelError ⊎ TunnelSchema) × H)
        → upload_at id (open_download engine other now project table conn_id m fetched).1.0
          ≡ upload_at id m
    unfolding open_download cache_rows
    same-open_download other now project table conn_id m (inl e, h) = refl
    same-open_download other now project table conn_id m (inr schema, h) = ground arith

    pub Keeps-step :
        (call : Call) (m : TunnelSessionManager) (h : H)
        → s.status ≡ committed
        → SparesUpload id call
        → Keeps s (upload_at id m)
        → Keeps s (upload_at id (step engine call (m, h)).0)
    unfolding step create_upload_session create_download_session cleanup
    Keeps-step (creating_upload other now project table conn_id) m h done spares kept =
        rw
          (same-open_upload other now project table (evict_if_needed m)
            (fetch_table_schema engine conn_id project table h) spares)
          (Keeps-evict_if_needed m kept)
    Keeps-step (creating_download other now project table conn_id) m h done spares kept =
        rw
          (same-open_download other now project table conn_id (evict_if_needed m)
            (fetch_table_schema engine conn_id project table h))
          (Keeps-evict_if_needed m kept)
    Keeps-step (uploading other block_id rows) m h done spares kept =
        rw (same-upload_block other block_id rows m done kept) kept
    Keeps-step (committing other conn_id) m h done spares kept =
        rw (same-commit_upload other conn_id m h done kept) kept
    Keeps-step (cleaning now) m h done spares kept =
        let cutoff : ℕ = now - session_ttl_secs in
        let kept_uploads : TunnelSessionManager =
          remove_all (expired_ids cutoff (aged_uploads m.upload_sessions)) m in
        Keeps-remove_all (expired_ids cutoff (aged_downloads kept_uploads.download_sessions))
          kept_uploads
          (Keeps-remove_all (expired_ids cutoff (aged_uploads m.upload_sessions)) m kept)

    pub run-Keeps :
        (calls : List Call) (state : State engine)
        → s.status ≡ committed
        → All (SparesUpload id) calls
        → Keeps s (upload_at id state.0)
        → Keeps s (upload_at id (run engine calls state).0)
    unfolding run
    run-Keeps [] state done spares kept = kept
    run-Keeps (call ∷ calls) (m, h) done (here, spares) kept =
        run-Keeps calls (step engine call (m, h)) done spares (Keeps-step call m h done here kept)
