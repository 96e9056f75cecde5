-- ===== src/Maxcompute/Tunnel/Commit.antt =====
-- crates/maxcompute-protocol/src/tunnel/session.rs: what a commit does, and does only once.
use roris_db.Prelude.{ℕ, ◌≡◌, refl, ◌∙◌, some, List, [], ◌∷◌, Bool-cases, Option-cases, inl, inr}
use roris_db.Bytes.{Bytes, bytes_eq_refl}
use roris_db.Table.{lookup, lookup-insert}
use roris_db.Maxcompute.Tunnel.{Row, committed, UploadSession, TunnelSessionManager, Engine}
use roris_db.Maxcompute.Tunnel.Blocks.{all_rows}
use roris_db.Maxcompute.Tunnel.Sql.{build_insert_sql}
use roris_db.Maxcompute.Tunnel.Manager.{
  TunnelError, ok, err, panicked, cannot_be_committed, not_in_normal_state, is_normal, upload_block,
  mark_committed, insert_rows, commit_sql, commit_rows, commit_upload, has_error,
}

-- the status of the session that the answer speaks of
IsDone : Bytes → TunnelSessionManager → Type 0
IsDone id m = (s : UploadSession) × (lookup id m.upload_sessions ≡ some s) × (s.status ≡ committed)

mark_committed-IsDone :
    (id : Bytes) (s : UploadSession) (m : TunnelSessionManager) → IsDone id (mark_committed id s m)
unfolding IsDone mark_committed
mark_committed-IsDone id s m = (
  record s { status = committed },
  lookup-insert id id (record s { status = committed }) m.upload_sessions
      ∙ rw (bytes_eq_refl id) refl,
  refl,
)

err_ok : (e : TunnelError) (ids : List ℕ) → err e ≡ ok ids → ⊥
err_ok e ids h = cc

panicked_ok : (ids : List ℕ) → panicked ≡ ok ids → ⊥
panicked_ok ids h = cc

module _ {H : Type 0} (engine : Engine H) (id : Bytes) (conn_id : ℕ) (ids : List ℕ) where
  commit_rows-IsDone :
      (s : UploadSession) (rows : List Row) (m : TunnelSessionManager) (h : H)
      → (commit_rows engine id conn_id s rows (m, h)).0 ≡ ok ids
      → IsDone id (commit_rows engine id conn_id s rows (m, h)).1.0
  unfolding commit_rows commit_sql insert_rows
  commit_rows-IsDone s [] m h = λ e. mark_committed-IsDone id s m
  commit_rows-IsDone s (row ∷ rows) m h =
      elim (Option-cases (build_insert_sql engine.to_uppercase s (row ∷ rows))) [
        | inl built ↦ rw built (λ e. absurd (panicked_ok ids e))
        | inr (sql, built) ↦
            rw built
              (elim (Bool-cases (
                has_error engine.to_uppercase
                  (engine.handle_query conn_id sql
                    (engine.set_database conn_id s.project h)).0.columns)) [
                      | inl f ↦ rw f (λ e. absurd (err_ok _ ids e))
                      | inr f ↦ rw f (λ e. mark_committed-IsDone id s m)
                    ])
      ]

  commit_upload-IsDone :
      (m : TunnelSessionManager) (h : H)
      → (commit_upload engine id conn_id (m, h)).0 ≡ ok ids
      → IsDone id (commit_upload engine id conn_id (m, h)).1.0
  unfolding commit_upload
  commit_upload-IsDone m h = elim (Option-cases (lookup id m.upload_sessions)) [
    | inl e ↦ rw (e, commit_upload) (λ f. absurd (err_ok _ ids f))
    | inr (s, e) ↦ elim (Bool-cases (is_normal s.status)) [
      | inl f ↦ rw (e, commit_upload, f) (commit_rows-IsDone s (all_rows s.blocks) m h)
      | inr f ↦ rw (e, commit_upload, f) (λ g. absurd (err_ok _ ids g))
    ]
  ]

IsDone-refused :
    {H : Type 0} (engine : Engine H) (id : Bytes) (conn_id block_id : ℕ) (rows : List Row)
    (m : TunnelSessionManager) (h : H)
    → IsDone id m
    → (commit_upload engine id conn_id (m, h) ≡ (err (cannot_be_committed id committed), (m, h)))
      × (upload_block id block_id rows m ≡ (err (not_in_normal_state id committed), m))
unfolding IsDone commit_upload upload_block
IsDone-refused engine id conn_id block_id rows m h (s, there, done) =
    (rw (there, commit_upload, done) refl, rw (there, upload_block, done) refl)

-- What a commit of the rows has asked of the handler: nothing if there are none, and otherwise the one
-- statement that inserts them.
abbrev pub AskedOnce : {H : Type 0} → Engine H → ℕ → UploadSession → List Row → H → H → Type 0
AskedOnce engine conn_id s [] h h' = h' ≡ h
AskedOnce engine conn_id s (row ∷ rows) h h' =
    (sql : Bytes) × (build_insert_sql engine.to_uppercase s (row ∷ rows) ≡ some sql)
    × (h' ≡ (engine.handle_query conn_id sql (engine.set_database conn_id s.project h)).1)

module _ {H : Type 0} (engine : Engine H) (id : Bytes) (conn_id : ℕ) (ids : List ℕ) where
  commit_rows-AskedOnce :
      (s : UploadSession) (rows : List Row) (m : TunnelSessionManager) (h : H)
      → (commit_rows engine id conn_id s rows (m, h)).0 ≡ ok ids
      → AskedOnce engine conn_id s rows h (commit_rows engine id conn_id s rows (m, h)).1.1
  unfolding commit_rows commit_sql insert_rows
  commit_rows-AskedOnce s [] m h = λ e. refl
  commit_rows-AskedOnce s (row ∷ rows) m h =
      elim (Option-cases (build_insert_sql engine.to_uppercase s (row ∷ rows))) [
        | inl built ↦ rw built (λ e. absurd (panicked_ok ids e))
        | inr (sql, built) ↦
            rw built
              (elim (Bool-cases (
                has_error engine.to_uppercase
                  (engine.handle_query conn_id sql
                    (engine.set_database conn_id s.project h)).0.columns)) [
                      | inl f ↦ rw f (λ e. absurd (err_ok _ ids e))
                      | inr f ↦ rw f (λ e. (sql, refl, refl))
                    ])
      ]

  commit_upload-AskedOnce :
      (m : TunnelSessionManager) (h : H)
      → (commit_upload engine id conn_id (m, h)).0 ≡ ok ids
      → (s : UploadSession) × (lookup id m.upload_sessions ≡ some s)
        × AskedOnce engine conn_id s
            (all_rows s.blocks)
            h
            (commit_upload engine id conn_id (m, h)).1.1
  unfolding commit_upload
  commit_upload-AskedOnce m h = elim (Option-cases (lookup id m.upload_sessions)) [
    | inl e ↦ rw (e, commit_upload) (λ f. absurd (err_ok _ ids f))
    | inr (s, e) ↦ elim (Bool-cases (is_normal s.status)) [
      | inl f ↦
          rw (e, commit_upload, f)
            (λ g. (s, refl, commit_rows-AskedOnce s (all_rows s.blocks) m h g))
      | inr f ↦ rw (e, commit_upload, f) (λ g. absurd (err_ok _ ids g))
    ]
  ]

-- A commit that is answered with the blocks' numbers has asked the handler for one INSERT of the rows of all
-- blocks, or for nothing if there are no rows. After it a second commit of the session is refused without a
-- query, and so is another block: the manager and the handler stay as they are.
pub commit_upload-commit_upload :
    {H : Type 0} (engine : Engine H) (id : Bytes) (conn_id again block_id : ℕ) (rows : List Row)
    (ids : List ℕ) (m : TunnelSessionManager) (h : H)
    → (commit_upload engine id conn_id (m, h)).0 ≡ ok ids
    → ((s : UploadSession) × (lookup id m.upload_sessions ≡ some s)
        × AskedOnce engine conn_id s
            (all_rows s.blocks)
            h
            (commit_upload engine id conn_id (m, h)).1.1)
      × (commit_upload engine id again (commit_upload engine id conn_id (m, h)).1
          ≡ (err (cannot_be_committed id committed), (commit_upload engine id conn_id (m, h)).1))
      × (upload_block id block_id rows (commit_upload engine id conn_id (m, h)).1.0
          ≡ (err (not_in_normal_state id committed), (commit_upload engine id conn_id (m, h)).1.0))
commit_upload-commit_upload engine id conn_id again block_id rows ids m h e =
    let (m', h') = (commit_upload engine id conn_id (m, h)).1 in
    let (second, block) =
      IsDone-refused engine id again block_id rows m' h'
        (commit_upload-IsDone engine id conn_id ids m h e) in
    (commit_upload-AskedOnce engine id conn_id ids m h e, second, block)
