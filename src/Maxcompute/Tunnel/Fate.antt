-- ===== src/Maxcompute/Tunnel/Fate.antt =====
-- crates/maxcompute-protocol/src/tunnel/session.rs: when a committed upload can go.
use roris_db.Prelude.{
  ℕ, ◌-◌, ◌≡◌, refl, sym, ap, ◌∙◌, Bool, true, false, ◌&&◌, ◌||◌, none, some, List, [], ◌∷◌, All,
  ◌⊎◌, inl, inr, leb, ltb, arith, Bool-cases,
}
use roris_db.Bytes.{Bytes, bytes_eq, bytes_eq_iff}
use roris_db.Table.{Table, lookup, lookup-remove, HasUniqueKeys}
use roris_db.Maxcompute.Tunnel.{
  committed, UploadSession, DownloadSession, TunnelSessionManager, Engine,
}
use roris_db.Maxcompute.Tunnel.Evict.{
  Aged, aged_uploads, aged_downloads, expired_ids, session_ttl_secs, remove_aged, remove_all,
  evict_if_needed, cleanup, total_sessions, max_sessions,
}
use roris_db.Maxcompute.Tunnel.Manager.{
  State, fetch_table_schema, create_upload_session, create_download_session,
}
use roris_db.Maxcompute.Tunnel.Steps.{
  Call, creating_upload, creating_download, uploading, committing, cleaning, step, run,
  SparesUpload,
}
use roris_db.Maxcompute.Tunnel.Invariant.{IsSound, step-IsSound}
use roris_db.Maxcompute.Tunnel.Frozen.{
  upload_at, same-upload_block, same-commit_upload, same-open_upload, same-open_download,
  Keeps-step, run-Keeps,
}

-- The call can remove the session: a session is created where a thousand are there, or a cleanup comes more
-- than an hour after the session was created.
unfoldable pub can_remove : UploadSession → Call → TunnelSessionManager → Bool
can_remove s (creating_upload id now project table conn_id) m = leb max_sessions (total_sessions m)
can_remove s (creating_download id now project table conn_id) m =
    leb max_sessions (total_sessions m)
can_remove s (cleaning now) m = ltb s.created_at (now - session_ttl_secs)
can_remove s _ m = false

-- One of the calls can, in the state that it comes to.
unfoldable pub some_can_remove :
    {H : Type 0} → Engine H → UploadSession → List Call → TunnelSessionManager × H → Bool
unfolding can_remove step
some_can_remove engine s [] state = false
some_can_remove engine s (call ∷ calls) state =
    can_remove s call state.0 || some_can_remove engine s calls (step engine call state)

-- The session at its age is not the upload.
abbrev Spared : Bytes → Aged → Type 0
Spared id a = (a.is_upload && bytes_eq a.id id) ≡ false

module _ (id : Bytes) (s : UploadSession) where
  same-remove_aged :
      (a : Aged) (m : TunnelSessionManager)
      → Spared id a
      → upload_at id (remove_aged a m) ≡ upload_at id m
  unfolding remove_aged
  same-remove_aged a m spared = ground (arith, lookup-remove a.id id m.upload_sessions)

  same-remove_all :
      (aged : List Aged) (m : TunnelSessionManager)
      → All (Spared id) aged
      → upload_at id (remove_all aged m) ≡ upload_at id m
  unfolding remove_all
  same-remove_all [] m spared = refl
  same-remove_all (a ∷ aged) m (here, spared) =
      same-remove_all aged (remove_aged a m) spared ∙ same-remove_aged a m here

  downloads-Spared :
      (cutoff : ℕ) (t : Table DownloadSession)
      → All (Spared id) (expired_ids cutoff (aged_downloads t))
  downloads-Spared cutoff [] = tt
  downloads-Spared cutoff ((k, d) ∷ t) = elim (Bool-cases (ltb d.created_at cutoff)) [
    | inl e ↦ rw e (refl, downloads-Spared cutoff t)
    | inr e ↦ rw e (downloads-Spared cutoff t)
  ]

  absent-Spared :
      (cutoff : ℕ) (t : Table UploadSession)
      → lookup id t ≡ none
      → All (Spared id) (expired_ids cutoff (aged_uploads t))
  unfolding lookup
  absent-Spared cutoff [] absent = tt
  absent-Spared cutoff ((k, u) ∷ t) absent = elim (Bool-cases (bytes_eq k id)) [
    | inl e ↦ absurd (ground (arith, absent))
    | inr e ↦
        let rest : All (Spared id) (expired_ids cutoff (aged_uploads t)) =
          absent-Spared cutoff t (sym (rw e refl) ∙ absent) in
        elim (Bool-cases (ltb u.created_at cutoff)) [ inl f ↦ rw f (e, rest) | inr f ↦ rw f rest ]
  ]

  uploads-Spared :
      (cutoff : ℕ) (t : Table UploadSession)
      → HasUniqueKeys t
      → lookup id t ≡ some s
      → ltb s.created_at cutoff ≡ false
      → All (Spared id) (expired_ids cutoff (aged_uploads t))
  unfolding lookup
  uploads-Spared cutoff [] unique there young = tt
  uploads-Spared cutoff ((k, u) ∷ t) (fresh, unique) there young =
      elim (Bool-cases (bytes_eq k id)) [
        | inl e ↦
            let same : k ≡ id = (bytes_eq_iff k id).0 e in
            let first : some u ≡ some s = sym (rw e refl) ∙ there in
            let kept : ltb u.created_at cutoff ≡ false =
              ap (λ o. elim o [ none ↦ false | some v ↦ ltb v.created_at cutoff ]) first ∙ young in
            rw kept (absent-Spared cutoff t (ap (λ j. lookup j t) (sym same) ∙ fresh))
        | inr e ↦
            let rest : All (Spared id) (expired_ids cutoff (aged_uploads t)) =
              uploads-Spared cutoff t unique (sym (rw e refl) ∙ there) young in
            elim (Bool-cases (ltb u.created_at cutoff)) [
              | inl f ↦ rw f (e, rest)
              | inr f ↦ rw f rest
            ]
      ]

  same-cleanup :
      (now : ℕ) (m : TunnelSessionManager)
      → HasUniqueKeys m.upload_sessions
      → upload_at id m ≡ some s
      → ltb s.created_at (now - session_ttl_secs) ≡ false
      → upload_at id (cleanup now m) ≡ upload_at id m
  unfolding cleanup
  same-cleanup now m unique there young =
      let cutoff : ℕ = now - session_ttl_secs in
      let old : List Aged = expired_ids cutoff (aged_uploads m.upload_sessions) in
      let kept : TunnelSessionManager = remove_all old m in
      same-remove_all (expired_ids cutoff (aged_downloads kept.download_sessions)) kept
        (downloads-Spared cutoff kept.download_sessions)
      ∙ same-remove_all old m (uploads-Spared cutoff m.upload_sessions unique there young)

  same-evict_if_needed :
      (m : TunnelSessionManager)
      → leb max_sessions (total_sessions m) ≡ false
      → evict_if_needed m ≡ m
  unfolding evict_if_needed
  same-evict_if_needed m room = rw room refl

  module _ {H : Type 0} (engine : Engine H) where
    -- A call that can not remove the session leaves it as it is.
    same-step :
        (call : Call) (m : TunnelSessionManager) (h : H)
        → IsSound m
        → s.status ≡ committed
        → SparesUpload id call
        → upload_at id m ≡ some s
        → can_remove s call m ≡ false
        → upload_at id (step engine call (m, h)).0 ≡ upload_at id m
    unfolding step create_upload_session create_download_session can_remove IsSound
    same-step (creating_upload other now project table conn_id) m h sound done spares there room =
        same-open_upload id s engine other now project table (evict_if_needed m)
          (fetch_table_schema engine conn_id project table h) spares
        ∙ ap (upload_at id) (same-evict_if_needed m room)
    same-step (creating_download other now project table conn_id) m h sound done spares there room =
        same-open_download id s engine other now project table conn_id (evict_if_needed m)
          (fetch_table_schema engine conn_id project table h)
        ∙ ap (upload_at id) (same-evict_if_needed m room)
    same-step (uploading other block_id rows) m h sound done spares there room =
        same-upload_block id s other block_id rows m done (inr there)
    same-step (committing other conn_id) m h sound done spares there room =
        same-commit_upload id s engine other conn_id m h done (inr there)
    same-step (cleaning now) m h ((ups, downs), bound) done spares there young =
        same-cleanup now m ups there young

    run_fate :
        (calls : List Call) (state : State engine)
        → IsSound state.0
        → s.status ≡ committed
        → All (SparesUpload id) calls
        → upload_at id state.0 ≡ some s
        → (upload_at id (run engine calls state).0 ≡ some s)
          ⊎ ((upload_at id (run engine calls state).0 ≡ none)
              × (some_can_remove engine s calls state ≡ true))
    unfolding run some_can_remove
    run_fate [] state sound done spares there = inl there
    run_fate (call ∷ calls) (m, h) sound done (here, spares) there =
        elim (Bool-cases (can_remove s call m)) [
          | inl e ↦
              elim (run-Keeps id s engine calls (step engine call (m, h)) done spares
                (Keeps-step id s engine call m h done here (inr there))) [
                  | inl gone ↦ inr (gone, rw e refl)
                  | inr still ↦ inl still
                ]
          | inr e ↦ rw e (
              run_fate calls (step engine call (m, h)) (step-IsSound engine call (m, h) sound) done
                spares (same-step call m h sound done here there e ∙ there))
        ]

-- Let the identifiers be distinct and the sessions no more than a thousand, and let no new session get the
-- identifier of an upload that is committed. Then no sequence of calls changes the upload, whatever the
-- handler answers: at the end it is there as it was, or it is gone, and then one of the calls created a
-- session where a thousand were there, or cleaned up more than an hour after the upload was created.
pub run-committed :
    {H : Type 0} (engine : Engine H) (id : Bytes) (s : UploadSession) (calls : List Call)
    (state : State engine)
    → IsSound state.0
    → lookup id state.0.upload_sessions ≡ some s
    → s.status ≡ committed
    → All (SparesUpload id) calls
    → (lookup id (run engine calls state).0.upload_sessions ≡ some s)
      ⊎ ((lookup id (run engine calls state).0.upload_sessions ≡ none)
          × (some_can_remove engine s calls state ≡ true))
run-committed engine id s calls state sound there done spares =
    run_fate id s engine calls state sound done spares there
