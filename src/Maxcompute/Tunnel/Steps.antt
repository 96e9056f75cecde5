-- ===== src/Maxcompute/Tunnel/Steps.antt =====
-- crates/maxcompute-protocol/src/tunnel/session.rs: the calls of the manager that change it, as steps.
use roris_db.Prelude.{ℕ, ◌≡◌, false, List, [], ◌∷◌}
use roris_db.Bytes.{Bytes, bytes_eq}
use roris_db.Maxcompute.Tunnel.{Row, Engine}
use roris_db.Maxcompute.Tunnel.Evict.{cleanup}
use roris_db.Maxcompute.Tunnel.Manager.{
  State, upload_block, create_upload_session, commit_upload, create_download_session,
}

-- A session that is created has its new identifier and the time.
pub data Call : Type 0 where
  creating_upload creating_download : Bytes → ℕ → Bytes → Bytes → ℕ → Call
  uploading : Bytes → ℕ → List Row → Call
  committing : Bytes → ℕ → Call
  cleaning : ℕ → Call

module _ {H : Type 0} (engine : Engine H) where
  unfoldable pub step : Call → State engine → State engine
  unfolding upload_block create_upload_session commit_upload create_download_session cleanup
  step (creating_upload id now project table conn_id) state =
      (create_upload_session engine id now project table conn_id state).1
  step (creating_download id now project table conn_id) state =
      (create_download_session engine id now project table conn_id state).1
  step (uploading id block_id rows) (m, h) = ((upload_block id block_id rows m).1, h)
  step (committing id conn_id) state = (commit_upload engine id conn_id state).1
  step (cleaning now) (m, h) = (cleanup now m, h)

  unfoldable pub run : List Call → State engine → State engine
  unfolding step
  run [] state = state
  run (call ∷ calls) state = run calls (step call state)

-- The call gives no new session the identifier: identifiers are random UUIDs.
abbrev pub SparesUpload : Bytes → Call → Type 0
SparesUpload id (creating_upload other now project table conn_id) = bytes_eq other id ≡ false
SparesUpload id _ = Unit
