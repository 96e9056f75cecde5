-- ===== src/Maxcompute/Tunnel/Evict.antt =====
-- crates/maxcompute-protocol/src/tunnel/session.rs: the sessions that go when there are too many, and those
-- that have expired.
use roris_db.Prelude.{
  ℕ, ◌+◌, ◌-◌, Bool, true, false, List, [], ◌∷◌, ◌++◌, length, take, ltb, leb, if◌then◌else◌,
}
use roris_db.Bytes.{Bytes}
use roris_db.Table.{Table, remove}
use roris_db.Maxcompute.Tunnel.{UploadSession, DownloadSession, TunnelSessionManager}

abbrev pub max_sessions : ℕ
max_sessions = 1000

abbrev pub eviction_target : ℕ
eviction_target = 800

abbrev pub session_ttl_secs : ℕ
session_ttl_secs = 3600

abbrev pub total_sessions : TunnelSessionManager → ℕ
total_sessions m = length m.upload_sessions + length m.download_sessions

-- a session's key, its age, and whether it is an upload
pub record Aged : Type 0 where
  pub id : Bytes
  pub created_at : ℕ
  pub is_upload : Bool

abbrev pub aged_uploads : Table UploadSession → List Aged
aged_uploads [] = []
aged_uploads ((k, s) ∷ sessions) =
    record { id = k; created_at = s.created_at; is_upload = true } ∷ aged_uploads sessions

abbrev pub aged_downloads : Table DownloadSession → List Aged
aged_downloads [] = []
aged_downloads ((k, s) ∷ sessions) =
    record { id = k; created_at = s.created_at; is_upload = false } ∷ aged_downloads sessions

-- `sort_by(|a, b| a.1.cmp(&b.1))`: a stable sort, the oldest first
unfoldable pub insert_aged : Aged → List Aged → List Aged
insert_aged a [] = a ∷ []
insert_aged a (b ∷ aged) =
    let rest = insert_aged a aged in
    if leb a.created_at b.created_at then a ∷ b ∷ aged else b ∷ rest

unfoldable pub sort_aged : List Aged → List Aged
unfolding insert_aged
sort_aged [] = []
sort_aged (a ∷ aged) = insert_aged a (sort_aged aged)

unfoldable pub remove_aged : Aged → TunnelSessionManager → TunnelSessionManager
remove_aged a m =
    if a.is_upload
    then record m { upload_sessions = remove a.id m.upload_sessions }
    else record m { download_sessions = remove a.id m.download_sessions }

unfoldable pub remove_all : List Aged → TunnelSessionManager → TunnelSessionManager
unfolding remove_aged
remove_all [] m = m
remove_all (a ∷ aged) m = remove_all aged (remove_aged a m)

unfoldable pub evict_oldest : ℕ → TunnelSessionManager → TunnelSessionManager
unfolding sort_aged remove_all
evict_oldest target m =
    if leb (total_sessions m) target
    then m
    else remove_all
        (take (total_sessions m - target)
          (sort_aged (aged_uploads m.upload_sessions ++ aged_downloads m.download_sessions)))
        m

unfoldable pub evict_if_needed : TunnelSessionManager → TunnelSessionManager
unfolding evict_oldest
evict_if_needed m =
    if leb max_sessions (total_sessions m) then evict_oldest eviction_target m else m

-- What `filter(|r| r.value().created_at < cutoff)` leaves. Times are not negative, so that a cutoff before
-- the first of them is that one.
abbrev pub expired_ids : ℕ → List Aged → List Aged
expired_ids cutoff [] = []
expired_ids cutoff (a ∷ aged) =
    let rest = expired_ids cutoff aged in if ltb a.created_at cutoff then a ∷ rest else rest

unfoldable pub cleanup : ℕ → TunnelSessionManager → TunnelSessionManager
unfolding remove_all
cleanup now m =
    let cutoff : ℕ = now - session_ttl_secs in
    let kept : TunnelSessionManager =
      remove_all (expired_ids cutoff (aged_uploads m.upload_sessions)) m in
    remove_all (expired_ids cutoff (aged_downloads kept.download_sessions)) kept
