-- ===== src/Maxcompute/Tunnel/Capacity.antt =====
-- crates/maxcompute-protocol/src/tunnel/session.rs: how many sessions an eviction leaves.
use Prim.Native.Nat.{min}
use roris_db.Prelude.{
  ℕ, ◌+◌, ◌-◌, ◌<◌, ◌≡◌, refl, true, false, none, List, [], ◌∷◌, ◌++◌, All, length, take, leb,
  leb→le, arith, Bool-cases, inl, inr,
}
use roris_db.Bytes.{Bytes, bytes_eq_iff, bytes_eq_refl}
use roris_db.Table.{Table, lookup, contains_key, HasUniqueKeys}
use roris_db.Maxcompute.Tunnel.{UploadSession, DownloadSession, TunnelSessionManager}
use roris_db.Maxcompute.Tunnel.Evict.{
  total_sessions, Aged, aged_uploads, aged_downloads, sort_aged, remove_all, evict_oldest,
}
use roris_db.Maxcompute.Tunnel.Aged.{
  Differs, IsDistinct, All-append, All-take, All-sort_aged, take-IsDistinct, sort_aged-IsDistinct,
  length-take, length-sort_aged,
}
use roris_db.Maxcompute.Tunnel.Removal.{
  HasUniqueIds, IsPresent, total-remove_all, remove_all-HasUniqueIds,
}

-- the sessions of both tables
abbrev all_aged : TunnelSessionManager → List Aged
all_aged m = aged_uploads m.upload_sessions ++ aged_downloads m.download_sessions

upload-Differs :
    (k : Bytes) (n : ℕ) (t : Table UploadSession)
    → lookup k t ≡ none
    → All (Differs (record { id = k; created_at = n; is_upload = true })) (aged_uploads t)
unfolding lookup
upload-Differs k n [] absent = tt
upload-Differs k n ((j, s) ∷ t) absent =
    (ground (arith, bytes_eq_iff k j, bytes_eq_iff j k), upload-Differs k n t (ground arith))

download-Differs :
    (k : Bytes) (n : ℕ) (t : Table DownloadSession)
    → lookup k t ≡ none
    → All (Differs (record { id = k; created_at = n; is_upload = false })) (aged_downloads t)
unfolding lookup
download-Differs k n [] absent = tt
download-Differs k n ((j, s) ∷ t) absent =
    (ground (arith, bytes_eq_iff k j, bytes_eq_iff j k), download-Differs k n t (ground arith))

-- An upload is no download.
kinds_differ :
    (k : Bytes) (n : ℕ) (t : Table DownloadSession)
    → All (Differs (record { id = k; created_at = n; is_upload = true })) (aged_downloads t)
kinds_differ k n [] = tt
kinds_differ k n ((j, s) ∷ t) = (refl, kinds_differ k n t)

downloads-IsDistinct : (t : Table DownloadSession) → HasUniqueKeys t → IsDistinct (aged_downloads t)
downloads-IsDistinct [] unique = tt
downloads-IsDistinct ((k, s) ∷ t) (absent, unique) =
    (download-Differs k s.created_at t absent, downloads-IsDistinct t unique)

uploads-IsDistinct :
    (t : Table UploadSession) (d : Table DownloadSession)
    → HasUniqueKeys t
    → HasUniqueKeys d
    → IsDistinct (aged_uploads t ++ aged_downloads d)
uploads-IsDistinct [] d unique downs = downloads-IsDistinct d downs
uploads-IsDistinct ((k, s) ∷ t) d (absent, unique) downs =
    let a : Aged = record { id = k; created_at = s.created_at; is_upload = true } in
    (
      All-append (Differs a) (aged_uploads t) (aged_downloads d)
          (upload-Differs k s.created_at t absent) (kinds_differ k s.created_at d),
      uploads-IsDistinct t d unique downs,
    )

uploads-IsPresent :
    (m : TunnelSessionManager) (t : Table UploadSession)
    → ((k : Bytes) → contains_key k t ≡ true → contains_key k m.upload_sessions ≡ true)
    → All (IsPresent m) (aged_uploads t)
unfolding contains_key lookup
uploads-IsPresent m [] within = tt
uploads-IsPresent m ((k, s) ∷ t) within = (
  within k (ground (arith, bytes_eq_refl k)),
  uploads-IsPresent m t (λ j there. within j (ground arith)),
)

downloads-IsPresent :
    (m : TunnelSessionManager) (t : Table DownloadSession)
    → ((k : Bytes) → contains_key k t ≡ true → contains_key k m.download_sessions ≡ true)
    → All (IsPresent m) (aged_downloads t)
unfolding contains_key lookup
downloads-IsPresent m [] within = tt
downloads-IsPresent m ((k, s) ∷ t) within = (
  within k (ground (arith, bytes_eq_refl k)),
  downloads-IsPresent m t (λ j there. within j (ground arith)),
)

length-all_aged :
    (t : Table UploadSession) (d : Table DownloadSession)
    → length (aged_uploads t ++ aged_downloads d) ≡ length t + length d
length-all_aged [] [] = refl
length-all_aged [] ((k, s) ∷ d) = omega (arith, length-all_aged [] d)
length-all_aged ((k, s) ∷ t) d = omega (arith, length-all_aged t d)

-- An eviction leaves as many sessions as it is told to, or those that there are.
pub total-evict_oldest :
    (target : ℕ) (m : TunnelSessionManager)
    → HasUniqueIds m
    → total_sessions (evict_oldest target m) ≡ min target (total_sessions m)
unfolding evict_oldest
total-evict_oldest target m unique = elim (Bool-cases (leb (total_sessions m) target)) [
  | inl e ↦ rw e (omega (arith, leb→le (total_sessions m) target e))
  | inr e ↦
      let excess : ℕ = total_sessions m - target in
      let gone : List Aged = take excess (sort_aged (all_aged m)) in
      let present : All (IsPresent m) (all_aged m) =
        All-append (IsPresent m) (aged_uploads m.upload_sessions)
          (aged_downloads m.download_sessions) (uploads-IsPresent m m.upload_sessions (λ k h. h))
          (downloads-IsPresent m m.download_sessions (λ k h. h)) in
      let removed : total_sessions (remove_all gone m) + length gone ≡ total_sessions m =
        total-remove_all gone m unique
          (All-take (IsPresent m) excess (sort_aged (all_aged m))
            (All-sort_aged (IsPresent m) (all_aged m) present))
          (take-IsDistinct excess (sort_aged (all_aged m)) (
            sort_aged-IsDistinct (all_aged m)
              (uploads-IsDistinct m.upload_sessions m.download_sessions unique.0 unique.1))) in
      let above : target < total_sessions m = ground arith in
      rw e (
        omega (
          arith,
          removed,
          above,
          length-take excess (sort_aged (all_aged m)),
          length-sort_aged (all_aged m),
          length-all_aged m.upload_sessions m.download_sessions,
        ))
]

pub evict_oldest-HasUniqueIds :
    (target : ℕ) (m : TunnelSessionManager) → HasUniqueIds m → HasUniqueIds (evict_oldest target m)
unfolding evict_oldest
evict_oldest-HasUniqueIds target m unique = elim (Bool-cases (leb (total_sessions m) target)) [
  | inl e ↦ rw e unique
  | inr e ↦
      rw e (
        remove_all-HasUniqueIds (take (total_sessions m - target) (sort_aged (all_aged m))) m
          unique)
]
