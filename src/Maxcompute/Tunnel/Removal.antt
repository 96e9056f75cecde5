-- ===== src/Maxcompute/Tunnel/Removal.antt =====
-- crates/maxcompute-protocol/src/tunnel/session.rs: how many sessions are left when some are removed.
use roris_db.Prelude.{
  suc, ◌+◌, ◌≤◌, ◌≡◌, true, List, [], ◌∷◌, All, length, if◌then◌else◌, arith, Bool-cases, inl, inr,
}
use roris_db.Bytes.{Bytes}
use roris_db.Table.{
  Table, contains_key, remove, HasUniqueKeys, lookup-remove, length-remove, remove-HasUniqueKeys,
}
use roris_db.Maxcompute.Tunnel.{TunnelSessionManager}
use roris_db.Maxcompute.Tunnel.Evict.{total_sessions, Aged, remove_aged, remove_all}
use roris_db.Maxcompute.Tunnel.Aged.{Differs, IsDistinct}

-- No key stands twice in either table.
abbrev pub HasUniqueIds : TunnelSessionManager → Type 0
HasUniqueIds m = HasUniqueKeys m.upload_sessions × HasUniqueKeys m.download_sessions

abbrev pub IsPresent : TunnelSessionManager → Aged → Type 0
IsPresent m a =
    (if a.is_upload
      then contains_key a.id m.upload_sessions
      else contains_key a.id m.download_sessions)
    ≡ true

total-remove_aged :
    (a : Aged) (m : TunnelSessionManager)
    → HasUniqueIds m
    → IsPresent m a
    → suc (total_sessions (remove_aged a m)) ≡ total_sessions m
unfolding remove_aged
total-remove_aged a m (ups, downs) present =
    ground (
      arith,
      length-remove a.id m.upload_sessions ups,
      length-remove a.id m.download_sessions downs,
    )

remove_aged-HasUniqueIds :
    (a : Aged) (m : TunnelSessionManager) → HasUniqueIds m → HasUniqueIds (remove_aged a m)
unfolding remove_aged
remove_aged-HasUniqueIds a m (ups, downs) = elim (Bool-cases a.is_upload) [
  | inl up ↦ rw up (remove-HasUniqueKeys a.id m.upload_sessions ups, downs)
  | inr down ↦ rw down (ups, remove-HasUniqueKeys a.id m.download_sessions downs)
]

-- Another session stays present.
IsPresent-remove_aged :
    (a b : Aged) (m : TunnelSessionManager)
    → Differs a b
    → IsPresent m b
    → IsPresent (remove_aged a m) b
unfolding remove_aged contains_key
IsPresent-remove_aged a b m differs present =
    ground (
      arith,
      lookup-remove a.id b.id m.upload_sessions,
      lookup-remove a.id b.id m.download_sessions,
    )

still-IsPresent :
    (a : Aged) (aged : List Aged) (m : TunnelSessionManager)
    → All (Differs a) aged
    → All (IsPresent m) aged
    → All (IsPresent (remove_aged a m)) aged
still-IsPresent a [] m fresh present = tt
still-IsPresent a (b ∷ aged) m (differs, fresh) (here, present) =
    (IsPresent-remove_aged a b m differs here, still-IsPresent a aged m fresh present)

-- The length falls by the number of the sessions removed.
pub total-remove_all :
    (aged : List Aged) (m : TunnelSessionManager)
    → HasUniqueIds m
    → All (IsPresent m) aged
    → IsDistinct aged
    → total_sessions (remove_all aged m) + length aged ≡ total_sessions m
unfolding remove_all
total-remove_all [] m unique present distinct = omega arith
total-remove_all (a ∷ aged) m unique (here, present) (fresh, distinct) = omega (
  arith,
  total-remove_aged a m unique here,
  total-remove_all aged (remove_aged a m) (remove_aged-HasUniqueIds a m unique)
      (still-IsPresent a aged m fresh present) distinct,
)

pub remove_all-HasUniqueIds :
    (aged : List Aged) (m : TunnelSessionManager)
    → HasUniqueIds m
    → HasUniqueIds (remove_all aged m)
unfolding remove_all
remove_all-HasUniqueIds [] m unique = unique
remove_all-HasUniqueIds (a ∷ aged) m unique =
    remove_all-HasUniqueIds aged (remove_aged a m) (remove_aged-HasUniqueIds a m unique)

length-remove-le {ℓ} : {V : Type ℓ} (k : Bytes) (t : Table V) → length (remove k t) ≤ length t
unfolding remove
length-remove-le k [] = omega arith
length-remove-le k ((j, v) ∷ t) = ground (arith, length-remove-le k t)

total-remove_aged-le :
    (a : Aged) (m : TunnelSessionManager) → total_sessions (remove_aged a m) ≤ total_sessions m
unfolding remove_aged
total-remove_aged-le a m =
    ground
      (arith, length-remove-le a.id m.upload_sessions, length-remove-le a.id m.download_sessions)

pub total-remove_all-le :
    (aged : List Aged) (m : TunnelSessionManager)
    → total_sessions (remove_all aged m) ≤ total_sessions m
unfolding remove_all
total-remove_all-le [] m = omega arith
total-remove_all-le (a ∷ aged) m =
    omega (arith, total-remove_aged-le a m, total-remove_all-le aged (remove_aged a m))
