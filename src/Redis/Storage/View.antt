-- ===== src/Redis/Storage/View.antt =====
-- crates/redis-protocol/src/storage.rs: what the clients of a database can see of it, at each time a
-- map from keys to the entries that have not expired.
use roris_db.Prelude.{
  ℕ, ◌+◌, ◌-◌, ◌/◌, ◌≤◌, ◌≡◌, Bool, true, false, Option, none, some, ltb, if◌then◌else◌, ℤ, pos,
  negsuc, arith,
}
use roris_db.Bytes.{Bytes, bytes_eq, bytes_eq_iff}
use roris_db.Table.{lookup, lookup-insert, lookup-remove}
use roris_db.Redis.Storage.{
  RedisValue, Entry, Database, deadline, is_expired, get, set_entry, del, exists, ttl, nanos,
}

-- The entry of a key that a client sees at a time.
unfoldable pub live : ℕ → Bytes → Database → Option Entry
unfolding is_expired
live now key db = elim (lookup key db.entries) [
  | none ↦ none
  | some e ↦ if is_expired now e then none else some e
]

abbrev pub value_of : Option Entry → Option RedisValue
value_of none = none
value_of (some e) = some e.value

abbrev pub is_some {ℓ} : {A : Type ℓ} → Option A → Bool
is_some none = false
is_some (some a) = true

-- what `ttl` returns for an entry
abbrev pub seconds_left : ℕ → Option Entry → ℤ
seconds_left now none = negsuc 1
seconds_left now (some e) = elim e.expires_at [ none ↦ negsuc 0 | some t ↦ pos ((t - now) / nanos) ]

-- Two databases that a client cannot tell apart from a time on.
abbrev pub SameFrom : ℕ → Database → Database → Type 0
SameFrom now a b = (t : ℕ) (j : Bytes) → now ≤ t → live t j a ≡ live t j b

module _ (now : ℕ) (key : Bytes) (db : Database) where
  pub get-value : (later : ℕ) → (get now later key db).0 ≡ value_of (live now key db)
  unfolding get live
  get-value later = ground arith

  pub exists-value : (exists now key db).0 ≡ is_some (live now key db)
  unfolding exists live
  exists-value = ground arith

  pub ttl-value : (ttl now key db).0 ≡ seconds_left now (live now key db)
  unfolding ttl live
  ttl-value = ground arith

  pub get-SameFrom : (later : ℕ) → SameFrom now (get now later key db).1 db
  unfolding get live
  get-SameFrom later t j h = ground (arith, lookup-remove key j db.entries, bytes_eq_iff key j)

  pub exists-SameFrom : SameFrom now (exists now key db).1 db
  unfolding exists live
  exists-SameFrom t j h = ground (arith, lookup-remove key j db.entries, bytes_eq_iff key j)

  pub ttl-SameFrom : SameFrom now (ttl now key db).1 db
  unfolding ttl live
  ttl-SameFrom t j h = ground (arith, lookup-remove key j db.entries, bytes_eq_iff key j)

  -- A write is seen under its key until its deadline has passed, and nothing else changes.
  pub live-set_entry :
      (value : RedisValue) (d : Option ℕ) (t : ℕ) (j : Bytes)
      → live t j (set_entry now key value d db) ≡ (
          if bytes_eq key j
          then elim (deadline now d) [
            | none ↦ some (record { value = value; expires_at = none })
            | some end ↦
                if ltb end t then none else some (record { value = value; expires_at = some end })
          ]
          else live t j db)
  unfolding live set_entry
  live-set_entry value none t j =
      ground (arith, lookup-insert key j (record { value = value; expires_at = none }) db.entries)
  live-set_entry value (some d) t j = ground (
    arith,
    lookup-insert key j (record { value = value; expires_at = some (now + d) }) db.entries,
  )

  pub live-del :
      (t : ℕ) (j : Bytes) → live t j (del key db).1 ≡ (if bytes_eq key j then none else live t j db)
  unfolding live del
  live-del t j = ground (arith, lookup-remove key j db.entries, bytes_eq_iff key j)
