-- ===== src/Redis/Storage/Refinement.antt =====
-- crates/redis-protocol/src/storage.rs against the map of the entries that have not expired.
use roris_db.Prelude.{
  ℕ, ◌+◌, ◌≤◌, ◌≡◌, refl, ◌∙◌, ap, none, some, [], ◌∷◌, leb, if◌then◌else◌, arith, Option-cases,
  inl, inr,
}
use roris_db.Bytes.{Bytes, bytes_eq, bytes_eq_iff, bytes_eq_refl}
use roris_db.Table.{Table, lookup, contains_key, lookup-insert, HasUniqueKeys}
use roris_db.Redis.Storage.{
  RedisValue, Entry, Database, get, set_entry, exists, expire, ttl, drop_expired,
}
use roris_db.Redis.Storage.View.{
  live, value_of, is_some, seconds_left, get-value, exists-value, ttl-value, get-SameFrom,
  exists-SameFrom, ttl-SameFrom, live-set_entry,
}

-- GET, EXISTS and TTL read the same view of a key, and what each of them drops on the way changes
-- nothing that a reader sees from then on, under any key.
pub reads_refine :
    (now later : ℕ) (key : Bytes) (db : Database) (t : ℕ) (j : Bytes)
    → now ≤ t
    → ((get now later key db).0 ≡ value_of (live now key db))
      × ((exists now key db).0 ≡ is_some (live now key db))
      × ((ttl now key db).0 ≡ seconds_left now (live now key db))
      × (live t j (get now later key db).1 ≡ live t j db)
      × (live t j (exists now key db).1 ≡ live t j db)
      × (live t j (ttl now key db).1 ≡ live t j db)
reads_refine now later key db t j h = (
  get-value now key db later,
  exists-value now key db,
  ttl-value now key db,
  get-SameFrom now key db later t j h,
  exists-SameFrom now key db t j h,
  ttl-SameFrom now key db t j h,
)

-- A value written at `now` with a time to live `d` is returned by a read at `t` exactly while `t` is
-- at most `now + d`, whatever the key held before; other keys read as before.
pub get-set_entry :
    (now d t later : ℕ) (key j : Bytes) (value : RedisValue) (db : Database)
    → (get t later j (set_entry now key value (some d) db)).0 ≡ (
        if bytes_eq key j
        then (if leb t (now + d) then some value else none)
        else (get t later j db).0)
get-set_entry now d t later key j value db =
    get-value t j (set_entry now key value (some d) db) later
    ∙ ap value_of (live-set_entry now key db value (some d) t j)
    ∙ ground (arith, get-value t j db later)

-- EXPIRE sets the deadline of a stored key, and answers whether there is an entry under the key: it
-- does not look at the old deadline, so an entry that has expired but is still stored comes back.
pub get-expire :
    (now d t later : ℕ) (key : Bytes) (db : Database)
    → ((expire now key d db).0 ≡ contains_key key db.entries)
      × ((get t later key (expire now key d db).1).0
          ≡ (if leb t (now + d) then value_of (lookup key db.entries) else none))
unfolding expire get contains_key
get-expire now d t later key db = elim (Option-cases (lookup key db.entries)) [
  | inl none_there ↦ (ground arith, ground arith)
  | inr (e, there) ↦ (
    ground arith,
    ground (
      arith,
      lookup-insert key key (record e { expires_at = some (now + d) }) db.entries,
      bytes_eq_refl key,
    ),
  )
]

-- What KEYS leaves of a table whose keys are distinct is the entries that have not expired.
pub lookup-drop_expired :
    (now : ℕ) (j : Bytes) (m : Table Entry)
    → HasUniqueKeys m
    → lookup j (drop_expired now m) ≡ live now j (record { entries = m })
unfolding lookup drop_expired live
lookup-drop_expired now j [] h = refl
lookup-drop_expired now j ((k, e) ∷ m) h =
    ground (arith, lookup-drop_expired now j m h.1, h.0, bytes_eq_iff k j)
