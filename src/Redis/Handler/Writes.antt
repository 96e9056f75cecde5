-- ===== src/Redis/Handler/Writes.antt =====
-- crates/redis-protocol/src/handler.rs, `cmd_set`: the options NX and XX and the time to live.
use roris_db.Prelude.{
  ℕ, ◌≤◌, ◌≡◌, ap, ◌∙◌, Bool, true, false, not, ◌&&◌, ◌||◌, Option, none, some, ltb, if◌then◌else◌,
  arith,
}
use roris_db.Bytes.{Bytes, bytes_eq}
use roris_db.Resp.Encoder.{null_reply, ok_reply}
use roris_db.Redis.Storage.{RedisValue, string, Entry, Database, set_entry, exists, deadline}
use roris_db.Redis.Storage.View.{live, is_some, exists-value, exists-SameFrom, live-set_entry}
use roris_db.Redis.Runtime.{Clock}
use roris_db.Redis.Handler.Strings.{SetOptions, set_on}

-- NX wants the key absent, XX wants it present.
abbrev pub refused : Clock → Bytes → SetOptions → Database → Bool
refused clock key o db =
    o.nx && is_some (live (clock 0) key db) || o.xx && not (is_some (live (clock 1) key db))

-- the entry that a write leaves
abbrev pub written_entry : RedisValue → Option ℕ → ℕ → Option Entry
written_entry value none t = some (record { value = value; expires_at = none })
written_entry value (some end) t =
    if ltb end t then none else some (record { value = value; expires_at = some end })

-- A write, by its deadline.
pub written-live :
    (now : ℕ) (key : Bytes) (value : RedisValue) (ttl : Option ℕ) (db : Database) (t : ℕ)
    (j : Bytes)
    → live t j (set_entry now key value ttl db)
      ≡ (if bytes_eq key j then written_entry value (deadline now ttl) t else live t j db)
written-live now key value none db t j = live-set_entry now key db value none t j
written-live now key value (some d) db t j = live-set_entry now key db value (some d) t j

module _ (clock : Clock) (key value : Bytes) (db : Database) (in_order : clock 0 ≤ clock 1) where
  later_exists :
      (exists (clock 1) key (exists (clock 0) key db).1).0 ≡ is_some (live (clock 1) key db)
  later_exists =
      exists-value (clock 1) key (exists (clock 0) key db).1
      ∙ ap is_some (exists-SameFrom (clock 0) key db (clock 1) key in_order)

  -- Where the clock does not go back between its two look-ups, SET answers OK, or null when NX or XX
  -- refuses it.
  pub set_on-reply :
      (o : SetOptions)
      → (set_on clock key value o db).0 ≡ (if refused clock key o db then null_reply else ok_reply)
  unfolding set_on
  set_on-reply o =
      ground (arith, exists-value (clock 0) key db, exists-value (clock 1) key db, later_exists)

  abbrev after_two : Database
  after_two = (exists (clock 1) key (exists (clock 0) key db).1).1

  -- SET NX XX, its two look-ups written out
  set_both :
      (ttl : Option ℕ)
      → set_on clock key value (record { ttl = ttl; nx = true; xx = true }) db ≡ (
          if (exists (clock 0) key db).0
          then (null_reply, (exists (clock 0) key db).1)
          else if (exists (clock 1) key (exists (clock 0) key db).1).0
          then (ok_reply, set_entry (clock 2) key (string value) ttl after_two)
          else (null_reply, after_two))
  unfolding set_on
  set_both ttl = ground arith

  flagged-live :
      (nx xx : Bool) (ttl : Option ℕ) (t : ℕ) (j : Bytes)
      → clock 1 ≤ t
      → live t j (set_on clock key value (record { ttl = ttl; nx = nx; xx = xx }) db).1 ≡ (
          if refused clock key (record { ttl = ttl; nx = nx; xx = xx }) db
          then live t j db
          else if bytes_eq key j
          then written_entry (string value) (deadline (clock 2) ttl) t
          else live t j db)
  unfolding set_on
  flagged-live false false ttl t j h = written-live (clock 2) key (string value) ttl db t j
  flagged-live false true ttl t j h = ground (
    arith,
    exists-value (clock 1) key db,
    exists-SameFrom (clock 1) key db t j h,
    written-live (clock 2) key (string value) ttl (exists (clock 1) key db).1 t j,
  )
  flagged-live true false ttl t j h = ground (
    arith,
    exists-value (clock 0) key db,
    exists-SameFrom (clock 0) key db t j (omega arith),
    written-live (clock 2) key (string value) ttl (exists (clock 0) key db).1 t j,
  )
  flagged-live true true ttl t j h =
      ap (λ r. live t j r.1) (set_both ttl)
      ∙ ground (
        arith,
        exists-value (clock 0) key db,
        later_exists,
        exists-SameFrom (clock 0) key db t j (omega arith),
        exists-SameFrom (clock 1) key (exists (clock 0) key db).1 t j h,
        written-live (clock 2) key (string value) ttl after_two t j,
      )

  -- Where the clock does not go back between its two look-ups, a refused SET changes nothing that is
  -- seen at the second of them or later. One that is not refused writes its key, with the deadline of
  -- its options, and no other key is seen changed from then on.
  pub set_on-live :
      (o : SetOptions) (t : ℕ) (j : Bytes)
      → clock 1 ≤ t
      → live t j (set_on clock key value o db).1 ≡ (
          if refused clock key o db
          then live t j db
          else if bytes_eq key j
          then written_entry (string value) (deadline (clock 2) o.ttl) t
          else live t j db)
  set_on-live o t j h = flagged-live o.nx o.xx o.ttl t j h
