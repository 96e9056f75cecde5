-- ===== src/Redis/Storage/Unique.antt =====
-- crates/redis-protocol/src/storage.rs: databases in which no key stands twice, as no key of a `DashMap` does.
use roris_db.Prelude.{Option-cases, inl, inr}
use roris_db.Bytes.{Bytes}
use roris_db.Table.{lookup, HasUniqueKeys, remove-HasUniqueKeys}
use roris_db.Redis.Storage.{Database, del}

-- The keys of a database are distinct.
abbrev pub IsTidy : Database → Type 0
IsTidy db = HasUniqueKeys db.entries

pub del-IsTidy : (key : Bytes) (db : Database) → IsTidy db → IsTidy (del key db).1
unfolding del
del-IsTidy key db h = elim (Option-cases (lookup key db.entries)) [
  | inl e ↦ rw (e, del) h
  | inr (entry, e) ↦ rw (e, del) (remove-HasUniqueKeys key db.entries h)
]
