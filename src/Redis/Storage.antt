-- ===== src/Redis/Storage.antt =====
-- crates/redis-protocol/src/storage.rs: the databases and their entries.
--
-- `Instant::now()` is an argument: each operation takes the readings of the monotonic clock that it
-- may make, in nanoseconds. Instants are unbounded here, so the panic of `Instant + Duration` past
-- the range of the platform's clock is outside the model. Each operation is one step; a `DashMap`
-- locks the entry for as long.
pub mod Glob
pub mod View
pub mod Refinement
pub mod Unique
use roris_db.Prelude.{
  ℕ, zero, suc, ◌+◌, ◌-◌, ◌*◌, ◌/◌, ◌^◌, Bool, true, false, Option, none, some, List, [], ◌∷◌, ltb,
  if◌then◌else◌, length, get_elem?, map, ℤ, pos, negsuc,
}
use roris_db.Bytes.{Bytes}
use roris_db.Table.{Table, lookup, insert, remove, keys}
use Glob.{glob_to_regex}

-- An `f64` by its 64 bits (`to_bits`).
abbrev pub F64 : Type 0
F64 = ℕ

pub data RedisValue : Type 0 where
  string : Bytes → RedisValue
  hash : Table Bytes → RedisValue
  list : List Bytes → RedisValue
  members : Table (Unit {0}) → RedisValue
  sorted_set : List (F64 × Bytes) → RedisValue

pub record Entry : Type 0 where
  pub value : RedisValue
  pub expires_at : Option ℕ

pub record Database : Type 0 where
  pub entries : Table Entry

abbrev pub new_database : Database
new_database = record { entries = [] }

-- `now > expires_at`, false without an expiry
unfoldable pub is_expired : ℕ → Entry → Bool
is_expired now e = elim e.expires_at [ none ↦ false | some t ↦ ltb t now ]

-- `remove_if`, which tests the entry again at the later reading
unfoldable pub remove_expired : ℕ → Bytes → Database → Database
unfolding is_expired
remove_expired now key db = elim (lookup key db.entries) [
  | none ↦ db
  | some e ↦ if is_expired now e then record { entries = remove key db.entries } else db
]

unfoldable pub get : ℕ → ℕ → Bytes → Database → Option RedisValue × Database
unfolding is_expired remove_expired
get now later key db = elim (lookup key db.entries) [
  | none ↦ (none, db)
  | some e ↦ if is_expired now e then (none, remove_expired later key db) else (some e.value, db)
]

-- `ttl.map(|d| Instant::now() + d)`
abbrev pub deadline : ℕ → Option ℕ → Option ℕ
deadline now none = none
deadline now (some d) = some (now + d)

unfoldable pub set_entry : ℕ → Bytes → RedisValue → Option ℕ → Database → Database
set_entry now key value ttl db = record {
  entries = insert key (record { value = value; expires_at = deadline now ttl }) db.entries;
}

unfoldable pub del : Bytes → Database → Bool × Database
del key db = elim (lookup key db.entries) [
  | none ↦ (false, db)
  | some e ↦ (true, record { entries = remove key db.entries })
]

unfoldable pub exists : ℕ → Bytes → Database → Bool × Database
unfolding is_expired
exists now key db = elim (lookup key db.entries) [
  | none ↦ (false, db)
  | some e ↦
      if is_expired now e then (false, record { entries = remove key db.entries }) else (true, db)
]

-- It does not look at the old expiry.
unfoldable pub expire : ℕ → Bytes → ℕ → Database → Bool × Database
expire now key ttl db = elim (lookup key db.entries) [
  | none ↦ (false, db)
  | some e ↦ (
    true,
    record { entries = insert key (record e { expires_at = some (now + ttl) }) db.entries },
  )
]

abbrev pub nanos : ℕ
nanos = 1000000000

-- -2: no such key; -1: no expiry; else whole seconds, rounded down
unfoldable pub ttl : ℕ → Bytes → Database → ℤ × Database
ttl now key db = elim (lookup key db.entries) [
  | none ↦ (negsuc 1, db)
  | some e ↦ elim e.expires_at [
    | none ↦ (negsuc 0, db)
    | some t ↦
        if ltb t now
        then (negsuc 1, record { entries = remove key db.entries })
        else (pos ((t - now) / nanos), db)
  ]
]

unfoldable pub drop_expired : ℕ → Table Entry → Table Entry
unfolding is_expired
drop_expired now [] = []
drop_expired now ((k, e) ∷ m) =
    let rest = drop_expired now m in if is_expired now e then rest else (k, e) ∷ rest

unfoldable pub matching : (Bytes → Bool) → List Bytes → List Bytes
matching test [] = []
matching test (k ∷ ks) = let rest = matching test ks in if test k then k ∷ rest else rest

-- `Regex::new(&pattern).ok()` is the first argument; with no regex every key matches.
abbrev pub matches : Option (Bytes → Bool) → Bytes → Bool
matches none key = true
matches (some re) key = re key

unfoldable pub keys_matching :
    (Bytes → Option (Bytes → Bool)) → ℕ → Bytes → Database → List Bytes × Database
unfolding drop_expired matching glob_to_regex
keys_matching compile now pattern db =
    let live = drop_expired now db.entries in
    (matching (matches (compile (glob_to_regex pattern))) (keys live), record { entries = live })

unfoldable pub clear : Database → Database
clear db = new_database

unfoldable pub len : Database → ℕ
len db = length db.entries

pub record RedisStorage : Type 0 where
  pub databases : List Database

abbrev pub copies : ℕ → List Database
copies zero = []
copies (suc n) = new_database ∷ copies n

abbrev pub new_storage : ℕ → RedisStorage
new_storage num_databases = record { databases = copies num_databases }

unfoldable pub get_db : RedisStorage → ℕ → Option Database
get_db s index = get_elem? s.databases index

unfoldable pub clear_all : RedisStorage → RedisStorage
unfolding clear
clear_all s = record { databases = map clear s.databases }

abbrev pub total : List Database → ℕ
total [] = 0
total (db ∷ dbs) = length db.entries + total dbs

unfoldable pub total_keys : RedisStorage → ℕ
total_keys s = total s.databases
