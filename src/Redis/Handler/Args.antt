-- ===== src/Redis/Handler/Args.antt =====
-- crates/redis-protocol/src/handler.rs: the arguments of a command, and the guards that the
-- commands share. A guard that fails returns its reply and changes nothing.
use Prim.Native.String.{String}
use roris_db.Prelude.{ℕ, Option, none, some, List, set, ℤ}
use roris_db.Bytes.{Bytes}
use roris_db.Bytes.Utf8.{from_utf8}
use roris_db.Bytes.Decimal.{parse_i64}
use roris_db.Table.{Table}
use roris_db.Resp.{RespValue, bulk_string, simple_string, integer, array, from_list}
use roris_db.Resp.Encoder.{error_reply, encode_to_bytes}
use roris_db.Redis.Storage.{
  F64, RedisValue, string, hash, list, members, sorted_set, Database, RedisStorage, get_db,
}
use roris_db.Redis.Runtime.{Clock}

-- The reply of a command, with the storage that it leaves.
abbrev pub Response : Type 0
Response = Bytes × RedisStorage

abbrev pub Command : Type 0
Command = Clock → ℕ → List RespValue → RedisStorage → Response

unfoldable pub get_arg_str : RespValue → Option Bytes
unfolding from_utf8
get_arg_str (bulk_string s) = from_utf8 s
get_arg_str (simple_string s) = some s
get_arg_str _ = none

unfoldable pub get_arg_int : RespValue → Option ℤ
unfolding from_utf8 parse_i64
get_arg_int (integer n) = some n
get_arg_int (bulk_string s) = elim (from_utf8 s) [ none ↦ none | some text ↦ parse_i64 text ]
get_arg_int _ = none

-- `match self.get_arg_str(arg) { Some(k) => k, None => return error }`
unfoldable pub need_str : RespValue → String → RedisStorage → (Bytes → Response) → Response
need_str arg msg s next = elim (get_arg_str arg) [ none ↦ (error_reply msg, s) | some k ↦ next k ]

unfoldable pub need_int : RespValue → String → RedisStorage → (ℤ → Response) → Response
need_int arg msg s next = elim (get_arg_int arg) [ none ↦ (error_reply msg, s) | some n ↦ next n ]

-- `if let Some(db) = self.storage.get_db(db_index) { … } else { missing }`
unfoldable pub with_db : RedisStorage → ℕ → Bytes → (Database → Bytes × Database) → Response
unfolding get_db
with_db s index missing body = elim (get_db s index) [
  | none ↦ (missing, s)
  | some db ↦
      let (reply, db') = body db in (reply, record { databases = set s.databases index db' })
]

-- What a key holds, seen as one kind of value.
pub data Held (A : Type 0) : Type 0 where
  missing : Held A
  held : A → Held A
  wrong_type : Held A

abbrev pub string_at : Option RedisValue → Held Bytes
string_at none = missing
string_at (some (string s)) = held s
string_at (some _) = wrong_type

abbrev pub hash_at : Option RedisValue → Held (Table Bytes)
hash_at none = missing
hash_at (some (hash h)) = held h
hash_at (some _) = wrong_type

abbrev pub list_at : Option RedisValue → Held (List Bytes)
list_at none = missing
list_at (some (list l)) = held l
list_at (some _) = wrong_type

abbrev pub set_at : Option RedisValue → Held (Table (Unit {0}))
set_at none = missing
set_at (some (members s)) = held s
set_at (some _) = wrong_type

abbrev pub zset_at : Option RedisValue → Held (List (F64 × Bytes))
zset_at none = missing
zset_at (some (sorted_set z)) = held z
zset_at (some _) = wrong_type

unfoldable pub wrong_type_reply : Bytes
wrong_type_reply = error_reply "WRONGTYPE Operation against a key holding the wrong kind of value"

-- `match db.get(key) { Some(kind) => body, Some(_) => WRONGTYPE, None => absent }`
unfoldable pub with_held :
    {A : Type 0} → Held A → Database → Bytes → (A → Bytes × Database) → Bytes × Database
with_held missing db absent body = (absent, db)
with_held (held a) db absent body = body a
with_held wrong_type db absent body = (wrong_type_reply, db)

-- `None => …::new()`
abbrev pub or_new : {A : Type 0} → A → Held A → Held A
or_new a missing = held a
or_new a (held b) = held b
or_new a wrong_type = wrong_type

unfoldable pub array_reply : List RespValue → Bytes
array_reply vs = encode_to_bytes (array (from_list vs))
