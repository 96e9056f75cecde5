-- ===== src/Redis/Handler/Keys.antt =====
-- crates/redis-protocol/src/handler.rs: the commands on keys of any kind.
use roris_db.Prelude.{
  ℕ, zero, suc, ◌+◌, ◌*◌, Bool, true, false, Option, none, some, List, [], ◌∷◌, map, ℤ, pos, negsuc,
}
use roris_db.Bytes.{Bytes, str}
use roris_db.Resp.{RespValue, simple_string, bulk_string}
use roris_db.Resp.Encoder.{error_reply, integer_reply, ok_reply, encode_to_bytes}
use roris_db.Redis.Storage.{
  RedisValue, string, hash, list, members, sorted_set, Database, RedisStorage, get, set_entry, del,
  exists, expire, ttl, keys_matching, nanos,
}
use roris_db.Redis.Runtime.{Runtime, Clock}
use roris_db.Redis.Handler.Args.{Response, get_arg_str, need_str, need_int, with_db, array_reply}

abbrev pub counted : Bool → ℕ
counted true = 1
counted false = 0

-- `db.del` of one argument, with 1 if it removed a key
unfoldable pub del_one : RespValue → Database → ℕ × Database
del_one a db = elim (get_arg_str a) [
  | none ↦ (0, db)
  | some key ↦ let (removed, db') = del key db in (counted removed, db')
]

unfoldable pub del_all : List RespValue → ℕ → Database → ℕ × Database
unfolding del_one
del_all [] count db = (count, db)
del_all (a ∷ args) count db = let (n, db') = del_one a db in del_all args (count + n) db'

unfoldable pub cmd_del : Clock → ℕ → List RespValue → RedisStorage → Response
unfolding del_all
cmd_del clock index args s =
    with_db s index (integer_reply (pos 0))
      λ db. let (count, db') = del_all args 0 db in (integer_reply (pos count), db')

unfoldable pub exists_one : ℕ → RespValue → Database → ℕ × Database
exists_one now a db = elim (get_arg_str a) [
  | none ↦ (0, db)
  | some key ↦ let (found, db') = exists now key db in (counted found, db')
]

unfoldable pub exists_all : Clock → ℕ → List RespValue → ℕ → Database → ℕ × Database
unfolding exists_one
exists_all clock k [] count db = (count, db)
exists_all clock k (a ∷ args) count db =
    let (n, db') = exists_one (clock k) a db in exists_all clock (k + 1) args (count + n) db'

unfoldable pub cmd_exists : Clock → ℕ → List RespValue → RedisStorage → Response
unfolding exists_all
cmd_exists clock index args s =
    with_db s index (integer_reply (pos 0))
      λ db. let (count, db') = exists_all clock 0 args 0 db in (integer_reply (pos count), db')

abbrev pub flag_reply : Bool → Bytes
flag_reply b = integer_reply (pos (counted b))

-- a negative number of seconds is refused
abbrev pub expire_seconds : Clock → ℕ → Bytes → RedisStorage → ℤ → Response
expire_seconds clock index key s (negsuc n) = (error_reply "ERR invalid expire time", s)
expire_seconds clock index key s (pos n) =
    with_db s index (integer_reply (pos 0))
      λ db. let (done, db') = expire (clock 0) key (n * nanos) db in (flag_reply done, db')

unfoldable pub cmd_expire : Clock → ℕ → List RespValue → RedisStorage → Response
cmd_expire clock index (a ∷ b ∷ _) s =
    need_str a "ERR invalid key" s
      λ key. need_int b "ERR invalid expire time" s (expire_seconds clock index key s)
cmd_expire clock index _ s = (error_reply "ERR wrong number of arguments for 'expire' command", s)

unfoldable pub cmd_ttl : Clock → ℕ → List RespValue → RedisStorage → Response
cmd_ttl clock index [] s = (error_reply "ERR wrong number of arguments for 'ttl' command", s)
cmd_ttl clock index (a ∷ _) s = need_str a "ERR invalid key" s λ key.
    with_db s index (integer_reply (negsuc 1))
      λ db. let (left, db') = ttl (clock 0) key db in (integer_reply left, db')

unfoldable pub type_reply : Option RedisValue → Bytes
type_reply none = encode_to_bytes (simple_string (str "none"))
type_reply (some (string s)) = encode_to_bytes (simple_string (str "string"))
type_reply (some (hash h)) = encode_to_bytes (simple_string (str "hash"))
type_reply (some (list l)) = encode_to_bytes (simple_string (str "list"))
type_reply (some (members m)) = encode_to_bytes (simple_string (str "set"))
type_reply (some (sorted_set z)) = encode_to_bytes (simple_string (str "zset"))

unfoldable pub cmd_type : Clock → ℕ → List RespValue → RedisStorage → Response
unfolding type_reply
cmd_type clock index [] s = (error_reply "ERR wrong number of arguments for 'type' command", s)
cmd_type clock index (a ∷ _) s = need_str a "ERR invalid key" s λ key.
    with_db s index (type_reply none)
      λ db. let (v, db') = get (clock 0) (clock 1) key db in (type_reply v, db')

unfoldable pub cmd_keys : Runtime → Clock → ℕ → List RespValue → RedisStorage → Response
cmd_keys rt clock index [] s = (error_reply "ERR wrong number of arguments for 'keys' command", s)
cmd_keys rt clock index (a ∷ _) s = need_str a "ERR invalid pattern" s λ pattern.
    with_db s index (array_reply []) λ db.
      let (found, db') = keys_matching rt.compile (clock 0) pattern db in
      (array_reply (map bulk_string found), db')

-- `if ttl_secs > 0 { Some(from_secs(ttl_secs)) } else { None }`
abbrev pub kept_ttl : ℤ → Option ℕ
kept_ttl (pos zero) = none
kept_ttl (pos (suc n)) = some (suc n * nanos)
kept_ttl (negsuc n) = none

unfoldable pub rename_on : Clock → Bytes → Bytes → Database → Bytes × Database
rename_on clock old_key new_key db =
    let (v, db1) = get (clock 0) (clock 1) old_key db in
    elim v [
      | none ↦ (error_reply "ERR no such key", db1)
      | some value ↦
          let (left, db2) = ttl (clock 2) old_key db1 in
          (ok_reply, (del old_key (set_entry (clock 3) new_key value (kept_ttl left) db2)).1)
    ]

unfoldable pub cmd_rename : Clock → ℕ → List RespValue → RedisStorage → Response
unfolding rename_on
cmd_rename clock index (a ∷ b ∷ _) s = need_str a "ERR invalid key" s λ old_key.
    need_str b "ERR invalid key" s
      λ new_key. with_db s index (error_reply "ERR no such key") (rename_on clock old_key new_key)
cmd_rename clock index _ s = (error_reply "ERR wrong number of arguments for 'rename' command", s)
