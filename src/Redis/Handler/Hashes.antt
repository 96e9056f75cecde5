-- ===== src/Redis/Handler/Hashes.antt =====
-- crates/redis-protocol/src/handler.rs: the hash commands. A reply that lists a hash follows the
-- table's order, which stands for the unspecified one of a `HashMap`.
use roris_db.Prelude.{
  ℕ, ◌+◌, ◌%◌, Option, none, some, List, [], ◌∷◌, map, length, ◌==◌, pos, if◌then◌else◌,
}
use roris_db.Bytes.{Bytes}
use roris_db.Table.{Table, lookup, contains_key, insert, remove, keys, values}
use roris_db.Resp.{RespValue, bulk_string, null}
use roris_db.Resp.Encoder.{error_reply, integer_reply, bulk_reply, null_reply}
use roris_db.Redis.Storage.{hash, Database, RedisStorage, get, set_entry, del}
use roris_db.Redis.Runtime.{Clock}
use roris_db.Redis.Handler.Args.{
  Response, get_arg_str, need_str, with_db, hash_at, with_held, or_new, array_reply,
}

abbrev field_reply : Option Bytes → Bytes
field_reply none = null_reply
field_reply (some v) = bulk_reply v

unfoldable pub cmd_hget : Clock → ℕ → List RespValue → RedisStorage → Response
cmd_hget clock index (a ∷ b ∷ _) s = need_str a "ERR invalid key" s λ key.
    need_str b "ERR invalid field" s λ field. with_db s index null_reply λ db.
      let (v, db') = get (clock 0) (clock 1) key db in
      with_held (hash_at v) db' null_reply λ h. (field_reply (lookup field h), db')
cmd_hget clock index _ s = (error_reply "ERR wrong number of arguments for 'hget' command", s)

-- one pair of HSET, with 1 if the field is new; a pair that is not two texts is skipped
unfoldable pub hset_one : RespValue → RespValue → Table Bytes → ℕ × Table Bytes
hset_one a b h = elim (get_arg_str a) [
  | none ↦ (0, h)
  | some field ↦ elim (get_arg_str b) [
    | none ↦ (0, h)
    | some value ↦ (if contains_key field h then 0 else 1, insert field value h)
  ]
]

unfoldable pub hset_all : List RespValue → ℕ → Table Bytes → ℕ × Table Bytes
unfolding hset_one
hset_all [] added h = (added, h)
hset_all (a ∷ []) added h = (added, h)
hset_all (a ∷ b ∷ rest) added h = let (n, h') = hset_one a b h in hset_all rest (added + n) h'

unfoldable pub hset_on : Clock → Bytes → List RespValue → Database → Bytes × Database
unfolding hset_all
hset_on clock key pairs db =
    let (v, db') = get (clock 0) (clock 1) key db in
    with_held (or_new [] (hash_at v)) db' null_reply λ h.
      let (added, h') = hset_all pairs 0 h in
      (integer_reply (pos added), set_entry (clock 2) key (hash h') none db')

-- three arguments at least, and an odd number of them
unfoldable pub cmd_hset : Clock → ℕ → List RespValue → RedisStorage → Response
unfolding hset_on
cmd_hset clock index (a ∷ b ∷ c ∷ rest) s =
    if length (a ∷ b ∷ c ∷ rest) % 2 == 0
    then (error_reply "ERR wrong number of arguments for 'hset' command", s)
    else (need_str a "ERR invalid key" s λ key.
        with_db s index (error_reply "ERR invalid database") (hset_on clock key (b ∷ c ∷ rest)))
cmd_hset clock index _ s = (error_reply "ERR wrong number of arguments for 'hset' command", s)

unfoldable pub cmd_hmset : Clock → ℕ → List RespValue → RedisStorage → Response
unfolding cmd_hset
cmd_hmset clock index args s = cmd_hset clock index args s

unfoldable pub hmget_one : Table Bytes → RespValue → RespValue
hmget_one h a = elim (get_arg_str a) [
  | none ↦ null
  | some field ↦ elim (lookup field h) [ none ↦ null | some v ↦ bulk_string v ]
]

unfoldable pub cmd_hmget : Clock → ℕ → List RespValue → RedisStorage → Response
unfolding hmget_one
cmd_hmget clock index (a ∷ b ∷ rest) s = need_str a "ERR invalid key" s λ key.
    with_db s index (array_reply (map (λ _. null) (b ∷ rest))) λ db.
      let (v, db') = get (clock 0) (clock 1) key db in
      with_held (or_new [] (hash_at v)) db' null_reply
        λ h. (array_reply (map (hmget_one h) (b ∷ rest)), db')
cmd_hmget clock index _ s = (error_reply "ERR wrong number of arguments for 'hmget' command", s)

-- `hash.remove(field).is_some()`
unfoldable pub hdel_one : RespValue → Table Bytes → ℕ × Table Bytes
hdel_one a h = elim (get_arg_str a) [
  | none ↦ (0, h)
  | some field ↦ (if contains_key field h then 1 else 0, remove field h)
]

unfoldable pub hdel_all : List RespValue → ℕ → Table Bytes → ℕ × Table Bytes
unfolding hdel_one
hdel_all [] removed h = (removed, h)
hdel_all (a ∷ args) removed h = let (n, h') = hdel_one a h in hdel_all args (removed + n) h'

-- An empty hash is removed with its key.
abbrev store_hash : ℕ → Bytes → Table Bytes → Database → Database
store_hash now key [] db = (del key db).1
store_hash now key (x ∷ h) db = set_entry now key (hash (x ∷ h)) none db

unfoldable pub hdel_on : Clock → Bytes → List RespValue → Database → Bytes × Database
unfolding hdel_all
hdel_on clock key fields db =
    let (v, db') = get (clock 0) (clock 1) key db in
    with_held (hash_at v) db' (integer_reply (pos 0)) λ h.
      let (removed, h') = hdel_all fields 0 h in
      (integer_reply (pos removed), store_hash (clock 2) key h' db')

unfoldable pub cmd_hdel : Clock → ℕ → List RespValue → RedisStorage → Response
unfolding hdel_on
cmd_hdel clock index (a ∷ b ∷ rest) s =
    need_str a "ERR invalid key" s
      λ key. with_db s index (integer_reply (pos 0)) (hdel_on clock key (b ∷ rest))
cmd_hdel clock index _ s = (error_reply "ERR wrong number of arguments for 'hdel' command", s)

abbrev field_values : Table Bytes → List RespValue
field_values [] = []
field_values ((field, value) ∷ h) = bulk_string field ∷ bulk_string value ∷ field_values h

-- The commands that read one hash: `absent` is the reply without the key or the database.
abbrev read_hash : Clock → ℕ → RespValue → RedisStorage → Bytes → (Table Bytes → Bytes) → Response
read_hash clock index a s absent reply = need_str a "ERR invalid key" s λ key.
    with_db s index absent λ db.
      let (v, db') = get (clock 0) (clock 1) key db in
      with_held (hash_at v) db' absent λ h. (reply h, db')

unfoldable pub cmd_hgetall : Clock → ℕ → List RespValue → RedisStorage → Response
cmd_hgetall clock index [] s =
    (error_reply "ERR wrong number of arguments for 'hgetall' command", s)
cmd_hgetall clock index (a ∷ _) s =
    read_hash clock index a s (array_reply []) λ h. array_reply (field_values h)

unfoldable pub cmd_hkeys : Clock → ℕ → List RespValue → RedisStorage → Response
cmd_hkeys clock index [] s = (error_reply "ERR wrong number of arguments for 'hkeys' command", s)
cmd_hkeys clock index (a ∷ _) s =
    read_hash clock index a s (array_reply []) λ h. array_reply (map bulk_string (keys h))

unfoldable pub cmd_hvals : Clock → ℕ → List RespValue → RedisStorage → Response
cmd_hvals clock index [] s = (error_reply "ERR wrong number of arguments for 'hvals' command", s)
cmd_hvals clock index (a ∷ _) s =
    read_hash clock index a s (array_reply []) λ h. array_reply (map bulk_string (values h))

unfoldable pub cmd_hlen : Clock → ℕ → List RespValue → RedisStorage → Response
cmd_hlen clock index [] s = (error_reply "ERR wrong number of arguments for 'hlen' command", s)
cmd_hlen clock index (a ∷ _) s =
    read_hash clock index a s (integer_reply (pos 0)) λ h. integer_reply (pos (length h))

unfoldable pub cmd_hexists : Clock → ℕ → List RespValue → RedisStorage → Response
cmd_hexists clock index (a ∷ b ∷ _) s = need_str a "ERR invalid key" s λ key.
    need_str b "ERR invalid field" s λ field. with_db s index (integer_reply (pos 0)) λ db.
      let (v, db') = get (clock 0) (clock 1) key db in
      with_held (hash_at v) db' (integer_reply (pos 0))
        λ h. (integer_reply (pos (if contains_key field h then 1 else 0)), db')
cmd_hexists clock index _ s = (error_reply "ERR wrong number of arguments for 'hexists' command", s)
