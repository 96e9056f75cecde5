-- ===== src/Redis/Handler/Sets.antt =====
-- crates/redis-protocol/src/handler.rs: the set commands. A `HashSet` is a table of units.
use roris_db.Prelude.{ℕ, ◌+◌, none, some, List, [], ◌∷◌, map, length, pos, if◌then◌else◌}
use roris_db.Bytes.{Bytes}
use roris_db.Table.{Table, contains_key, insert, remove, keys}
use roris_db.Resp.{RespValue, bulk_string}
use roris_db.Resp.Encoder.{error_reply, integer_reply, null_reply}
use roris_db.Redis.Storage.{members, Database, RedisStorage, get, set_entry, del}
use roris_db.Redis.Runtime.{Clock}
use roris_db.Redis.Handler.Args.{
  Response, get_arg_str, need_str, with_db, set_at, with_held, or_new, array_reply,
}

abbrev pub Members : Type 0
Members = Table (Unit {0})

-- `set.insert(member)`, with 1 if the member is new
unfoldable pub sadd_one : RespValue → Members → ℕ × Members
sadd_one a m = elim (get_arg_str a) [
  | none ↦ (0, m)
  | some member ↦ (if contains_key member m then 0 else 1, insert member tt m)
]

unfoldable pub sadd_all : List RespValue → ℕ → Members → ℕ × Members
unfolding sadd_one
sadd_all [] added m = (added, m)
sadd_all (a ∷ args) added m = let (n, m') = sadd_one a m in sadd_all args (added + n) m'

unfoldable pub sadd_on : Clock → Bytes → List RespValue → Database → Bytes × Database
unfolding sadd_all
sadd_on clock key args db =
    let (v, db') = get (clock 0) (clock 1) key db in
    with_held (or_new [] (set_at v)) db' null_reply λ m.
      let (added, m') = sadd_all args 0 m in
      (integer_reply (pos added), set_entry (clock 2) key (members m') none db')

unfoldable pub cmd_sadd : Clock → ℕ → List RespValue → RedisStorage → Response
unfolding sadd_on
cmd_sadd clock index (a ∷ b ∷ rest) s =
    need_str a "ERR invalid key" s
      λ key. with_db s index (error_reply "ERR invalid database") (sadd_on clock key (b ∷ rest))
cmd_sadd clock index _ s = (error_reply "ERR wrong number of arguments for 'sadd' command", s)

unfoldable pub srem_one : RespValue → Members → ℕ × Members
srem_one a m = elim (get_arg_str a) [
  | none ↦ (0, m)
  | some member ↦ (if contains_key member m then 1 else 0, remove member m)
]

unfoldable pub srem_all : List RespValue → ℕ → Members → ℕ × Members
unfolding srem_one
srem_all [] removed m = (removed, m)
srem_all (a ∷ args) removed m = let (n, m') = srem_one a m in srem_all args (removed + n) m'

-- An empty set is removed with its key.
abbrev store_set : ℕ → Bytes → Members → Database → Database
store_set now key [] db = (del key db).1
store_set now key (x ∷ m) db = set_entry now key (members (x ∷ m)) none db

unfoldable pub srem_on : Clock → Bytes → List RespValue → Database → Bytes × Database
unfolding srem_all
srem_on clock key args db =
    let (v, db') = get (clock 0) (clock 1) key db in
    with_held (set_at v) db' (integer_reply (pos 0)) λ m.
      let (removed, m') = srem_all args 0 m in
      (integer_reply (pos removed), store_set (clock 2) key m' db')

unfoldable pub cmd_srem : Clock → ℕ → List RespValue → RedisStorage → Response
unfolding srem_on
cmd_srem clock index (a ∷ b ∷ rest) s =
    need_str a "ERR invalid key" s
      λ key. with_db s index (integer_reply (pos 0)) (srem_on clock key (b ∷ rest))
cmd_srem clock index _ s = (error_reply "ERR wrong number of arguments for 'srem' command", s)

unfoldable pub cmd_smembers : Clock → ℕ → List RespValue → RedisStorage → Response
cmd_smembers clock index [] s =
    (error_reply "ERR wrong number of arguments for 'smembers' command", s)
cmd_smembers clock index (a ∷ _) s = need_str a "ERR invalid key" s λ key.
    with_db s index (array_reply []) λ db.
      let (v, db') = get (clock 0) (clock 1) key db in
      with_held (set_at v) db' (array_reply []) λ m. (array_reply (map bulk_string (keys m)), db')

unfoldable pub cmd_scard : Clock → ℕ → List RespValue → RedisStorage → Response
cmd_scard clock index [] s = (error_reply "ERR wrong number of arguments for 'scard' command", s)
cmd_scard clock index (a ∷ _) s = need_str a "ERR invalid key" s λ key.
    with_db s index (integer_reply (pos 0)) λ db.
      let (v, db') = get (clock 0) (clock 1) key db in
      with_held (set_at v) db' (integer_reply (pos 0)) λ m. (integer_reply (pos (length m)), db')

unfoldable pub cmd_sismember : Clock → ℕ → List RespValue → RedisStorage → Response
cmd_sismember clock index (a ∷ b ∷ _) s = need_str a "ERR invalid key" s λ key.
    need_str b "ERR invalid member" s λ member. with_db s index (integer_reply (pos 0)) λ db.
      let (v, db') = get (clock 0) (clock 1) key db in
      with_held (set_at v) db' (integer_reply (pos 0))
        λ m. (integer_reply (pos (if contains_key member m then 1 else 0)), db')
cmd_sismember clock index _ s =
    (error_reply "ERR wrong number of arguments for 'sismember' command", s)
