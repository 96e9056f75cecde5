-- ===== src/Redis/Handler.antt =====
-- crates/redis-protocol/src/handler.rs: the commands by family, and their dispatch.
pub mod Args
pub mod Strings
pub mod Keys
pub mod Server
pub mod Hashes
pub mod Lists
pub mod Sets
pub mod SortedSets
pub mod Confined
pub mod Select
pub mod Writes
pub mod Growth
pub mod Counter
pub mod Ranges
pub mod Rename
pub mod SetGet
pub mod Deletes
pub mod Fields
use roris_db.Prelude.{ℕ, Option, none, some, List, [], ◌∷◌, ◌++◌}
use roris_db.Bytes.{Bytes, str}
use roris_db.Table.{Table, lookup}
use roris_db.Resp.{RespValue, error, bulk_string, simple_string}
use roris_db.Resp.Encoder.{error_reply, encode_to_bytes}
use roris_db.Redis.Storage.{RedisStorage}
use roris_db.Redis.Runtime.{Runtime, Clock}
use Args.{Response, Command}
use Strings.{
  cmd_get, cmd_set, cmd_mget, cmd_mset, cmd_incr, cmd_decr, cmd_incrby, cmd_decrby, cmd_append,
  cmd_strlen,
}
use Keys.{cmd_del, cmd_exists, cmd_expire, cmd_ttl, cmd_type, cmd_keys, cmd_rename}
use Server.{
  cmd_ping, cmd_echo, cmd_ok, cmd_auth, cmd_select, cmd_info, cmd_dbsize, cmd_flushdb, cmd_flushall,
  cmd_config, cmd_client,
}
use Hashes.{
  cmd_hget, cmd_hset, cmd_hmget, cmd_hmset, cmd_hdel, cmd_hgetall, cmd_hkeys, cmd_hvals, cmd_hlen,
  cmd_hexists,
}
use Lists.{cmd_lpush, cmd_rpush, cmd_lpop, cmd_rpop, cmd_lrange, cmd_llen, cmd_lindex}
use Sets.{cmd_sadd, cmd_srem, cmd_smembers, cmd_scard, cmd_sismember}
use SortedSets.{cmd_zadd, cmd_zrem, cmd_zrange, cmd_zcard, cmd_zscore}

-- The arms of the `match` on the command's name. The second argument is the handler's password.
unfoldable pub commands : Runtime → Option Bytes → Table Command
commands rt password =
    (str "PING", cmd_ping)
    ∷ (str "ECHO", cmd_echo)
    ∷ (str "QUIT", cmd_ok)
    ∷ (str "AUTH", cmd_auth password)
    ∷ (str "SELECT", cmd_select)
    ∷ (str "INFO", cmd_info)
    ∷ (str "DBSIZE", cmd_dbsize)
    ∷ (str "FLUSHDB", cmd_flushdb)
    ∷ (str "FLUSHALL", cmd_flushall)
    ∷ (str "COMMAND", cmd_ok)
    ∷ (str "CONFIG", cmd_config rt)
    ∷ (str "CLIENT", cmd_client rt)
    ∷ (str "DEL", cmd_del)
    ∷ (str "EXISTS", cmd_exists)
    ∷ (str "EXPIRE", cmd_expire)
    ∷ (str "TTL", cmd_ttl)
    ∷ (str "TYPE", cmd_type)
    ∷ (str "KEYS", cmd_keys rt)
    ∷ (str "RENAME", cmd_rename)
    ∷ (str "GET", cmd_get)
    ∷ (str "SET", cmd_set rt)
    ∷ (str "MGET", cmd_mget)
    ∷ (str "MSET", cmd_mset)
    ∷ (str "INCR", cmd_incr)
    ∷ (str "DECR", cmd_decr)
    ∷ (str "INCRBY", cmd_incrby)
    ∷ (str "DECRBY", cmd_decrby)
    ∷ (str "APPEND", cmd_append)
    ∷ (str "STRLEN", cmd_strlen)
    ∷ (str "HGET", cmd_hget)
    ∷ (str "HSET", cmd_hset)
    ∷ (str "HMGET", cmd_hmget)
    ∷ (str "HMSET", cmd_hmset)
    ∷ (str "HDEL", cmd_hdel)
    ∷ (str "HGETALL", cmd_hgetall)
    ∷ (str "HKEYS", cmd_hkeys)
    ∷ (str "HVALS", cmd_hvals)
    ∷ (str "HLEN", cmd_hlen)
    ∷ (str "HEXISTS", cmd_hexists)
    ∷ (str "LPUSH", cmd_lpush)
    ∷ (str "RPUSH", cmd_rpush)
    ∷ (str "LPOP", cmd_lpop)
    ∷ (str "RPOP", cmd_rpop)
    ∷ (str "LRANGE", cmd_lrange)
    ∷ (str "LLEN", cmd_llen)
    ∷ (str "LINDEX", cmd_lindex)
    ∷ (str "SADD", cmd_sadd)
    ∷ (str "SREM", cmd_srem)
    ∷ (str "SMEMBERS", cmd_smembers)
    ∷ (str "SCARD", cmd_scard)
    ∷ (str "SISMEMBER", cmd_sismember)
    ∷ (str "ZADD", cmd_zadd rt)
    ∷ (str "ZREM", cmd_zrem)
    ∷ (str "ZRANGE", cmd_zrange rt)
    ∷ (str "ZCARD", cmd_zcard)
    ∷ (str "ZSCORE", cmd_zscore rt)
    ∷ []

-- the command's name in upper case
unfoldable pub command_name : Runtime → RespValue → Option Bytes
command_name rt (bulk_string s) = some (rt.to_uppercase (rt.from_utf8_lossy s))
command_name rt (simple_string s) = some (rt.to_uppercase s)
command_name rt _ = none

unfoldable pub handle_command :
    Runtime → Option Bytes → Clock → ℕ → List RespValue → RedisStorage → Response
unfolding command_name commands
handle_command rt password clock index [] s = (error_reply "ERR empty command", s)
handle_command rt password clock index (a ∷ args) s = elim (command_name rt a) [
  | none ↦ (error_reply "ERR invalid command format", s)
  | some cmd ↦ elim (lookup cmd (commands rt password)) [
    | none ↦ (encode_to_bytes (error (str "ERR unknown command '" ++ (cmd ++ str "'"))), s)
    | some run ↦ run clock index args s
  ]
]
