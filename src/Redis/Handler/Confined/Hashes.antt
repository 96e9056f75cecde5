-- ===== src/Redis/Handler/Confined/Hashes.antt =====
-- crates/redis-protocol/src/handler.rs: the databases that the commands of Hashes can change.
use roris_db.Prelude.{ℕ, List, [], ◌∷◌}
use roris_db.Resp.{RespValue}
use roris_db.Redis.Storage.{RedisStorage}
use roris_db.Redis.Runtime.{Clock}
use roris_db.Redis.Handler.Hashes.{
  cmd_hget, cmd_hset, cmd_hmset, cmd_hmget, cmd_hdel, cmd_hgetall, cmd_hkeys, cmd_hvals, cmd_hlen,
  cmd_hexists,
}
use roris_db.Redis.Handler.Confined.Rules.{IsConfined, confined_rules}

pub cmd_hget-IsConfined :
    (clock : Clock) (index : ℕ) (args : List RespValue) (s : RedisStorage)
    → IsConfined index s (cmd_hget clock index args s)
unfolding cmd_hget
cmd_hget-IsConfined clock index (a ∷ b ∷ rest) s = search confined_rules
cmd_hget-IsConfined clock index [] s = search confined_rules
cmd_hget-IsConfined clock index (a ∷ []) s = search confined_rules

pub cmd_hset-IsConfined :
    (clock : Clock) (index : ℕ) (args : List RespValue) (s : RedisStorage)
    → IsConfined index s (cmd_hset clock index args s)
unfolding cmd_hset
cmd_hset-IsConfined clock index (a ∷ b ∷ c ∷ rest) s = search confined_rules
cmd_hset-IsConfined clock index [] s = search confined_rules
cmd_hset-IsConfined clock index (a ∷ []) s = search confined_rules
cmd_hset-IsConfined clock index (a ∷ b ∷ []) s = search confined_rules

pub cmd_hmset-IsConfined :
    (clock : Clock) (index : ℕ) (args : List RespValue) (s : RedisStorage)
    → IsConfined index s (cmd_hmset clock index args s)
unfolding cmd_hmset
cmd_hmset-IsConfined clock index args s = search (confined_rules, cmd_hset-IsConfined)

pub cmd_hmget-IsConfined :
    (clock : Clock) (index : ℕ) (args : List RespValue) (s : RedisStorage)
    → IsConfined index s (cmd_hmget clock index args s)
unfolding cmd_hmget
cmd_hmget-IsConfined clock index (a ∷ b ∷ rest) s = search confined_rules
cmd_hmget-IsConfined clock index [] s = search confined_rules
cmd_hmget-IsConfined clock index (a ∷ []) s = search confined_rules

pub cmd_hdel-IsConfined :
    (clock : Clock) (index : ℕ) (args : List RespValue) (s : RedisStorage)
    → IsConfined index s (cmd_hdel clock index args s)
unfolding cmd_hdel
cmd_hdel-IsConfined clock index (a ∷ b ∷ rest) s = search confined_rules
cmd_hdel-IsConfined clock index [] s = search confined_rules
cmd_hdel-IsConfined clock index (a ∷ []) s = search confined_rules

pub cmd_hgetall-IsConfined :
    (clock : Clock) (index : ℕ) (args : List RespValue) (s : RedisStorage)
    → IsConfined index s (cmd_hgetall clock index args s)
unfolding cmd_hgetall
cmd_hgetall-IsConfined clock index [] s = search confined_rules
cmd_hgetall-IsConfined clock index (a ∷ rest) s = search confined_rules

pub cmd_hkeys-IsConfined :
    (clock : Clock) (index : ℕ) (args : List RespValue) (s : RedisStorage)
    → IsConfined index s (cmd_hkeys clock index args s)
unfolding cmd_hkeys
cmd_hkeys-IsConfined clock index [] s = search confined_rules
cmd_hkeys-IsConfined clock index (a ∷ rest) s = search confined_rules

pub cmd_hvals-IsConfined :
    (clock : Clock) (index : ℕ) (args : List RespValue) (s : RedisStorage)
    → IsConfined index s (cmd_hvals clock index args s)
unfolding cmd_hvals
cmd_hvals-IsConfined clock index [] s = search confined_rules
cmd_hvals-IsConfined clock index (a ∷ rest) s = search confined_rules

pub cmd_hlen-IsConfined :
    (clock : Clock) (index : ℕ) (args : List RespValue) (s : RedisStorage)
    → IsConfined index s (cmd_hlen clock index args s)
unfolding cmd_hlen
cmd_hlen-IsConfined clock index [] s = search confined_rules
cmd_hlen-IsConfined clock index (a ∷ rest) s = search confined_rules

pub cmd_hexists-IsConfined :
    (clock : Clock) (index : ℕ) (args : List RespValue) (s : RedisStorage)
    → IsConfined index s (cmd_hexists clock index args s)
unfolding cmd_hexists
cmd_hexists-IsConfined clock index (a ∷ b ∷ rest) s = search confined_rules
cmd_hexists-IsConfined clock index [] s = search confined_rules
cmd_hexists-IsConfined clock index (a ∷ []) s = search confined_rules
