-- ===== src/Redis/Handler/Confined/Lists.antt =====
-- crates/redis-protocol/src/handler.rs: the databases that the commands of Lists can change.
use roris_db.Prelude.{ℕ, List, [], ◌∷◌}
use roris_db.Resp.{RespValue}
use roris_db.Redis.Storage.{RedisStorage}
use roris_db.Redis.Runtime.{Clock}
use roris_db.Redis.Handler.Lists.{
  cmd_lpush, cmd_rpush, cmd_lpop, cmd_rpop, cmd_lrange, cmd_llen, cmd_lindex,
}
use roris_db.Redis.Handler.Confined.Rules.{IsConfined, confined_rules}

pub cmd_lpush-IsConfined :
    (clock : Clock) (index : ℕ) (args : List RespValue) (s : RedisStorage)
    → IsConfined index s (cmd_lpush clock index args s)
unfolding cmd_lpush
cmd_lpush-IsConfined clock index (a ∷ b ∷ rest) s = search confined_rules
cmd_lpush-IsConfined clock index [] s = search confined_rules
cmd_lpush-IsConfined clock index (a ∷ []) s = search confined_rules

pub cmd_rpush-IsConfined :
    (clock : Clock) (index : ℕ) (args : List RespValue) (s : RedisStorage)
    → IsConfined index s (cmd_rpush clock index args s)
unfolding cmd_rpush
cmd_rpush-IsConfined clock index (a ∷ b ∷ rest) s = search confined_rules
cmd_rpush-IsConfined clock index [] s = search confined_rules
cmd_rpush-IsConfined clock index (a ∷ []) s = search confined_rules

pub cmd_lpop-IsConfined :
    (clock : Clock) (index : ℕ) (args : List RespValue) (s : RedisStorage)
    → IsConfined index s (cmd_lpop clock index args s)
unfolding cmd_lpop
cmd_lpop-IsConfined clock index [] s = search confined_rules
cmd_lpop-IsConfined clock index (a ∷ rest) s = search confined_rules

pub cmd_rpop-IsConfined :
    (clock : Clock) (index : ℕ) (args : List RespValue) (s : RedisStorage)
    → IsConfined index s (cmd_rpop clock index args s)
unfolding cmd_rpop
cmd_rpop-IsConfined clock index [] s = search confined_rules
cmd_rpop-IsConfined clock index (a ∷ rest) s = search confined_rules

pub cmd_lrange-IsConfined :
    (clock : Clock) (index : ℕ) (args : List RespValue) (s : RedisStorage)
    → IsConfined index s (cmd_lrange clock index args s)
unfolding cmd_lrange
cmd_lrange-IsConfined clock index (a ∷ b ∷ c ∷ rest) s = search confined_rules
cmd_lrange-IsConfined clock index [] s = search confined_rules
cmd_lrange-IsConfined clock index (a ∷ []) s = search confined_rules
cmd_lrange-IsConfined clock index (a ∷ b ∷ []) s = search confined_rules

pub cmd_llen-IsConfined :
    (clock : Clock) (index : ℕ) (args : List RespValue) (s : RedisStorage)
    → IsConfined index s (cmd_llen clock index args s)
unfolding cmd_llen
cmd_llen-IsConfined clock index [] s = search confined_rules
cmd_llen-IsConfined clock index (a ∷ rest) s = search confined_rules

pub cmd_lindex-IsConfined :
    (clock : Clock) (index : ℕ) (args : List RespValue) (s : RedisStorage)
    → IsConfined index s (cmd_lindex clock index args s)
unfolding cmd_lindex
cmd_lindex-IsConfined clock index (a ∷ b ∷ rest) s = search confined_rules
cmd_lindex-IsConfined clock index [] s = search confined_rules
cmd_lindex-IsConfined clock index (a ∷ []) s = search confined_rules
