-- ===== src/Redis/Handler/Confined/SortedSets.antt =====
-- crates/redis-protocol/src/handler.rs: the databases that the commands of SortedSets can change.
use roris_db.Prelude.{ℕ, List, [], ◌∷◌}
use roris_db.Resp.{RespValue}
use roris_db.Redis.Storage.{RedisStorage}
use roris_db.Redis.Runtime.{Runtime, Clock}
use roris_db.Redis.Handler.SortedSets.{cmd_zadd, cmd_zrem, cmd_zrange, cmd_zcard, cmd_zscore}
use roris_db.Redis.Handler.Confined.Rules.{IsConfined, confined_rules}

pub cmd_zadd-IsConfined :
    (rt : Runtime) (clock : Clock) (index : ℕ) (args : List RespValue) (s : RedisStorage)
    → IsConfined index s (cmd_zadd rt clock index args s)
unfolding cmd_zadd
cmd_zadd-IsConfined rt clock index (a ∷ b ∷ c ∷ rest) s = search confined_rules
cmd_zadd-IsConfined rt clock index [] s = search confined_rules
cmd_zadd-IsConfined rt clock index (a ∷ []) s = search confined_rules
cmd_zadd-IsConfined rt clock index (a ∷ b ∷ []) s = search confined_rules

pub cmd_zrem-IsConfined :
    (clock : Clock) (index : ℕ) (args : List RespValue) (s : RedisStorage)
    → IsConfined index s (cmd_zrem clock index args s)
unfolding cmd_zrem
cmd_zrem-IsConfined clock index (a ∷ b ∷ rest) s = search confined_rules
cmd_zrem-IsConfined clock index [] s = search confined_rules
cmd_zrem-IsConfined clock index (a ∷ []) s = search confined_rules

pub cmd_zrange-IsConfined :
    (rt : Runtime) (clock : Clock) (index : ℕ) (args : List RespValue) (s : RedisStorage)
    → IsConfined index s (cmd_zrange rt clock index args s)
unfolding cmd_zrange
cmd_zrange-IsConfined rt clock index (a ∷ b ∷ c ∷ rest) s = search confined_rules
cmd_zrange-IsConfined rt clock index [] s = search confined_rules
cmd_zrange-IsConfined rt clock index (a ∷ []) s = search confined_rules
cmd_zrange-IsConfined rt clock index (a ∷ b ∷ []) s = search confined_rules

pub cmd_zcard-IsConfined :
    (clock : Clock) (index : ℕ) (args : List RespValue) (s : RedisStorage)
    → IsConfined index s (cmd_zcard clock index args s)
unfolding cmd_zcard
cmd_zcard-IsConfined clock index [] s = search confined_rules
cmd_zcard-IsConfined clock index (a ∷ rest) s = search confined_rules

pub cmd_zscore-IsConfined :
    (rt : Runtime) (clock : Clock) (index : ℕ) (args : List RespValue) (s : RedisStorage)
    → IsConfined index s (cmd_zscore rt clock index args s)
unfolding cmd_zscore
cmd_zscore-IsConfined rt clock index (a ∷ b ∷ rest) s = search confined_rules
cmd_zscore-IsConfined rt clock index [] s = search confined_rules
cmd_zscore-IsConfined rt clock index (a ∷ []) s = search confined_rules
