-- ===== src/Redis/Handler/Confined/Sets.antt =====
-- crates/redis-protocol/src/handler.rs: the databases that the commands of Sets can change.
use roris_db.Prelude.{ℕ, List, [], ◌∷◌}
use roris_db.Resp.{RespValue}
use roris_db.Redis.Storage.{RedisStorage}
use roris_db.Redis.Runtime.{Clock}
use roris_db.Redis.Handler.Sets.{cmd_sadd, cmd_srem, cmd_smembers, cmd_scard, cmd_sismember}
use roris_db.Redis.Handler.Confined.Rules.{IsConfined, confined_rules}

pub cmd_sadd-IsConfined :
    (clock : Clock) (index : ℕ) (args : List RespValue) (s : RedisStorage)
    → IsConfined index s (cmd_sadd clock index args s)
unfolding cmd_sadd
cmd_sadd-IsConfined clock index (a ∷ b ∷ rest) s = search confined_rules
cmd_sadd-IsConfined clock index [] s = search confined_rules
cmd_sadd-IsConfined clock index (a ∷ []) s = search confined_rules

pub cmd_srem-IsConfined :
    (clock : Clock) (index : ℕ) (args : List RespValue) (s : RedisStorage)
    → IsConfined index s (cmd_srem clock index args s)
unfolding cmd_srem
cmd_srem-IsConfined clock index (a ∷ b ∷ rest) s = search confined_rules
cmd_srem-IsConfined clock index [] s = search confined_rules
cmd_srem-IsConfined clock index (a ∷ []) s = search confined_rules

pub cmd_smembers-IsConfined :
    (clock : Clock) (index : ℕ) (args : List RespValue) (s : RedisStorage)
    → IsConfined index s (cmd_smembers clock index args s)
unfolding cmd_smembers
cmd_smembers-IsConfined clock index [] s = search confined_rules
cmd_smembers-IsConfined clock index (a ∷ rest) s = search confined_rules

pub cmd_scard-IsConfined :
    (clock : Clock) (index : ℕ) (args : List RespValue) (s : RedisStorage)
    → IsConfined index s (cmd_scard clock index args s)
unfolding cmd_scard
cmd_scard-IsConfined clock index [] s = search confined_rules
cmd_scard-IsConfined clock index (a ∷ rest) s = search confined_rules

pub cmd_sismember-IsConfined :
    (clock : Clock) (index : ℕ) (args : List RespValue) (s : RedisStorage)
    → IsConfined index s (cmd_sismember clock index args s)
unfolding cmd_sismember
cmd_sismember-IsConfined clock index (a ∷ b ∷ rest) s = search confined_rules
cmd_sismember-IsConfined clock index [] s = search confined_rules
cmd_sismember-IsConfined clock index (a ∷ []) s = search confined_rules
