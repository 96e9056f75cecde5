-- ===== src/Redis/Handler/Confined/Keys.antt =====
-- crates/redis-protocol/src/handler.rs: the databases that the commands of Keys can change.
use roris_db.Prelude.{ℕ, List, [], ◌∷◌, ℤ, pos, negsuc}
use roris_db.Bytes.{Bytes}
use roris_db.Resp.{RespValue}
use roris_db.Redis.Storage.{RedisStorage}
use roris_db.Redis.Runtime.{Runtime, Clock}
use roris_db.Redis.Handler.Keys.{
  cmd_del, cmd_exists, cmd_expire, expire_seconds, cmd_ttl, cmd_type, cmd_keys, cmd_rename,
}
use roris_db.Redis.Handler.Confined.Rules.{IsConfined, confined_rules}

pub cmd_del-IsConfined :
    (clock : Clock) (index : ℕ) (args : List RespValue) (s : RedisStorage)
    → IsConfined index s (cmd_del clock index args s)
unfolding cmd_del
cmd_del-IsConfined clock index args s = search confined_rules

pub cmd_exists-IsConfined :
    (clock : Clock) (index : ℕ) (args : List RespValue) (s : RedisStorage)
    → IsConfined index s (cmd_exists clock index args s)
unfolding cmd_exists
cmd_exists-IsConfined clock index args s = search confined_rules

expire_seconds-IsConfined :
    (clock : Clock) (index : ℕ) (key : Bytes) (s : RedisStorage) (n : ℤ)
    → IsConfined index s (expire_seconds clock index key s n)
expire_seconds-IsConfined clock index key s (pos n) = search confined_rules
expire_seconds-IsConfined clock index key s (negsuc n) = search confined_rules

pub cmd_expire-IsConfined :
    (clock : Clock) (index : ℕ) (args : List RespValue) (s : RedisStorage)
    → IsConfined index s (cmd_expire clock index args s)
unfolding cmd_expire
cmd_expire-IsConfined clock index (a ∷ b ∷ rest) s =
    search (confined_rules, expire_seconds-IsConfined)
cmd_expire-IsConfined clock index [] s = search confined_rules
cmd_expire-IsConfined clock index (a ∷ []) s = search confined_rules

pub cmd_ttl-IsConfined :
    (clock : Clock) (index : ℕ) (args : List RespValue) (s : RedisStorage)
    → IsConfined index s (cmd_ttl clock index args s)
unfolding cmd_ttl
cmd_ttl-IsConfined clock index [] s = search confined_rules
cmd_ttl-IsConfined clock index (a ∷ rest) s = search confined_rules

pub cmd_type-IsConfined :
    (clock : Clock) (index : ℕ) (args : List RespValue) (s : RedisStorage)
    → IsConfined index s (cmd_type clock index args s)
unfolding cmd_type
cmd_type-IsConfined clock index [] s = search confined_rules
cmd_type-IsConfined clock index (a ∷ rest) s = search confined_rules

pub cmd_keys-IsConfined :
    (rt : Runtime) (clock : Clock) (index : ℕ) (args : List RespValue) (s : RedisStorage)
    → IsConfined index s (cmd_keys rt clock index args s)
unfolding cmd_keys
cmd_keys-IsConfined rt clock index [] s = search confined_rules
cmd_keys-IsConfined rt clock index (a ∷ rest) s = search confined_rules

pub cmd_rename-IsConfined :
    (clock : Clock) (index : ℕ) (args : List RespValue) (s : RedisStorage)
    → IsConfined index s (cmd_rename clock index args s)
unfolding cmd_rename
cmd_rename-IsConfined clock index (a ∷ b ∷ rest) s = search confined_rules
cmd_rename-IsConfined clock index [] s = search confined_rules
cmd_rename-IsConfined clock index (a ∷ []) s = search confined_rules
