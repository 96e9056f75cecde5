-- ===== src/Redis/Handler/Confined/Server.antt =====
-- crates/redis-protocol/src/handler.rs: the databases that the commands of Server can change.
use roris_db.Prelude.{ℕ, Option, none, some, List, [], ◌∷◌}
use roris_db.Bytes.{Bytes}
use roris_db.Resp.{RespValue}
use roris_db.Redis.Storage.{RedisStorage}
use roris_db.Redis.Runtime.{Runtime, Clock}
use roris_db.Redis.Handler.Server.{
  cmd_ping, cmd_echo, cmd_ok, cmd_auth, cmd_select, cmd_info, cmd_dbsize, cmd_flushdb, cmd_config,
  cmd_client,
}
use roris_db.Redis.Handler.Confined.Rules.{IsConfined, confined_rules}

pub cmd_ping-IsConfined :
    (clock : Clock) (index : ℕ) (args : List RespValue) (s : RedisStorage)
    → IsConfined index s (cmd_ping clock index args s)
unfolding cmd_ping
cmd_ping-IsConfined clock index [] s = search confined_rules
cmd_ping-IsConfined clock index (a ∷ rest) s = search confined_rules

pub cmd_echo-IsConfined :
    (clock : Clock) (index : ℕ) (args : List RespValue) (s : RedisStorage)
    → IsConfined index s (cmd_echo clock index args s)
unfolding cmd_echo
cmd_echo-IsConfined clock index [] s = search confined_rules
cmd_echo-IsConfined clock index (a ∷ rest) s = search confined_rules

pub cmd_ok-IsConfined :
    (clock : Clock) (index : ℕ) (args : List RespValue) (s : RedisStorage)
    → IsConfined index s (cmd_ok clock index args s)
unfolding cmd_ok
cmd_ok-IsConfined clock index args s = search confined_rules

pub cmd_auth-IsConfined :
    (password : Option Bytes) (clock : Clock) (index : ℕ) (args : List RespValue) (s : RedisStorage)
    → IsConfined index s (cmd_auth password clock index args s)
unfolding cmd_auth
cmd_auth-IsConfined none clock index args s = search confined_rules
cmd_auth-IsConfined (some expected) clock index [] s = search confined_rules
cmd_auth-IsConfined (some expected) clock index (a ∷ rest) s = search confined_rules

pub cmd_select-IsConfined :
    (clock : Clock) (index : ℕ) (args : List RespValue) (s : RedisStorage)
    → IsConfined index s (cmd_select clock index args s)
unfolding cmd_select
cmd_select-IsConfined clock index [] s = search confined_rules
cmd_select-IsConfined clock index (a ∷ rest) s = search confined_rules

pub cmd_info-IsConfined :
    (clock : Clock) (index : ℕ) (args : List RespValue) (s : RedisStorage)
    → IsConfined index s (cmd_info clock index args s)
unfolding cmd_info
cmd_info-IsConfined clock index args s = search confined_rules

pub cmd_dbsize-IsConfined :
    (clock : Clock) (index : ℕ) (args : List RespValue) (s : RedisStorage)
    → IsConfined index s (cmd_dbsize clock index args s)
unfolding cmd_dbsize
cmd_dbsize-IsConfined clock index args s = search confined_rules

pub cmd_flushdb-IsConfined :
    (clock : Clock) (index : ℕ) (args : List RespValue) (s : RedisStorage)
    → IsConfined index s (cmd_flushdb clock index args s)
unfolding cmd_flushdb
cmd_flushdb-IsConfined clock index args s = search confined_rules

pub cmd_config-IsConfined :
    (rt : Runtime) (clock : Clock) (index : ℕ) (args : List RespValue) (s : RedisStorage)
    → IsConfined index s (cmd_config rt clock index args s)
unfolding cmd_config
cmd_config-IsConfined rt clock index [] s = search confined_rules
cmd_config-IsConfined rt clock index (a ∷ rest) s = search confined_rules

pub cmd_client-IsConfined :
    (rt : Runtime) (clock : Clock) (index : ℕ) (args : List RespValue) (s : RedisStorage)
    → IsConfined index s (cmd_client rt clock index args s)
unfolding cmd_client
cmd_client-IsConfined rt clock index [] s = search confined_rules
cmd_client-IsConfined rt clock index (a ∷ rest) s = search confined_rules
