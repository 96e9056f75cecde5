-- ===== src/Redis/Handler/Confined/Strings.antt =====
-- crates/redis-protocol/src/handler.rs: the databases that the commands of Strings can change.
use roris_db.Prelude.{ℕ, List, [], ◌∷◌, ℤ}
use roris_db.Resp.{RespValue}
use roris_db.Redis.Storage.{RedisStorage}
use roris_db.Redis.Runtime.{Runtime, Clock}
use roris_db.Redis.Handler.Strings.{
  cmd_get, cmd_set, set_options, no_options, cmd_mget, cmd_mset, cmd_incrby_internal, cmd_incr,
  cmd_decr, cmd_incrby, cmd_decrby, cmd_append, cmd_strlen,
}
use roris_db.Redis.Handler.Confined.Rules.{
  IsConfined, confined_rules, need_str-IsConfined, result-IsConfined, reply-IsConfined,
  with_db-IsConfined,
}

pub cmd_get-IsConfined :
    (clock : Clock) (index : ℕ) (args : List RespValue) (s : RedisStorage)
    → IsConfined index s (cmd_get clock index args s)
unfolding cmd_get
cmd_get-IsConfined clock index [] s = search confined_rules
cmd_get-IsConfined clock index (a ∷ rest) s = search confined_rules

pub cmd_set-IsConfined :
    (rt : Runtime) (clock : Clock) (index : ℕ) (args : List RespValue) (s : RedisStorage)
    → IsConfined index s (cmd_set rt clock index args s)
unfolding cmd_set
cmd_set-IsConfined rt clock index [] s = search confined_rules
cmd_set-IsConfined rt clock index (a ∷ []) s = search confined_rules
cmd_set-IsConfined rt clock index (a ∷ b ∷ rest) s = need_str-IsConfined index s a _ _ (λ key.
    need_str-IsConfined index s b _ _ (λ value.
      result-IsConfined index s (set_options rt rest no_options) _ _
        (λ msg. reply-IsConfined index s _) (λ o. with_db-IsConfined index s _ _)))

pub cmd_mget-IsConfined :
    (clock : Clock) (index : ℕ) (args : List RespValue) (s : RedisStorage)
    → IsConfined index s (cmd_mget clock index args s)
unfolding cmd_mget
cmd_mget-IsConfined clock index args s = search confined_rules

pub cmd_mset-IsConfined :
    (clock : Clock) (index : ℕ) (args : List RespValue) (s : RedisStorage)
    → IsConfined index s (cmd_mset clock index args s)
unfolding cmd_mset
cmd_mset-IsConfined clock index args s = search confined_rules

pub cmd_incrby_internal-IsConfined :
    (clock : Clock) (index : ℕ) (args : List RespValue) (increment : ℤ) (s : RedisStorage)
    → IsConfined index s (cmd_incrby_internal clock index args increment s)
unfolding cmd_incrby_internal
cmd_incrby_internal-IsConfined clock index [] increment s = search confined_rules
cmd_incrby_internal-IsConfined clock index (a ∷ rest) increment s = search confined_rules

pub cmd_incr-IsConfined :
    (clock : Clock) (index : ℕ) (args : List RespValue) (s : RedisStorage)
    → IsConfined index s (cmd_incr clock index args s)
unfolding cmd_incr
cmd_incr-IsConfined clock index args s = search (confined_rules, cmd_incrby_internal-IsConfined)

pub cmd_decr-IsConfined :
    (clock : Clock) (index : ℕ) (args : List RespValue) (s : RedisStorage)
    → IsConfined index s (cmd_decr clock index args s)
unfolding cmd_decr
cmd_decr-IsConfined clock index args s = search (confined_rules, cmd_incrby_internal-IsConfined)

pub cmd_incrby-IsConfined :
    (clock : Clock) (index : ℕ) (args : List RespValue) (s : RedisStorage)
    → IsConfined index s (cmd_incrby clock index args s)
unfolding cmd_incrby
cmd_incrby-IsConfined clock index (a ∷ b ∷ rest) s =
    search (confined_rules, cmd_incrby_internal-IsConfined)
cmd_incrby-IsConfined clock index [] s = search confined_rules
cmd_incrby-IsConfined clock index (a ∷ []) s = search confined_rules

pub cmd_decrby-IsConfined :
    (clock : Clock) (index : ℕ) (args : List RespValue) (s : RedisStorage)
    → IsConfined index s (cmd_decrby clock index args s)
unfolding cmd_decrby
cmd_decrby-IsConfined clock index (a ∷ b ∷ rest) s =
    search (confined_rules, cmd_incrby_internal-IsConfined)
cmd_decrby-IsConfined clock index [] s = search confined_rules
cmd_decrby-IsConfined clock index (a ∷ []) s = search confined_rules

pub cmd_append-IsConfined :
    (clock : Clock) (index : ℕ) (args : List RespValue) (s : RedisStorage)
    → IsConfined index s (cmd_append clock index args s)
unfolding cmd_append
cmd_append-IsConfined clock index (a ∷ b ∷ rest) s = search confined_rules
cmd_append-IsConfined clock index [] s = search confined_rules
cmd_append-IsConfined clock index (a ∷ []) s = search confined_rules

pub cmd_strlen-IsConfined :
    (clock : Clock) (index : ℕ) (args : List RespValue) (s : RedisStorage)
    → IsConfined index s (cmd_strlen clock index args s)
unfolding cmd_strlen
cmd_strlen-IsConfined clock index [] s = search confined_rules
cmd_strlen-IsConfined clock index (a ∷ rest) s = search confined_rules
