-- ===== src/Redis/Handler/Server.antt =====
-- crates/redis-protocol/src/handler.rs: the commands on the connection and the server.
use roris_db.Prelude.{
  ℕ, Option, none, some, List, [], ◌∷◌, ◌++◌, ltb, ℤ, pos, negsuc, if◌then◌else◌,
}
use roris_db.Bytes.{Bytes, str, bytes_eq}
use roris_db.Bytes.Decimal.{nat_to_string}
use roris_db.Resp.{RespValue}
use roris_db.Resp.Encoder.{error_reply, integer_reply, bulk_reply, null_reply, ok_reply, pong_reply}
use roris_db.Redis.Storage.{RedisStorage, clear, len, clear_all, total_keys}
use roris_db.Redis.Runtime.{Runtime, Clock}
use roris_db.Redis.Handler.Args.{Response, get_arg_str, need_str, need_int, with_db, array_reply}

unfoldable pub cmd_ping : Clock → ℕ → List RespValue → RedisStorage → Response
cmd_ping clock index [] s = (pong_reply, s)
cmd_ping clock index (a ∷ _) s =
    (elim (get_arg_str a) [ none ↦ pong_reply | some msg ↦ bulk_reply msg ], s)

unfoldable pub cmd_echo : Clock → ℕ → List RespValue → RedisStorage → Response
cmd_echo clock index [] s = (error_reply "ERR wrong number of arguments for 'echo' command", s)
cmd_echo clock index (a ∷ _) s = need_str a "ERR invalid argument" s λ msg. (bulk_reply msg, s)

-- QUIT and COMMAND
unfoldable pub cmd_ok : Clock → ℕ → List RespValue → RedisStorage → Response
cmd_ok clock index args s = (ok_reply, s)

-- The first argument is the handler's password.
unfoldable pub cmd_auth : Option Bytes → Clock → ℕ → List RespValue → RedisStorage → Response
cmd_auth none clock index args s = (error_reply "ERR Client sent AUTH, but no password is set", s)
cmd_auth (some expected) clock index [] s =
    (error_reply "ERR wrong number of arguments for 'auth' command", s)
cmd_auth (some expected) clock index (a ∷ _) s = need_str a "ERR invalid argument" s λ provided.
    (if bytes_eq provided expected then ok_reply else error_reply "ERR invalid password", s)

abbrev select_reply : ℤ → Bytes
select_reply (pos n) = if ltb n 16 then ok_reply else error_reply "ERR DB index out of range"
select_reply (negsuc n) = error_reply "ERR DB index out of range"

unfoldable pub cmd_select : Clock → ℕ → List RespValue → RedisStorage → Response
cmd_select clock index [] s = (error_reply "ERR wrong number of arguments for 'select' command", s)
cmd_select clock index (a ∷ _) s = need_int a "ERR invalid DB index" s λ db. (select_reply db, s)

unfoldable pub info_text : ℕ → Bytes
info_text keys =
    str
      "# Server\r\nredis_version:7.0.0\r\nharness_version:1.1.0\r\nredis_mode:standalone\r\nos:Linux\r\n"
    ++ (str
          "tcp_port:6379\r\n\r\n# Clients\r\nconnected_clients:1\r\n\r\n# Memory\r\nused_memory:0\r\n"
        ++ (str "used_memory_human:0B\r\n\r\n# Stats\r\ntotal_connections_received:1\r\n"
            ++ (str "total_commands_processed:0\r\n\r\n# Keyspace\r\ndb0:keys="
                ++ (nat_to_string keys ++ str ",expires=0,avg_ttl=0\r\n"))))

unfoldable pub cmd_info : Clock → ℕ → List RespValue → RedisStorage → Response
unfolding info_text
cmd_info clock index args s = (bulk_reply (info_text (total_keys s)), s)

unfoldable pub cmd_dbsize : Clock → ℕ → List RespValue → RedisStorage → Response
cmd_dbsize clock index args s =
    with_db s index (integer_reply (pos 0)) λ db. (integer_reply (pos (len db)), db)

unfoldable pub cmd_flushdb : Clock → ℕ → List RespValue → RedisStorage → Response
cmd_flushdb clock index args s = with_db s index ok_reply λ db. (ok_reply, clear db)

unfoldable pub cmd_flushall : Clock → ℕ → List RespValue → RedisStorage → Response
cmd_flushall clock index args s = (ok_reply, clear_all s)

-- `get_arg_str(&args[0]).unwrap_or("").to_uppercase()`
abbrev subcommand : Runtime → RespValue → Bytes
subcommand rt a = rt.to_uppercase (elim (get_arg_str a) [ none ↦ [] | some w ↦ w ])

unfoldable pub cmd_config : Runtime → Clock → ℕ → List RespValue → RedisStorage → Response
cmd_config rt clock index [] s =
    (error_reply "ERR wrong number of arguments for 'config' command", s)
cmd_config rt clock index (a ∷ _) s =
    let sub = subcommand rt a in
    (
      if bytes_eq sub (str "GET")
          then array_reply []
          else if bytes_eq sub (str "SET")
          then ok_reply
          else error_reply "ERR Unknown CONFIG subcommand",
      s,
    )

unfoldable pub cmd_client : Runtime → Clock → ℕ → List RespValue → RedisStorage → Response
cmd_client rt clock index [] s =
    (error_reply "ERR wrong number of arguments for 'client' command", s)
cmd_client rt clock index (a ∷ _) s =
    let sub = subcommand rt a in
    (
      if bytes_eq sub (str "SETNAME")
          then ok_reply
          else if bytes_eq sub (str "GETNAME")
          then null_reply
          else if bytes_eq sub (str "LIST")
          then bulk_reply (str "id=1 addr=127.0.0.1:12345 fd=5 name= db=0\n")
          else ok_reply,
      s,
    )
