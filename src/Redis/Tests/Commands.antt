-- ===== src/Redis/Tests/Commands.antt =====
-- The theorems about the commands and the connection at concrete inputs.
use roris_db.Prelude.{
  ◌+◌, ◌<◌, ◌≡◌, ◌≢◌, refl, true, false, none, some, List, [], ◌∷◌, length, if◌then◌else◌, pos,
  arith, wrapping_add,
}
use roris_db.Bytes.{str, bytes_eq}
use roris_db.Bytes.Decimal.{parse_i64}
use roris_db.Table.{lookup}
use roris_db.Resp.{RespValue}
use roris_db.Resp.Encoder.{ok_reply, null_reply, bulk_reply, integer_reply}
use roris_db.Redis.Storage.{string, list, Database, RedisStorage, new_database, get_db, deadline}
use roris_db.Redis.Storage.View.{live, value_of}
use roris_db.Redis.Handler.{command_name, handle_command}
use roris_db.Redis.Handler.Args.{get_arg_str, wrong_type_reply}
use roris_db.Redis.Handler.Strings.{SetOptions, set_on, cmd_set, cmd_get, incr_on}
use roris_db.Redis.Handler.Keys.{rename_on}
use roris_db.Redis.Handler.Keys.{del_all}
use roris_db.Redis.Handler.Growth.{any_text}
use roris_db.Redis.Handler.Deletes.{del_all_lem}
use roris_db.Redis.Tests.{one_key-HasUniqueKeys}
use roris_db.Redis.Handler.Writes.{refused, written_entry, set_on-reply, set_on-live}
use roris_db.Redis.Handler.SetGet.{cmd_get-cmd_set}
use roris_db.Redis.Handler.Counter.{HoldsNumber, refusal, counter, incr_on-number, incr_on-refused}
use roris_db.Redis.Handler.Rename.{kept_deadline, rename_on_lem}
use roris_db.Redis.Handler.Confined.Dispatch.{handle_command-other_db}
use roris_db.Redis.Connection.{Connection, drain}
use roris_db.Redis.Connection.Drain.{drain_ends}
use roris_db.Redis.Connection.Pipeline.{stream, run_all, AllWithinLimits, drain-stream}
use roris_db.Redis.Tests.{ascii, still, idle, one_key, word, command, ticking}

-- two databases; the first holds one key
abbrev two_databases : RedisStorage
two_databases = record { databases = one_key ∷ new_database ∷ [] }

is_no_flushall : command_name ascii (word (str "set")) ≢ some (str "FLUSHALL")
unfolding command_name str
is_no_flushall e = cc

handle_command-other_db_example :
    (get_db
        (handle_command ascii none ticking 1
          (word (str "set") ∷ word (str "k") ∷ word (str "v") ∷ [])
          two_databases).1
        0
      ≡ get_db two_databases 0)
    × (length
          (handle_command ascii none ticking 1
            (word (str "set") ∷ word (str "k") ∷ word (str "v") ∷ [])
            two_databases).1.databases
        ≡ length two_databases.databases)
handle_command-other_db_example =
    handle_command-other_db ascii none ticking 1 (word (str "set"))
      (word (str "k") ∷ word (str "v") ∷ []) two_databases 0 is_no_flushall (λ e. cc)

here : get_db two_databases 0 ≡ some one_key
unfolding get_db
here = refl

key_word : get_arg_str (word (str "a")) ≡ some (str "a")
unfolding get_arg_str str
key_word = refl

value_word : get_arg_str (word (str "x")) ≡ some (str "x")
unfolding get_arg_str str
value_word = refl

cmd_get-cmd_set_example :
    ((cmd_set ascii ticking 0 (word (str "a") ∷ word (str "x") ∷ []) two_databases).0 ≡ ok_reply)
    × ((cmd_get
          (still 0)
          0
          (word (str "a") ∷ [])
          (cmd_set ascii ticking 0 (word (str "a") ∷ word (str "x") ∷ []) two_databases).1).0
        ≡ bulk_reply (str "x"))
cmd_get-cmd_set_example =
    cmd_get-cmd_set ascii ticking (still 0) 0 (word (str "a")) (word (str "x")) [] (str "a")
      (str "x") two_databases one_key here key_word value_word

-- SET a x NX EX 3
abbrev nx : SetOptions
nx = record { ttl = some 3; nx = true; xx = false }

set_on-reply_example :
    (set_on ticking (str "b") (str "x") nx one_key).0
    ≡ (if refused ticking (str "b") nx one_key then null_reply else ok_reply)
set_on-reply_example = set_on-reply ticking (str "b") (str "x") one_key (omega arith) nx

set_on-live_example : live 5 (str "a") (set_on ticking (str "b") (str "x") nx one_key).1 ≡ (
    if refused ticking (str "b") nx one_key
    then live 5 (str "a") one_key
    else if bytes_eq (str "b") (str "a")
    then written_entry (string (str "x")) (deadline 2 (some 3)) 5
    else live 5 (str "a") one_key)
set_on-live_example =
    set_on-live ticking (str "b") (str "x") one_key (omega arith) nx 5 (str "a") (omega arith)

reads_41 : HoldsNumber (value_of (live 0 (str "a") one_key)) (pos 41)
unfolding live lookup bytes_eq str parse_i64
reads_41 = refl

incr_on-number_example :
    ((incr_on ticking (str "a") (pos 1) one_key).0 ≡ integer_reply (wrapping_add (pos 41) (pos 1)))
    × (live 9 (str "a") (incr_on ticking (str "a") (pos 1) one_key).1
        ≡ some (counter (wrapping_add (pos 41) (pos 1))))
incr_on-number_example = incr_on-number ticking (str "a") (pos 1) one_key (pos 41) 9 reads_41

-- one key that holds a text
abbrev text_key : Database
text_key = record {
  entries = (str "a", record { value = list (str "x" ∷ []); expires_at = none }) ∷ [];
}

reads_wrong_type : refusal (value_of (live 0 (str "a") text_key)) ≡ some wrong_type_reply
unfolding wrong_type_reply live lookup bytes_eq str
reads_wrong_type = refl

incr_on-refused_example :
    ((incr_on ticking (str "a") (pos 1) text_key).0 ≡ wrong_type_reply)
    × (live 9 (str "a") (incr_on ticking (str "a") (pos 1) text_key).1 ≡ live 9 (str "a") text_key)
incr_on-refused_example =
    incr_on-refused ticking (str "a") (pos 1) text_key wrong_type_reply 9 (str "a") reads_wrong_type
      (omega arith)

there : value_of (live 0 (str "a") one_key) ≡ some (string (str "41"))
unfolding live lookup bytes_eq str
there = refl

rename_on_lem_example :
    ((rename_on ticking (str "a") (str "b") one_key).0 ≡ ok_reply)
    × (live 6 (str "b") (rename_on ticking (str "a") (str "b") one_key).1 ≡ (
        if bytes_eq (str "a") (str "b")
        then none
        else if bytes_eq (str "b") (str "b")
        then written_entry (string (str "41")) (kept_deadline 2 3 (live 2 (str "a") one_key)) 6
        else live 6 (str "b") one_key))
rename_on_lem_example =
    rename_on_lem ticking (str "a") (str "b") (string (str "41")) one_key there 6 (str "b")
      (omega arith) (omega arith)

-- SET a 41, SELECT 1 and GET a in one buffer
abbrev pipelined : List RespValue
pipelined =
    command (str "set" ∷ str "a" ∷ str "41" ∷ [])
    ∷ command (str "select" ∷ str "1" ∷ [])
    ∷ command (str "get" ∷ str "a" ∷ [])
    ∷ []

pipelined-AllWithinLimits : AllWithinLimits pipelined
unfolding str
pipelined-AllWithinLimits = (
  (omega arith, (omega arith, (omega arith, (omega arith, tt)))),
  (
    (omega arith, (omega arith, (omega arith, tt))),
    ((omega arith, (omega arith, (omega arith, tt))), tt),
  ),
)

drain-stream_example :
    drain ascii none still (record (idle []) { read_buf = stream pipelined })
    ≡ some (run_all ascii none still pipelined (idle []))
drain-stream_example = drain-stream ascii none still pipelined (idle []) pipelined-AllWithinLimits

drain_ends_example :
    (c : Connection) × ((drain ascii none still (idle (str "*1\r\n$4\r\nPING\r\nping\r\n*"))
        ≡ some c)
      × (c.db_index < 16))
drain_ends_example =
    drain_ends ascii none still (idle (str "*1\r\n$4\r\nPING\r\nping\r\n*")) (omega arith)

-- DEL b a
abbrev two_words : List RespValue
two_words = word (str "b") ∷ word (str "a") ∷ []

del_all_lem_example :
    (live 6 (str "a") (del_all two_words 0 one_key).1
      ≡ (if any_text (str "a") two_words then none else live 6 (str "a") one_key))
    × (length (del_all two_words 0 one_key).1.entries + (del_all two_words 0 one_key).0
        ≡ length one_key.entries)
del_all_lem_example = del_all_lem two_words one_key 6 (str "a") one_key-HasUniqueKeys
