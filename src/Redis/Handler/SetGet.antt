-- ===== src/Redis/Handler/SetGet.antt =====
-- crates/redis-protocol/src/handler.rs: `cmd_get` after `cmd_set`.
use roris_db.Prelude.{ℕ, ◌≡◌, refl, ap, ◌∙◌, none, some, List, [], ◌∷◌}
use roris_db.Bytes.{Bytes, bytes_eq_refl}
use roris_db.Resp.{RespValue}
use roris_db.Resp.Encoder.{bulk_reply, null_reply, ok_reply}
use roris_db.Redis.Storage.{string, Database, RedisStorage, get_db, get, set_entry}
use roris_db.Redis.Storage.View.{value_of, get-value}
use roris_db.Redis.Runtime.{Runtime, Clock}
use roris_db.Redis.Handler.Args.{with_held, get_arg_str}
use roris_db.Redis.Handler.Strings.{no_options, set_options, set_on, cmd_set, cmd_get}
use roris_db.Redis.Handler.Select.{write_db, with_db_here, get_db_written, need_str_here}
use roris_db.Redis.Handler.Writes.{written-live}

-- Without options SET is the write alone.
set_on_plain :
    (clock : Clock) (key value : Bytes) (db : Database)
    → set_on clock key value no_options db
      ≡ (ok_reply, set_entry (clock 2) key (string value) none db)
unfolding set_on
set_on_plain clock key value db = refl

get_of_set :
    (now later at : ℕ) (key value : Bytes) (db : Database)
    → (get now later key (set_entry at key (string value) none db)).0 ≡ some (string value)
get_of_set now later at key value db =
    get-value now key (set_entry at key (string value) none db) later
    ∙ ap value_of (written-live at key (string value) none db now key)
    ∙ rw (bytes_eq_refl key) refl

module _ (rt : Runtime) (clock clock' : Clock) (index : ℕ) (a b : RespValue) (key value : Bytes)
    (s : RedisStorage) (db : Database) where
  cmd_set_plain :
      get_db s index ≡ some db
      → get_arg_str a ≡ some key
      → get_arg_str b ≡ some value
      → cmd_set rt clock index (a ∷ b ∷ []) s
        ≡ (ok_reply, write_db s index (set_entry (clock 2) key (string value) none db))
  unfolding cmd_set set_options
  cmd_set_plain here ea eb =
      need_str_here a "ERR invalid key" s key _ ea
      ∙ need_str_here b "ERR invalid value" s value _ eb
      ∙ with_db_here s index db here _ (set_on clock key value no_options)
      ∙ ap (λ r. (r.0, write_db s index r.1)) (set_on_plain clock key value db)

  cmd_get_there :
      (text : Bytes) (rest : List RespValue)
      → get_db s index ≡ some db
      → get_arg_str a ≡ some key
      → (get (clock' 0) (clock' 1) key db).0 ≡ some (string text)
      → (cmd_get clock' index (a ∷ rest) s).0 ≡ bulk_reply text
  unfolding cmd_get with_held bulk_reply
  cmd_get_there text rest here ea found =
      ap (λ r. r.0)
        (need_str_here a "ERR invalid key" s key _ ea ∙ with_db_here s index db here null_reply _)
      ∙ rw (found, with_held) refl

-- A SET without options, of a text to a text on a database that exists, answers OK, and a GET of the
-- same key on the same database, at any reading of the clock, answers with the value, whatever the
-- key held before.
pub cmd_get-cmd_set :
    (rt : Runtime) (clock clock' : Clock) (index : ℕ) (a b : RespValue) (rest : List RespValue)
    (key value : Bytes) (s : RedisStorage) (db : Database)
    → get_db s index ≡ some db
    → get_arg_str a ≡ some key
    → get_arg_str b ≡ some value
    → ((cmd_set rt clock index (a ∷ b ∷ []) s).0 ≡ ok_reply)
      × ((cmd_get clock' index (a ∷ rest) (cmd_set rt clock index (a ∷ b ∷ []) s).1).0
          ≡ bulk_reply value)
cmd_get-cmd_set rt clock clock' index a b rest key value s db here ea eb =
    let done = cmd_set_plain rt clock clock' index a b key value s db here ea eb in
    let db' : Database = set_entry (clock 2) key (string value) none db in
    (
      ap (λ r. r.0) done,
      ap (λ r. (cmd_get clock' index (a ∷ rest) r.1).0) done
          ∙ cmd_get_there rt clock clock' index a b key value (write_db s index db') db' value rest
              (get_db_written s index db here db') ea
              (get_of_set (clock' 0) (clock' 1) (clock 2) key value db),
    )
