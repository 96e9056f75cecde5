-- ===== src/Redis/Tests.antt =====
-- Concrete runs of the Redis server, and the theorems about it at concrete inputs.
mod Commands
mod Collections
use roris_db.Prelude.{
  ℕ, zero, suc, ◌+◌, ◌-◌, ◌≤◌, ◌≡◌, refl, Bool, true, false, ◌&&◌, Option, none, some, List, [],
  ◌∷◌, ◌++◌, map, leb, if◌then◌else◌, ℤ, pos, negsuc, arith,
}
use roris_db.Bytes.{Bytes, str, bytes_eq}
use roris_db.Table.{lookup, contains_key, HasUniqueKeys}
use roris_db.Resp.{RespValue, bulk_string, array, from_list}
use roris_db.Resp.Encoder.{ok_reply, null_reply, bulk_reply, integer_reply}
use roris_db.Redis.Storage.{
  RedisValue, string, Entry, Database, RedisStorage, new_database, new_storage, get_db, get,
  set_entry, exists, expire, ttl, drop_expired, deadline,
}
use roris_db.Redis.Storage.{del, keys_matching, clear}
use roris_db.Redis.Storage.View.{live, value_of, is_some, seconds_left}
use roris_db.Redis.Storage.Refinement.{reads_refine, get-set_entry, get-expire, lookup-drop_expired}
use roris_db.Redis.Runtime.{Runtime, Clock}
use roris_db.Redis.Connection.{Connection, drain}

abbrev pub upper : Bytes → Bytes
upper [] = []
upper (c ∷ s) = (if leb b'a' c && leb c b'z' then c - 32 else c) ∷ upper s

-- ASCII case mapping, no floats, and the regular expressions that are plain texts.
abbrev pub ascii : Runtime
ascii = record {
  to_uppercase = upper;
  from_utf8_lossy = λ s. s;
  parse_f64 = λ s. none;
  f64_to_string = λ x. [];
  compile = λ s. some (bytes_eq s);
}

abbrev pub still : ℕ → Clock
still k i = 5

abbrev pub idle : Bytes → Connection
idle input = record { read_buf = input; db_index = 0; storage = new_storage 16; written = [] }

-- one key, which holds a number and expires after the time 7
abbrev pub one_key : Database
one_key = record {
  entries = (str "a", record { value = string (str "41"); expires_at = some 7 }) ∷ [];
}

-- `key` on its own, and in an array of texts
abbrev pub word : Bytes → RespValue
word s = bulk_string s

abbrev pub command : List Bytes → RespValue
command ws = array (from_list (map bulk_string ws))

abbrev pub ticking : Clock
ticking i = i

pub one_key-HasUniqueKeys : HasUniqueKeys one_key.entries
unfolding lookup
one_key-HasUniqueKeys = (refl, tt)

get-set_entry_example :
    (get 9 9 (str "a") (set_entry 5 (str "a") (string (str "x")) (some 4) one_key)).0 ≡ (
      if bytes_eq (str "a") (str "a")
      then (if leb 9 (5 + 4) then some (string (str "x")) else none)
      else (get 9 9 (str "a") one_key).0)
get-set_entry_example = get-set_entry 5 4 9 9 (str "a") (str "a") (string (str "x")) one_key

reads_refine_example :
    ((get 8 8 (str "a") one_key).0 ≡ value_of (live 8 (str "a") one_key))
    × ((exists 8 (str "a") one_key).0 ≡ is_some (live 8 (str "a") one_key))
    × ((ttl 8 (str "a") one_key).0 ≡ seconds_left 8 (live 8 (str "a") one_key))
    × (live 9 (str "a") (get 8 8 (str "a") one_key).1 ≡ live 9 (str "a") one_key)
    × (live 9 (str "a") (exists 8 (str "a") one_key).1 ≡ live 9 (str "a") one_key)
    × (live 9 (str "a") (ttl 8 (str "a") one_key).1 ≡ live 9 (str "a") one_key)
reads_refine_example = reads_refine 8 8 (str "a") one_key 9 (str "a") (omega arith)
