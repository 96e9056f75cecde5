-- ===== src/Redis/Handler/Lists.antt =====
-- crates/redis-protocol/src/handler.rs: the list commands.
use Prim.Native.Nat.{min}
use roris_db.Prelude.{
  ℕ, zero, suc, ◌+◌, ◌-◌, ◌^◌, Option, none, some, List, [], ◌∷◌, ◌++◌, map, length, get_elem?,
  take, drop, ltb, leb, ◌||◌, ℤ, pos, negsuc, ◌+ℤ◌, as_u64, if◌then◌else◌,
}
use roris_db.Bytes.{Bytes}
use roris_db.Resp.{RespValue, bulk_string}
use roris_db.Resp.Encoder.{error_reply, integer_reply, bulk_reply, null_reply}
use roris_db.Redis.Storage.{list, Database, RedisStorage, get, set_entry, del}
use roris_db.Redis.Runtime.{Clock}
use roris_db.Redis.Handler.Args.{
  Response, get_arg_str, need_str, need_int, with_db, list_at, with_held, or_new, array_reply,
}

-- `push_front` and `push_back` of each argument that is a text
unfoldable pub push_front_all : List RespValue → List Bytes → List Bytes
push_front_all [] l = l
push_front_all (a ∷ args) l =
    push_front_all args (elim (get_arg_str a) [ none ↦ l | some value ↦ value ∷ l ])

unfoldable pub push_back_all : List RespValue → List Bytes → List Bytes
push_back_all [] l = l
push_back_all (a ∷ args) l =
    push_back_all args (elim (get_arg_str a) [ none ↦ l | some value ↦ l ++ value ∷ [] ])

unfoldable pub push_on :
    (List RespValue → List Bytes → List Bytes)
    → Clock
    → Bytes
    → List RespValue
    → Database
    → Bytes × Database
push_on push clock key values db =
    let (v, db') = get (clock 0) (clock 1) key db in
    with_held (or_new [] (list_at v)) db' null_reply λ l.
      let l' = push values l in
      (integer_reply (pos (length l')), set_entry (clock 2) key (list l') none db')

unfoldable pub cmd_lpush : Clock → ℕ → List RespValue → RedisStorage → Response
unfolding push_on push_front_all
cmd_lpush clock index (a ∷ b ∷ rest) s = need_str a "ERR invalid key" s λ key.
    with_db s index (error_reply "ERR invalid database")
      (push_on push_front_all clock key (b ∷ rest))
cmd_lpush clock index _ s = (error_reply "ERR wrong number of arguments for 'lpush' command", s)

unfoldable pub cmd_rpush : Clock → ℕ → List RespValue → RedisStorage → Response
unfolding push_on push_back_all
cmd_rpush clock index (a ∷ b ∷ rest) s = need_str a "ERR invalid key" s λ key.
    with_db s index (error_reply "ERR invalid database")
      (push_on push_back_all clock key (b ∷ rest))
cmd_rpush clock index _ s = (error_reply "ERR wrong number of arguments for 'rpush' command", s)

unfoldable pub pop_front : List Bytes → Option (Bytes × List Bytes)
pop_front [] = none
pop_front (x ∷ l) = some (x, l)

unfoldable pub pop_back : List Bytes → Option (Bytes × List Bytes)
pop_back [] = none
pop_back (x ∷ l) = elim (pop_back l) [ none ↦ some (x, []) | some (y, l') ↦ some (y, x ∷ l') ]

-- An empty list is removed with its key.
abbrev store_list : ℕ → Bytes → List Bytes → Database → Database
store_list now key [] db = (del key db).1
store_list now key (x ∷ l) db = set_entry now key (list (x ∷ l)) none db

unfoldable pub pop_on :
    (List Bytes → Option (Bytes × List Bytes)) → Clock → Bytes → Database → Bytes × Database
pop_on pop clock key db =
    let (v, db') = get (clock 0) (clock 1) key db in
    with_held (list_at v) db' null_reply λ l. elim (pop l) [
      | none ↦ (null_reply, db')
      | some (value, l') ↦ (bulk_reply value, store_list (clock 2) key l' db')
    ]

unfoldable pub cmd_lpop : Clock → ℕ → List RespValue → RedisStorage → Response
unfolding pop_on pop_front
cmd_lpop clock index [] s = (error_reply "ERR wrong number of arguments for 'lpop' command", s)
cmd_lpop clock index (a ∷ _) s =
    need_str a "ERR invalid key" s λ key. with_db s index null_reply (pop_on pop_front clock key)

unfoldable pub cmd_rpop : Clock → ℕ → List RespValue → RedisStorage → Response
unfolding pop_on pop_back
cmd_rpop clock index [] s = (error_reply "ERR wrong number of arguments for 'rpop' command", s)
cmd_rpop clock index (a ∷ _) s =
    need_str a "ERR invalid key" s λ key. with_db s index null_reply (pop_on pop_back clock key)

-- `if start < 0 { (len + start).max(0) } else { start.min(len) }`
unfoldable pub range_start : ℤ → ℕ → ℕ
range_start (pos n) len = min n len
range_start (negsuc n) len = len - suc n

-- `if stop < 0 { (len + stop).max(0) } else { stop.min(len - 1) }`, as a `usize`: with `len` 0
-- the second is -1.
unfoldable pub range_stop : ℤ → ℕ → ℕ
range_stop (pos n) zero = 2 ^ 64 - 1
range_stop (pos n) (suc m) = min n m
range_stop (negsuc n) len = len - suc n

unfoldable pub range_of : {A : Type 0} → ℤ → ℤ → List A → List A
unfolding range_start range_stop
range_of start stop l =
    let len = length l in
    let from = range_start start len in
    let to = range_stop stop len in
    if ltb to from || leb len from then [] else take (to - from + 1) (drop from l)

unfoldable pub cmd_lrange : Clock → ℕ → List RespValue → RedisStorage → Response
unfolding range_of
cmd_lrange clock index (a ∷ b ∷ c ∷ _) s = need_str a "ERR invalid key" s λ key.
    need_int b "ERR invalid start index" s λ start. need_int c "ERR invalid stop index" s λ stop.
      with_db s index (array_reply []) λ db.
        let (v, db') = get (clock 0) (clock 1) key db in
        with_held (list_at v) db' (array_reply [])
          λ l. (array_reply (map bulk_string (range_of start stop l)), db')
cmd_lrange clock index _ s = (error_reply "ERR wrong number of arguments for 'lrange' command", s)

unfoldable pub cmd_llen : Clock → ℕ → List RespValue → RedisStorage → Response
cmd_llen clock index [] s = (error_reply "ERR wrong number of arguments for 'llen' command", s)
cmd_llen clock index (a ∷ _) s = need_str a "ERR invalid key" s λ key.
    with_db s index (integer_reply (pos 0)) λ db.
      let (v, db') = get (clock 0) (clock 1) key db in
      with_held (list_at v) db' (integer_reply (pos 0)) λ l. (integer_reply (pos (length l)), db')

-- `if index < 0 { (l.len() as i64 + index) as usize } else { index as usize }`
unfoldable pub index_of : ℤ → ℕ → ℕ
index_of (pos n) len = n
index_of (negsuc n) len = as_u64 (pos len +ℤ negsuc n)

abbrev element_reply : Option Bytes → Bytes
element_reply none = null_reply
element_reply (some v) = bulk_reply v

unfoldable pub cmd_lindex : Clock → ℕ → List RespValue → RedisStorage → Response
unfolding index_of
cmd_lindex clock index (a ∷ b ∷ _) s = need_str a "ERR invalid key" s λ key.
    need_int b "ERR invalid index" s λ at. with_db s index null_reply λ db.
      let (v, db') = get (clock 0) (clock 1) key db in
      with_held (list_at v) db' null_reply
        λ l. (element_reply (get_elem? l (index_of at (length l))), db')
cmd_lindex clock index _ s = (error_reply "ERR wrong number of arguments for 'lindex' command", s)
