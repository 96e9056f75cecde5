-- ===== src/Redis/Handler/Strings.antt =====
-- crates/redis-protocol/src/handler.rs: the string commands. The arithmetic is that of a build
-- without overflow checks (Cargo's release profile): it wraps around.
use Prim.Native.String.{String}
use roris_db.Prelude.{
  ℕ, zero, suc, ◌+◌, ◌*◌, ◌%◌, Bool, true, false, not, Option, none, some, List, [], ◌∷◌, ◌++◌,
  length, ◌==◌, if◌then◌else◌, ℤ, pos, negsuc, wrapping_add, wrapping_neg, ◌⊎◌, inl, inr,
}
use roris_db.Bytes.{Bytes, str, bytes_eq}
use roris_db.Bytes.Decimal.{int_to_string, parse_i64}
use roris_db.Resp.{RespValue, RespValues, bulk_string, null, array, nil, cons}
use roris_db.Resp.Encoder.{
  error_reply, integer_reply, bulk_reply, null_reply, ok_reply, encode_to_bytes,
}
use roris_db.Redis.Storage.{string, Database, RedisStorage, get, set_entry, exists, nanos}
use roris_db.Redis.Runtime.{Runtime, Clock}
use roris_db.Redis.Handler.Args.{
  Response, Held, missing, held, wrong_type, get_arg_str, get_arg_int, need_str, need_int, with_db,
  string_at, with_held, or_new, wrong_type_reply,
}

unfoldable pub cmd_get : Clock → ℕ → List RespValue → RedisStorage → Response
cmd_get clock index [] s = (error_reply "ERR wrong number of arguments for 'get' command", s)
cmd_get clock index (a ∷ _) s = need_str a "ERR invalid key" s λ key.
    with_db s index null_reply λ db.
      let (v, db') = get (clock 0) (clock 1) key db in
      with_held (string_at v) db' null_reply λ text. (bulk_reply text, db')

pub record SetOptions : Type 0 where
  pub ttl : Option ℕ
  pub nx : Bool
  pub xx : Bool

abbrev pub no_options : SetOptions
no_options = record { ttl = none; nx = false; xx = false }

pub data OptionWord : Type 0 where
  ex px nx_word xx_word other : OptionWord

abbrev pub word_of : Bytes → OptionWord
word_of w =
    if bytes_eq w (str "EX")
    then ex
    else if bytes_eq w (str "PX")
    then px
    else if bytes_eq w (str "NX")
    then nx_word
    else if bytes_eq w (str "XX")
    then xx_word
    else other

-- `args[i]`, upper-cased; an argument that is no text is skipped like an unknown word
unfoldable pub option_word : Runtime → RespValue → OptionWord
option_word rt a = elim (get_arg_str a) [ none ↦ other | some w ↦ word_of (rt.to_uppercase w) ]

-- `args[i + 1]` behind EX or PX, in units of `scale` nanoseconds; no number leaves `ttl` alone.
unfoldable pub timed : ℕ → RespValue → SetOptions → Option SetOptions
timed scale b o = elim (get_arg_int b) [
  | none ↦ some o
  | some (pos zero) ↦ none
  | some (pos (suc n)) ↦ some (record o { ttl = some (suc n * scale) })
  | some (negsuc n) ↦ none
]

-- The `while i < args.len()` loop; the error is the message that it returns with.
unfoldable pub set_options : Runtime → List RespValue → SetOptions → String ⊎ SetOptions
unfolding option_word timed
set_options rt [] o = inr o
set_options rt (a ∷ []) o = elim (option_word rt a) [
  | ex ↦ inl "ERR syntax error"
  | px ↦ inl "ERR syntax error"
  | nx_word ↦ inr (record o { nx = true })
  | xx_word ↦ inr (record o { xx = true })
  | other ↦ inr o
]
set_options rt (a ∷ b ∷ rest) o = elim (option_word rt a) [
  | ex ↦ elim (timed nanos b o) [
    | none ↦ inl "ERR invalid expire time in 'set' command"
    | some o' ↦ set_options rt rest o'
  ]
  | px ↦ elim (timed 1000000 b o) [
    | none ↦ inl "ERR invalid expire time in 'set' command"
    | some o' ↦ set_options rt rest o'
  ]
  | nx_word ↦ set_options rt (b ∷ rest) (record o { nx = true })
  | xx_word ↦ set_options rt (b ∷ rest) (record o { xx = true })
  | other ↦ set_options rt (b ∷ rest) o
]

-- `nx && db.exists(&key)`: the key is looked up only if the flag is set.
abbrev pub exists_if : Bool → ℕ → Bytes → Database → Bool × Database
exists_if false now key db = (false, db)
exists_if true now key db = exists now key db

-- `!db.exists(&key)`, likewise
abbrev pub absent_if : Bool → ℕ → Bytes → Database → Bool × Database
absent_if false now key db = (false, db)
absent_if true now key db = let (found, db') = exists now key db in (not found, db')

unfoldable pub set_on : Clock → Bytes → Bytes → SetOptions → Database → Bytes × Database
set_on clock key value o db =
    let (refused, db1) = exists_if o.nx (clock 0) key db in
    if refused
    then (null_reply, db1)
    else let (refused', db2) = absent_if o.xx (clock 1) key db1 in
      if refused'
      then (null_reply, db2)
      else (ok_reply, set_entry (clock 2) key (string value) o.ttl db2)

unfoldable pub cmd_set : Runtime → Clock → ℕ → List RespValue → RedisStorage → Response
unfolding set_options set_on
cmd_set rt clock index [] s = (error_reply "ERR wrong number of arguments for 'set' command", s)
cmd_set rt clock index (a ∷ []) s =
    (error_reply "ERR wrong number of arguments for 'set' command", s)
cmd_set rt clock index (a ∷ b ∷ rest) s = need_str a "ERR invalid key" s λ key.
    need_str b "ERR invalid value" s λ value. elim (set_options rt rest no_options) [
      | inl msg ↦ (error_reply msg, s)
      | inr o ↦ with_db s index (error_reply "ERR invalid database") (set_on clock key value o)
    ]

-- one key of MGET
unfoldable pub mget_one : ℕ → ℕ → RespValue → Database → RespValue × Database
mget_one now later a db = elim (get_arg_str a) [
  | none ↦ (null, db)
  | some key ↦
      let (v, db') = get now later key db in
      (
        elim (string_at v) [ missing ↦ null | held text ↦ bulk_string text | wrong_type ↦ null ],
        db',
      )
]

unfoldable pub mget_all : Clock → ℕ → List RespValue → Database → RespValues × Database
unfolding mget_one
mget_all clock k [] db = (nil, db)
mget_all clock k (a ∷ args) db =
    let (v, db1) = mget_one (clock k) (clock (k + 1)) a db in
    let (vs, db2) = mget_all clock (k + 2) args db1 in (cons v vs, db2)

abbrev pub nulls : List RespValue → RespValues
nulls [] = nil
nulls (a ∷ args) = cons null (nulls args)

unfoldable pub cmd_mget : Clock → ℕ → List RespValue → RedisStorage → Response
unfolding mget_all
cmd_mget clock index args s =
    with_db s index (encode_to_bytes (array (nulls args)))
      λ db. let (vs, db') = mget_all clock 0 args db in (encode_to_bytes (array vs), db')

-- one pair of MSET; a pair that is not two texts is skipped
unfoldable pub mset_one : ℕ → RespValue → RespValue → Database → Database
mset_one now a b db = elim (get_arg_str a) [
  | none ↦ db
  | some key ↦ elim (get_arg_str b) [
    | none ↦ db
    | some value ↦ set_entry now key (string value) none db
  ]
]

unfoldable pub mset_all : Clock → ℕ → List RespValue → Database → Database
unfolding mset_one
mset_all clock k [] db = db
mset_all clock k (a ∷ []) db = db
mset_all clock k (a ∷ b ∷ rest) db = mset_all clock (k + 1) rest (mset_one (clock k) a b db)

unfoldable pub cmd_mset : Clock → ℕ → List RespValue → RedisStorage → Response
unfolding mset_all
cmd_mset clock index args s =
    if length args % 2 == 0
    then with_db s index (error_reply "ERR invalid database")
        (λ db. (ok_reply, mset_all clock 0 args db))
    else (error_reply "ERR wrong number of arguments for MSET", s)

-- The number that a key stands for, or the reply of the early return.
abbrev pub current_number : Held Bytes → Bytes ⊎ ℤ
current_number missing = inr (pos 0)
current_number (held text) = elim (parse_i64 text) [
  | none ↦ inl (error_reply "ERR value is not an integer or out of range")
  | some n ↦ inr n
]
current_number wrong_type = inl wrong_type_reply

unfoldable pub incr_on : Clock → Bytes → ℤ → Database → Bytes × Database
incr_on clock key increment db =
    let (v, db') = get (clock 0) (clock 1) key db in
    elim (current_number (string_at v)) [
      | inl reply ↦ (reply, db')
      | inr current ↦
          let new_value = wrapping_add current increment in
          (
            integer_reply new_value,
            set_entry (clock 2) key (string (int_to_string new_value)) none db',
          )
    ]

unfoldable pub cmd_incrby_internal : Clock → ℕ → List RespValue → ℤ → RedisStorage → Response
unfolding incr_on
cmd_incrby_internal clock index [] increment s = (error_reply "ERR wrong number of arguments", s)
cmd_incrby_internal clock index (a ∷ _) increment s =
    need_str a "ERR invalid key" s
      λ key. with_db s index (error_reply "ERR invalid database") (incr_on clock key increment)

unfoldable pub cmd_incr : Clock → ℕ → List RespValue → RedisStorage → Response
unfolding cmd_incrby_internal
cmd_incr clock index args s = cmd_incrby_internal clock index args (pos 1) s

unfoldable pub cmd_decr : Clock → ℕ → List RespValue → RedisStorage → Response
unfolding cmd_incrby_internal
cmd_decr clock index args s = cmd_incrby_internal clock index args (negsuc 0) s

unfoldable pub cmd_incrby : Clock → ℕ → List RespValue → RedisStorage → Response
unfolding cmd_incrby_internal
cmd_incrby clock index (a ∷ b ∷ _) s =
    need_int b "ERR value is not an integer or out of range" s
      λ n. cmd_incrby_internal clock index (a ∷ []) n s
cmd_incrby clock index _ s = (error_reply "ERR wrong number of arguments for 'incrby' command", s)

unfoldable pub cmd_decrby : Clock → ℕ → List RespValue → RedisStorage → Response
unfolding cmd_incrby_internal
cmd_decrby clock index (a ∷ b ∷ _) s =
    need_int b "ERR value is not an integer or out of range" s
      λ n. cmd_incrby_internal clock index (a ∷ []) (wrapping_neg n) s
cmd_decrby clock index _ s = (error_reply "ERR wrong number of arguments for 'decrby' command", s)

unfoldable pub cmd_append : Clock → ℕ → List RespValue → RedisStorage → Response
cmd_append clock index (a ∷ b ∷ _) s = need_str a "ERR invalid key" s λ key.
    need_str b "ERR invalid value" s λ more.
      with_db s index (error_reply "ERR invalid database") λ db.
        let (v, db') = get (clock 0) (clock 1) key db in
        with_held (or_new [] (string_at v)) db' null_reply λ current. (
          integer_reply (pos (length (current ++ more))),
          set_entry (clock 2) key (string (current ++ more)) none db',
        )
cmd_append clock index _ s = (error_reply "ERR wrong number of arguments for 'append' command", s)

unfoldable pub cmd_strlen : Clock → ℕ → List RespValue → RedisStorage → Response
cmd_strlen clock index [] s = (error_reply "ERR wrong number of arguments for 'strlen' command", s)
cmd_strlen clock index (a ∷ _) s = need_str a "ERR invalid key" s λ key.
    with_db s index (integer_reply (pos 0)) λ db.
      let (v, db') = get (clock 0) (clock 1) key db in
      with_held (string_at v) db' (integer_reply (pos 0))
        λ text. (integer_reply (pos (length text)), db')
