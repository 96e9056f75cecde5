-- ===== src/Redis/Handler/SortedSets.antt =====
-- crates/redis-protocol/src/handler.rs: the sorted set commands, over a `BTreeSet` of scores and
-- members as the list of its elements in order. (With a NaN among the scores `OrderedFloat` is no
-- total order, and Rust leaves the place of an insertion open; here it is the first that fits.)
use Prim.Native.Nat.{compare, Ordering}
use roris_db.Prelude.{
  ℕ, ◌+◌, ◌-◌, ◌^◌, ◌%◌, Bool, true, false, ◌||◌, Option, none, some, List, [], ◌∷◌, length, ltb,
  pos, if◌then◌else◌,
}
use roris_db.Bytes.{Bytes, str, bytes_eq}
use roris_db.Resp.{RespValue, bulk_string}
use roris_db.Resp.Encoder.{error_reply, integer_reply, bulk_reply, null_reply}
use roris_db.Redis.Storage.{F64, sorted_set, Database, RedisStorage, get, set_entry, del}
use roris_db.Redis.Runtime.{Runtime, Clock}
use roris_db.Redis.Handler.Args.{
  Response, get_arg_str, need_str, need_int, with_db, zset_at, with_held, or_new, array_reply,
}
use roris_db.Redis.Handler.Lists.{range_of}

-- the bits without the sign
abbrev magnitude : F64 → ℕ
magnitude x = x % 2 ^ 63

abbrev is_nan : F64 → Bool
is_nan x = ltb 0x7FF0000000000000 (magnitude x)

abbrev is_negative : F64 → Bool
is_negative x = ltb (2 ^ 63 - 1) (x % 2 ^ 64)

-- `OrderedFloat::cmp`: the order of the numbers, where -0 and 0 are equal, and a NaN is equal to
-- everything.
unfoldable pub score_cmp : F64 → F64 → Ordering
score_cmp x y =
    if is_nan x || is_nan y
    then Ordering.eq
    else if is_negative x
    then (if is_negative y
        then compare (magnitude y) (magnitude x)
        else compare 0 (magnitude x + magnitude y))
    else if is_negative y
    then compare (magnitude x + magnitude y) 0
    else compare (magnitude x) (magnitude y)

-- `Ord` of `String`: byte by byte
unfoldable pub bytes_cmp : Bytes → Bytes → Ordering
bytes_cmp [] [] = Ordering.eq
bytes_cmp [] (b ∷ t) = Ordering.lt
bytes_cmp (a ∷ s) [] = Ordering.gt
bytes_cmp (a ∷ s) (b ∷ t) =
    let rest = bytes_cmp s t in
    elim (compare a b) [
      | Ordering.lt ↦ Ordering.lt
      | Ordering.eq ↦ rest
      | Ordering.gt ↦ Ordering.gt
    ]

unfoldable pub item_cmp : F64 × Bytes → F64 × Bytes → Ordering
unfolding score_cmp bytes_cmp
item_cmp (x, m) (y, n) = elim (score_cmp x y) [
  | Ordering.lt ↦ Ordering.lt
  | Ordering.eq ↦ bytes_cmp m n
  | Ordering.gt ↦ Ordering.gt
]

abbrev pub ZSet : Type 0
ZSet = List (F64 × Bytes)

-- `BTreeSet::insert`: an equal element stays.
unfoldable pub zinsert : F64 × Bytes → ZSet → ZSet
unfolding item_cmp
zinsert x [] = x ∷ []
zinsert x (y ∷ z) =
    let rest = zinsert x z in
    elim (item_cmp x y) [ Ordering.lt ↦ x ∷ y ∷ z | Ordering.eq ↦ y ∷ z | Ordering.gt ↦ y ∷ rest ]

-- `zset.iter().find(|(_, m)| m == member)`
unfoldable pub zfind : Bytes → ZSet → Option F64
zfind member [] = none
zfind member ((score, m) ∷ z) =
    let rest = zfind member z in if bytes_eq m member then some score else rest

-- `zset.retain(|(_, m)| m != member)`
unfoldable pub zretain : Bytes → ZSet → ZSet
zretain member [] = []
zretain member ((score, m) ∷ z) =
    let rest = zretain member z in if bytes_eq m member then rest else (score, m) ∷ rest

abbrev absent_count : Option F64 → ℕ
absent_count none = 1
absent_count (some score) = 0

-- one pair of ZADD, with 1 if the member is new; a pair that is no score and text is skipped
unfoldable pub zadd_one : Runtime → RespValue → RespValue → ZSet → ℕ × ZSet
unfolding zfind zretain zinsert
zadd_one rt a b z = elim (get_arg_str a) [
  | none ↦ (0, z)
  | some text ↦ elim (get_arg_str b) [
    | none ↦ (0, z)
    | some member ↦ elim (rt.parse_f64 text) [
      | none ↦ (0, z)
      | some score ↦ (absent_count (zfind member z), zinsert (score, member) (zretain member z))
    ]
  ]
]

unfoldable pub zadd_all : Runtime → List RespValue → ℕ → ZSet → ℕ × ZSet
unfolding zadd_one
zadd_all rt [] added z = (added, z)
zadd_all rt (a ∷ []) added z = (added, z)
zadd_all rt (a ∷ b ∷ rest) added z =
    let (n, z') = zadd_one rt a b z in zadd_all rt rest (added + n) z'

unfoldable pub zadd_on : Runtime → Clock → Bytes → List RespValue → Database → Bytes × Database
unfolding zadd_all
zadd_on rt clock key pairs db =
    let (v, db') = get (clock 0) (clock 1) key db in
    with_held (or_new [] (zset_at v)) db' null_reply λ z.
      let (added, z') = zadd_all rt pairs 0 z in
      (integer_reply (pos added), set_entry (clock 2) key (sorted_set z') none db')

unfoldable pub cmd_zadd : Runtime → Clock → ℕ → List RespValue → RedisStorage → Response
unfolding zadd_on
cmd_zadd rt clock index (a ∷ b ∷ c ∷ rest) s = need_str a "ERR invalid key" s λ key.
    with_db s index (error_reply "ERR invalid database") (zadd_on rt clock key (b ∷ c ∷ rest))
cmd_zadd rt clock index _ s = (error_reply "ERR wrong number of arguments for 'zadd' command", s)

-- 1 if `retain` made the set smaller
unfoldable pub zrem_one : RespValue → ZSet → ℕ × ZSet
unfolding zretain
zrem_one a z = elim (get_arg_str a) [
  | none ↦ (0, z)
  | some member ↦ (if ltb (length (zretain member z)) (length z) then 1 else 0, zretain member z)
]

unfoldable pub zrem_all : List RespValue → ℕ → ZSet → ℕ × ZSet
unfolding zrem_one
zrem_all [] removed z = (removed, z)
zrem_all (a ∷ args) removed z = let (n, z') = zrem_one a z in zrem_all args (removed + n) z'

-- An empty sorted set is removed with its key.
abbrev store_zset : ℕ → Bytes → ZSet → Database → Database
store_zset now key [] db = (del key db).1
store_zset now key (x ∷ z) db = set_entry now key (sorted_set (x ∷ z)) none db

unfoldable pub zrem_on : Clock → Bytes → List RespValue → Database → Bytes × Database
unfolding zrem_all
zrem_on clock key args db =
    let (v, db') = get (clock 0) (clock 1) key db in
    with_held (zset_at v) db' (integer_reply (pos 0)) λ z.
      let (removed, z') = zrem_all args 0 z in
      (integer_reply (pos removed), store_zset (clock 2) key z' db')

unfoldable pub cmd_zrem : Clock → ℕ → List RespValue → RedisStorage → Response
unfolding zrem_on
cmd_zrem clock index (a ∷ b ∷ rest) s =
    need_str a "ERR invalid key" s
      λ key. with_db s index (integer_reply (pos 0)) (zrem_on clock key (b ∷ rest))
cmd_zrem clock index _ s = (error_reply "ERR wrong number of arguments for 'zrem' command", s)

-- the members, each with its score if `withscores`
unfoldable pub scored : Runtime → Bool → ZSet → List RespValue
scored rt withscores [] = []
scored rt false ((score, member) ∷ z) = bulk_string member ∷ scored rt false z
scored rt true ((score, member) ∷ z) =
    bulk_string member ∷ bulk_string (rt.f64_to_string score) ∷ scored rt true z

abbrev wants_scores : Runtime → List RespValue → Bool
wants_scores rt [] = false
wants_scores rt (a ∷ _) = elim (get_arg_str a) [
  | none ↦ false
  | some w ↦ bytes_eq (rt.to_uppercase w) (str "WITHSCORES")
]

unfoldable pub cmd_zrange : Runtime → Clock → ℕ → List RespValue → RedisStorage → Response
unfolding range_of scored
cmd_zrange rt clock index (a ∷ b ∷ c ∷ rest) s = need_str a "ERR invalid key" s λ key.
    need_int b "ERR invalid start index" s λ start. need_int c "ERR invalid stop index" s λ stop.
      with_db s index (array_reply []) λ db.
        let (v, db') = get (clock 0) (clock 1) key db in
        with_held (zset_at v) db' (array_reply [])
          λ z. (array_reply (scored rt (wants_scores rt rest) (range_of start stop z)), db')
cmd_zrange rt clock index _ s =
    (error_reply "ERR wrong number of arguments for 'zrange' command", s)

unfoldable pub cmd_zcard : Clock → ℕ → List RespValue → RedisStorage → Response
cmd_zcard clock index [] s = (error_reply "ERR wrong number of arguments for 'zcard' command", s)
cmd_zcard clock index (a ∷ _) s = need_str a "ERR invalid key" s λ key.
    with_db s index (integer_reply (pos 0)) λ db.
      let (v, db') = get (clock 0) (clock 1) key db in
      with_held (zset_at v) db' (integer_reply (pos 0)) λ z. (integer_reply (pos (length z)), db')

abbrev score_reply : Runtime → Option F64 → Bytes
score_reply rt none = null_reply
score_reply rt (some score) = bulk_reply (rt.f64_to_string score)

unfoldable pub cmd_zscore : Runtime → Clock → ℕ → List RespValue → RedisStorage → Response
unfolding zfind
cmd_zscore rt clock index (a ∷ b ∷ _) s = need_str a "ERR invalid key" s λ key.
    need_str b "ERR invalid member" s λ member. with_db s index null_reply λ db.
      let (v, db') = get (clock 0) (clock 1) key db in
      with_held (zset_at v) db' null_reply λ z. (score_reply rt (zfind member z), db')
cmd_zscore rt clock index _ s =
    (error_reply "ERR wrong number of arguments for 'zscore' command", s)
