-- ===== src/Redis/Handler/Fields.antt =====
-- crates/redis-protocol/src/handler.rs, `cmd_hset` and `cmd_hdel`: what is under a field afterwards.
use roris_db.Prelude.{
  ℕ, ◌+◌, ◌-◌, ◌≤◌, ◌≡◌, refl, sym, ap, length, pos, ◌∙◌, Option, none, some, List, [], ◌∷◌,
  if◌then◌else◌, arith, Option-cases, inl, inr,
}
use roris_db.Bytes.{Bytes, bytes_eq}
use roris_db.Table.{Table, lookup, lookup-insert, lookup-remove}
use roris_db.Resp.{RespValue}
use roris_db.Resp.Encoder.{integer_reply}
use roris_db.Redis.Storage.{
  RedisValue, string, hash, list, members, sorted_set, Database, get, set_entry,
}
use roris_db.Redis.Storage.View.{live, value_of, get-value, get-SameFrom, live-set_entry}
use roris_db.Redis.Runtime.{Clock}
use roris_db.Redis.Handler.Args.{get_arg_str, held, hash_at, or_new, with_held}
use roris_db.Redis.Handler.Hashes.{hset_one, hset_all, hset_on, hdel_one, hdel_all}
use roris_db.Redis.Handler.Growth.{is_text, any_text, length-hset_all}

-- The value of the last pair for a field, or the one from before; a pair that is not two texts does
-- not count, nor does a field without a value.
unfoldable pub last_value : Bytes → List RespValue → Option Bytes → Option Bytes
unfolding is_text
last_value field [] old = old
last_value field (a ∷ []) old = old
last_value field (a ∷ b ∷ rest) old = elim (get_arg_str b) [
  | none ↦ last_value field rest old
  | some value ↦ last_value field rest (if is_text field a then some value else old)
]

hset_one-lookup :
    (field : Bytes) (a b : RespValue) (h : Table Bytes)
    → lookup field (hset_one a b h).1 ≡ elim (get_arg_str b) [
      | none ↦ lookup field h
      | some value ↦ if is_text field a then some value else lookup field h
    ]
unfolding hset_one is_text
hset_one-lookup field a b h = elim (Option-cases (get_arg_str a)) [
  | inl e ↦ ground (arith, e)
  | inr (f, e) ↦ elim (Option-cases (get_arg_str b)) [
    | inl e' ↦ ground (arith, e, e')
    | inr (v, e') ↦ ground (arith, e, e', lookup-insert f field v h)
  ]
]

-- The loop over the pairs of HSET leaves under a field the value of the last of them for the field, and
-- under a field that none of them names what was there.
lookup-hset_all :
    (field : Bytes) (pairs : List RespValue) (added : ℕ) (h : Table Bytes)
    → lookup field (hset_all pairs added h).1 ≡ last_value field pairs (lookup field h)
unfolding hset_all last_value
lookup-hset_all field [] added h = refl
lookup-hset_all field (a ∷ []) added h = refl
lookup-hset_all field (a ∷ b ∷ rest) added h =
    lookup-hset_all field rest (added + (hset_one a b h).0) (hset_one a b h).1
    ∙ ground (arith, hset_one-lookup field a b h)

hdel_one-lookup :
    (field : Bytes) (a : RespValue) (h : Table Bytes)
    → lookup field (hdel_one a h).1 ≡ (if is_text field a then none else lookup field h)
unfolding hdel_one is_text
hdel_one-lookup field a h = elim (Option-cases (get_arg_str a)) [
  | inl e ↦ ground (arith, e)
  | inr (f, e) ↦ ground (arith, e, lookup-remove f field h)
]

-- HDEL leaves nothing under the fields among its arguments, and under every other field what was
-- there.
pub lookup-hdel_all :
    (field : Bytes) (args : List RespValue) (removed : ℕ) (h : Table Bytes)
    → lookup field (hdel_all args removed h).1
      ≡ (if any_text field args then none else lookup field h)
unfolding hdel_all any_text
lookup-hdel_all field [] removed h = refl
lookup-hdel_all field (a ∷ args) removed h =
    lookup-hdel_all field args (removed + (hdel_one a h).0) (hdel_one a h).1
    ∙ ground (arith, hdel_one-lookup field a h)

-- The value is the hash of the fields; none is one without fields.
abbrev pub HoldsHash : Option RedisValue → Table Bytes → Type 0
HoldsHash none h = h ≡ []
HoldsHash (some (hash t)) h = t ≡ h
HoldsHash (some _) h = ⊥

HoldsHash-held :
    (v : Option RedisValue) (h : Table Bytes) → HoldsHash v h → or_new [] (hash_at v) ≡ held h
HoldsHash-held none h e = ap held (sym e)
HoldsHash-held (some (hash t)) h e = ap held e
HoldsHash-held (some (string s)) h e = absurd e
HoldsHash-held (some (list l)) h e = absurd e
HoldsHash-held (some (members t)) h e = absurd e
HoldsHash-held (some (sorted_set z)) h e = absurd e

module _ (clock : Clock) (key : Bytes) (pairs : List RespValue) (db : Database)
    (h : Table Bytes) where
  hset_step :
      HoldsHash (value_of (live (clock 0) key db)) h
      → hset_on clock key pairs db ≡ (
        integer_reply (pos (hset_all pairs 0 h).0),
        set_entry
            (clock 2)
            key
            (hash (hset_all pairs 0 h).1)
            none
            (get (clock 0) (clock 1) key db).1,
      )
  unfolding hset_on with_held
  hset_step holds =
      rw
        (
          get-value (clock 0) key db (clock 1),
          HoldsHash-held (value_of (live (clock 0) key db)) h holds,
          hset_on,
        )
        refl

  -- HSET on a key that holds a hash, or on a missing key, leaves a hash without a deadline. In it, a field
  -- has the value of the last of the pairs for the field, and a field that none of the pairs names has what
  -- it had. The answer is by how many fields the hash has grown, and a later reader sees the other keys as
  -- they were.
  pub hset_on_lem :
      (t : ℕ) (j : Bytes)
      → HoldsHash (value_of (live (clock 0) key db)) h
      → clock 0 ≤ t
      → (h' : Table Bytes) × (live t j (hset_on clock key pairs db).1 ≡ (
          if bytes_eq key j
          then some (record { value = hash h'; expires_at = none })
          else live t j db))
        × ((field : Bytes) → lookup field h' ≡ last_value field pairs (lookup field h))
        × ((hset_on clock key pairs db).0 ≡ integer_reply (pos (length h' - length h)))
  hset_on_lem t j holds le =
      let h' : Table Bytes = (hset_all pairs 0 h).1 in
      let added : (hset_all pairs 0 h).0 ≡ length h' - length h =
        omega (arith, length-hset_all pairs h) in
      (
        h',
        ap (λ r. live t j r.1) (hset_step holds)
            ∙ live-set_entry (clock 2) key (get (clock 0) (clock 1) key db).1 (hash h') none t j
            ∙ rw (get-SameFrom (clock 0) key db (clock 1) t j le) refl,
        (λ field. lookup-hset_all field pairs 0 h),
        ap (λ r. r.0) (hset_step holds) ∙ ap (λ n. integer_reply (pos n)) added,
      )
