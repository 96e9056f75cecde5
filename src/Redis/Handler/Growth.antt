-- ===== src/Redis/Handler/Growth.antt =====
-- crates/redis-protocol/src/handler.rs: the loops of SADD, SREM and HSET over their arguments.
use roris_db.Prelude.{
  ℕ, ◌+◌, ◌≡◌, refl, Bool, false, not, ◌&&◌, ◌||◌, none, some, List, [], ◌∷◌, length, arith,
  Option-cases, inl, inr,
}
use roris_db.Bytes.{Bytes, bytes_eq}
use roris_db.Table.{
  Table, contains_key, HasUniqueKeys, length-insert, length-remove, lookup-insert, lookup-remove,
  remove-HasUniqueKeys,
}
use roris_db.Resp.{RespValue}
use roris_db.Redis.Handler.Args.{get_arg_str}
use roris_db.Redis.Handler.Sets.{Members, sadd_one, sadd_all, srem_one, srem_all}
use roris_db.Redis.Handler.Hashes.{hset_one, hset_all}

-- The argument is the text `key`.
unfoldable pub is_text : Bytes → RespValue → Bool
is_text key a = elim (get_arg_str a) [ none ↦ false | some text ↦ bytes_eq text key ]

unfoldable pub any_text : Bytes → List RespValue → Bool
unfolding is_text
any_text key [] = false
any_text key (a ∷ args) = let rest = any_text key args in is_text key a || rest

sadd_one-length :
    (a : RespValue) (m : Members) → length (sadd_one a m).1 ≡ length m + (sadd_one a m).0
unfolding sadd_one
sadd_one-length a m = elim (Option-cases (get_arg_str a)) [
  | inl e ↦ rw (e, sadd_one) (omega arith)
  | inr (k, e) ↦ ground (arith, e, length-insert k tt m)
]

sadd_one-contains_key :
    (key : Bytes) (a : RespValue) (m : Members)
    → contains_key key (sadd_one a m).1 ≡ (is_text key a || contains_key key m)
unfolding sadd_one is_text contains_key
sadd_one-contains_key key a m = elim (Option-cases (get_arg_str a)) [
  | inl e ↦ ground (arith, e)
  | inr (k, e) ↦ ground (arith, e, lookup-insert k key tt m)
]

-- SADD counts the members by which the set grows, on top of `added`.
sadd_all-length :
    (args : List RespValue) (added : ℕ) (m : Members)
    → length (sadd_all args added m).1 + added ≡ length m + (sadd_all args added m).0
unfolding sadd_all
sadd_all-length [] added m = refl
sadd_all-length (a ∷ args) added m =
    omega
      (arith, sadd_one-length a m, sadd_all-length args (added + (sadd_one a m).0) (sadd_one a m).1)

sadd_all-contains_key :
    (key : Bytes) (args : List RespValue) (added : ℕ) (m : Members)
    → contains_key key (sadd_all args added m).1 ≡ (any_text key args || contains_key key m)
unfolding sadd_all any_text
sadd_all-contains_key key [] added m = refl
sadd_all-contains_key key (a ∷ args) added m = ground (
  arith,
  sadd_all-contains_key key args (added + (sadd_one a m).0) (sadd_one a m).1,
  sadd_one-contains_key key a m,
)

-- SADD leaves the members that were there and the texts among its arguments, and answers by how many
-- members the set has grown.
pub sadd_all_lem :
    (key : Bytes) (args : List RespValue) (m : Members)
    → (contains_key key (sadd_all args 0 m).1 ≡ (any_text key args || contains_key key m))
      × (length (sadd_all args 0 m).1 ≡ length m + (sadd_all args 0 m).0)
sadd_all_lem key args m =
    (sadd_all-contains_key key args 0 m, omega (arith, sadd_all-length args 0 m))

srem_one-length :
    (a : RespValue) (m : Members)
    → HasUniqueKeys m
    → length (srem_one a m).1 + (srem_one a m).0 ≡ length m
unfolding srem_one
srem_one-length a m h = elim (Option-cases (get_arg_str a)) [
  | inl e ↦ rw (e, srem_one) (omega arith)
  | inr (k, e) ↦ ground (arith, e, length-remove k m h)
]

srem_one-contains_key :
    (key : Bytes) (a : RespValue) (m : Members)
    → contains_key key (srem_one a m).1 ≡ (not (is_text key a) && contains_key key m)
unfolding srem_one is_text contains_key
srem_one-contains_key key a m = elim (Option-cases (get_arg_str a)) [
  | inl e ↦ ground (arith, e)
  | inr (k, e) ↦ ground (arith, e, lookup-remove k key m)
]

srem_one-HasUniqueKeys :
    (a : RespValue) (m : Members) → HasUniqueKeys m → HasUniqueKeys (srem_one a m).1
unfolding srem_one
srem_one-HasUniqueKeys a m h = elim (Option-cases (get_arg_str a)) [
  | inl e ↦ rw (e, srem_one) h
  | inr (k, e) ↦ rw (e, srem_one) (remove-HasUniqueKeys k m h)
]

srem_all-length :
    (args : List RespValue) (removed : ℕ) (m : Members)
    → HasUniqueKeys m
    → length (srem_all args removed m).1 + (srem_all args removed m).0 ≡ length m + removed
unfolding srem_all
srem_all-length [] removed m h = refl
srem_all-length (a ∷ args) removed m h = omega (
  arith,
  srem_one-length a m h,
  srem_all-length args (removed + (srem_one a m).0) (srem_one a m).1 (srem_one-HasUniqueKeys a m h),
)

srem_all-contains_key :
    (key : Bytes) (args : List RespValue) (removed : ℕ) (m : Members)
    → contains_key key (srem_all args removed m).1 ≡ (not (any_text key args) && contains_key key m)
unfolding srem_all any_text
srem_all-contains_key key [] removed m = refl
srem_all-contains_key key (a ∷ args) removed m = ground (
  arith,
  srem_all-contains_key key args (removed + (srem_one a m).0) (srem_one a m).1,
  srem_one-contains_key key a m,
)

-- SREM leaves the members that are none of the texts among its arguments, and, in a set whose
-- members are distinct, answers how many it has taken away.
pub srem_all_lem :
    (key : Bytes) (args : List RespValue) (m : Members)
    → HasUniqueKeys m
    → (contains_key key (srem_all args 0 m).1 ≡ (not (any_text key args) && contains_key key m))
      × (length (srem_all args 0 m).1 + (srem_all args 0 m).0 ≡ length m)
srem_all_lem key args m h =
    (srem_all-contains_key key args 0 m, omega (arith, srem_all-length args 0 m h))

hset_one-length :
    (a b : RespValue) (h : Table Bytes) → length (hset_one a b h).1 ≡ length h + (hset_one a b h).0
unfolding hset_one
hset_one-length a b h = elim (Option-cases (get_arg_str a)) [
  | inl e ↦ rw (e, hset_one) (omega arith)
  | inr (k, e) ↦ elim (Option-cases (get_arg_str b)) [
    | inl e' ↦ ground (arith, e, e')
    | inr (v, e') ↦ ground (arith, e, e', length-insert k v h)
  ]
]

hset_all-added :
    (pairs : List RespValue) (added : ℕ) (h : Table Bytes)
    → length (hset_all pairs added h).1 + added ≡ length h + (hset_all pairs added h).0
unfolding hset_all
hset_all-added [] added h = refl
hset_all-added (a ∷ []) added h = refl
hset_all-added (a ∷ b ∷ rest) added h = omega (
  arith,
  hset_one-length a b h,
  hset_all-added rest (added + (hset_one a b h).0) (hset_one a b h).1,
)

-- HSET answers by how many fields the hash has grown.
pub length-hset_all :
    (pairs : List RespValue) (h : Table Bytes)
    → length (hset_all pairs 0 h).1 ≡ length h + (hset_all pairs 0 h).0
length-hset_all pairs h = omega (arith, hset_all-added pairs 0 h)
