-- ===== src/Resp.antt =====
-- crates/redis-protocol/src/resp.rs: the values of the protocol and its error type.
pub mod Encoder
pub mod Parser
pub mod RoundTrip
pub mod Fuel
pub mod Progress
mod Tests
use roris_db.Prelude.{
  ℕ, zero, suc, ◌+◌, Bool, true, false, Option, none, some, List, [], ◌∷◌, ◌≡◌, refl, ap, ℤ,
}
use roris_db.Bytes.{Bytes}
use roris_db.Bytes.Utf8.{from_utf8}
use roris_db.Bytes.Decimal.{parse_i64}

-- An array holds its elements as a list of the block.
mutual
  pub data RespValue : Type 0 where
    simple_string : Bytes → RespValue
    error : Bytes → RespValue
    integer : ℤ → RespValue
    bulk_string : Bytes → RespValue
    null : RespValue
    array : RespValues → RespValue
    null_array : RespValue

  pub data RespValues : Type 0 where
    nil : RespValues
    cons : RespValue → RespValues → RespValues

abbrev pub to_list : RespValues → List RespValue
to_list nil = []
to_list (cons v vs) = v ∷ to_list vs

abbrev pub from_list : List RespValue → RespValues
from_list [] = nil
from_list (v ∷ vs) = cons v (from_list vs)

-- `Vec::len` of an array
abbrev pub count : RespValues → ℕ
count nil = 0
count (cons v vs) = suc (count vs)

pub to_list-from_list : (vs : List RespValue) → to_list (from_list vs) ≡ vs
to_list-from_list [] = refl
to_list-from_list (v ∷ vs) = ap (λ l. v ∷ l) (to_list-from_list vs)

-- `RespValue::as_str`
unfoldable pub as_str : RespValue → Option Bytes
unfolding from_utf8
as_str (bulk_string b) = from_utf8 b
as_str (simple_string s) = some s
as_str _ = none

-- `RespValue::as_integer`
unfoldable pub as_integer : RespValue → Option ℤ
unfolding from_utf8 parse_i64
as_integer (integer n) = some n
as_integer (bulk_string b) = elim (from_utf8 b) [ none ↦ none | some s ↦ parse_i64 s ]
as_integer _ = none

unfoldable pub is_null : RespValue → Bool
is_null null = true
is_null null_array = true
is_null _ = false

-- `RespError`; the parser never builds `Io`.
pub data RespError : Type 0 where
  invalid_data : RespError
  invalid_integer : Bytes → RespError
  io : RespError
