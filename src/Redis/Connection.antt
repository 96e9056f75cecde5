-- ===== src/Redis/Connection.antt =====
-- crates/redis-protocol/src/connection.rs: the loop over the commands in the read buffer. What is
-- written to the socket is the result; the socket itself, and a failing `write_all`, are not
-- modelled.
pub mod Drain
pub mod Pipeline
use roris_db.Prelude.{
  ℕ, zero, suc, ◌^◌, Option, none, some, List, [], ◌∷◌, ◌++◌, length, ltb, ◌==◌, ℤ, pos, negsuc,
  as_u64, if◌then◌else◌,
}
use roris_db.Bytes.{Bytes, str, bytes_eq}
use roris_db.Bytes.Utf8.{from_utf8}
use roris_db.Bytes.Decimal.{read_nat}
use roris_db.Resp.{RespValue, array, integer, bulk_string, simple_string, to_list}
use roris_db.Resp.Encoder.{error_reply}
use roris_db.Resp.Parser.{Outcome, Parsed, incomplete, got, failed, stuck, parse}
use roris_db.Redis.Storage.{RedisStorage}
use roris_db.Redis.Runtime.{Runtime, Clock}
use roris_db.Redis.Handler.{handle_command}

abbrev fit_usize : Option ℕ → Option ℕ
fit_usize none = none
fit_usize (some n) = if ltb n (2 ^ 64) then some n else none

-- `s.parse::<usize>().ok()`: a minus sign is no digit.
unfoldable pub parse_usize : Bytes → Option ℕ
unfolding read_nat
parse_usize [] = none
parse_usize (c ∷ s) = if c == b'+' then fit_usize (read_nat s) else fit_usize (read_nat (c ∷ s))

unfoldable pub select_text : RespValue → Option Bytes
unfolding from_utf8
select_text (bulk_string s) = from_utf8 s
select_text (simple_string s) = some s
select_text _ = none

unfoldable pub select_target : RespValue → Option ℕ
unfolding from_utf8 parse_usize
select_target (integer n) = some (as_u64 n)
select_target (bulk_string s) = elim (from_utf8 s) [ none ↦ none | some text ↦ parse_usize text ]
select_target _ = none

abbrev retarget : Option ℕ → ℕ → ℕ
retarget none index = index
retarget (some db) index = if ltb db 16 then db else index

-- `SELECT` changes the connection's database before the command is handled.
unfoldable pub next_index : Runtime → List RespValue → ℕ → ℕ
unfolding select_text select_target
next_index rt (a ∷ b ∷ _) index = elim (select_text a) [
  | none ↦ index
  | some word ↦
      if bytes_eq (rt.to_uppercase word) (str "SELECT")
      then retarget (select_target b) index
      else index
]
next_index rt _ index = index

-- a value that is no array is a command of one word, and never a SELECT
abbrev pub command_args : RespValue → List RespValue
command_args (array vs) = to_list vs
command_args v = v ∷ []

unfoldable pub index_after : Runtime → RespValue → ℕ → ℕ
unfolding next_index
index_after rt (array vs) index = next_index rt (to_list vs) index
index_after rt _ index = index

pub record Connection : Type 0 where
  pub read_buf : Bytes
  pub db_index : ℕ
  pub storage : RedisStorage
  pub written : Bytes

-- How a round of the `while !self.read_buf.is_empty()` loop goes on.
pub data Round : Type 0 where
  again : Connection → Round
  leave : Connection → Round

unfoldable pub after_parse : Runtime → Option Bytes → Clock → Parsed RespValue → Connection → Round
unfolding index_after
after_parse rt password clock (incomplete, rest) c = leave (record c { read_buf = rest })
after_parse rt password clock (failed e, rest) c =
    leave (record c { read_buf = rest; written = c.written ++ error_reply "ERR protocol error" })
after_parse rt password clock (stuck, rest) c = leave (record c { read_buf = rest })
after_parse rt password clock (got command, rest) c =
    let index = index_after rt command c.db_index in
    let (response, s) = handle_command rt password clock index (command_args command) c.storage in
    again
      (record { read_buf = rest; db_index = index; storage = s; written = c.written ++ response })

-- `clocks k` is the clock during the k-th command.
unfoldable pub drain_fuel :
    Runtime → Option Bytes → (ℕ → Clock) → ℕ → ℕ → Connection → Option Connection
unfolding after_parse
drain_fuel rt password clocks zero k c = none
drain_fuel rt password clocks (suc fuel) k c =
    let round : Option Connection = elim (after_parse rt password (clocks k) (parse c.read_buf) c) [
      | again c' ↦ drain_fuel rt password clocks fuel (suc k) c'
      | leave c' ↦ some c'
    ] in
    if length c.read_buf == 0 then some c else round

unfoldable pub drain : Runtime → Option Bytes → (ℕ → Clock) → Connection → Option Connection
unfolding drain_fuel
drain rt password clocks c = drain_fuel rt password clocks (suc (length c.read_buf)) 0 c
