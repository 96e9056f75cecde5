-- ===== src/Redis/Connection/Drain.antt =====
-- crates/redis-protocol/src/connection.rs: the rounds of the loop, and the selected database.
use roris_db.Prelude.{
  ℕ, zero, suc, ◌<◌, ◌≡◌, refl, Bool, true, false, Option, none, some, List, [], ◌∷◌, length,
  if◌then◌else◌, arith,
}
use roris_db.Bytes.{Bytes}
use roris_db.Resp.{
  RespValue, simple_string, error, integer, bulk_string, null, array, null_array, to_list,
}
use roris_db.Resp.Parser.{Parsed, incomplete, got, failed, stuck, parse}
use roris_db.Resp.Progress.{parse_takes}
use roris_db.Redis.Runtime.{Runtime, Clock}
use roris_db.Redis.Connection.{
  Connection, Round, again, leave, retarget, select_target, next_index, index_after, after_parse,
  drain_fuel, drain,
}

retarget_lt : (target : Option ℕ) (index : ℕ) → index < 16 → retarget target index < 16
retarget_lt none index h = h
retarget_lt (some db) index h = ground arith

next_index_lt :
    (rt : Runtime) (args : List RespValue) (index : ℕ) → index < 16 → next_index rt args index < 16
unfolding next_index
next_index_lt rt [] index h = h
next_index_lt rt (a ∷ []) index h = h
next_index_lt rt (a ∷ b ∷ rest) index h = ground (arith, retarget_lt (select_target b) index h)

index_after_lt :
    (rt : Runtime) (v : RespValue) (index : ℕ) → index < 16 → index_after rt v index < 16
unfolding index_after
index_after_lt rt (array vs) index h = next_index_lt rt (to_list vs) index h
index_after_lt rt (simple_string s) index h = h
index_after_lt rt (error s) index h = h
index_after_lt rt (integer n) index h = h
index_after_lt rt (bulk_string s) index h = h
index_after_lt rt null index h = h
index_after_lt rt null_array index h = h

-- A round that goes on does so with less than `bound` bytes.
data IsRound (bound : ℕ) : Round → Type 0 where
  goes_on : (c : Connection) → c.db_index < 16 → length c.read_buf < bound → IsRound bound (again c)
  ends : (c : Connection) → c.db_index < 16 → IsRound bound (leave c)

module _ (rt : Runtime) (password : Option Bytes) where
  after_parse-IsRound :
      (clock : Clock) (p : Parsed RespValue) (c : Connection) (bound : ℕ)
      → ((v : RespValue) → p.0 ≡ got v → length p.1 < bound)
      → c.db_index < 16
      → IsRound bound (after_parse rt password clock p c)
  unfolding after_parse
  after_parse-IsRound clock (incomplete, rest) c bound t h = ends _ h
  after_parse-IsRound clock (failed e, rest) c bound t h = ends _ h
  after_parse-IsRound clock (stuck, rest) c bound t h = ends _ h
  after_parse-IsRound clock (got command, rest) c bound t h =
      goes_on _ (index_after_lt rt command c.db_index h) (t command refl)

  abbrev Finishes : Option Connection → Type 0
  Finishes r = (c : Connection) × ((r ≡ some c) × (c.db_index < 16))

  follow :
      (bound : ℕ) (r : Round) (next : Connection → Option Connection)
      → IsRound bound r
      → ((c : Connection) → length c.read_buf < bound → c.db_index < 16 → Finishes (next c))
      → Finishes (elim r [ again c ↦ next c | leave c ↦ some c ])
  follow bound (again c) next (goes_on _ h l) f = f c l h
  follow bound (leave c) next (ends _ h) f = (c, (refl, h))

  finish_if :
      (b : Bool) (c : Connection) (r : Option Connection)
      → c.db_index < 16
      → Finishes r
      → Finishes (if b then some c else r)
  finish_if true c r h f = (c, (refl, h))
  finish_if false c r h f = f

  drain_fuel-Finishes :
      (clocks : ℕ → Clock) (fuel k : ℕ) (c : Connection)
      → length c.read_buf < fuel
      → c.db_index < 16
      → Finishes (drain_fuel rt password clocks fuel k c)
  unfolding drain_fuel
  drain_fuel-Finishes clocks zero k c l h = absurd (omega arith)
  drain_fuel-Finishes clocks (suc fuel) k c l h = finish_if _ c _ h (
      follow (length c.read_buf) (after_parse rt password (clocks k) (parse c.read_buf) c) _
        (after_parse-IsRound (clocks k) (parse c.read_buf) c (length c.read_buf)
          (parse_takes c.read_buf) h)
        (λ c' l' h'. drain_fuel-Finishes clocks fuel (suc k) c' (omega arith) h'))

-- For a connection on one of the sixteen databases, the loop over the read buffer ends, whatever the
-- buffer holds, and leaves the connection on one of the sixteen.
pub drain_ends :
    (rt : Runtime) (password : Option Bytes) (clocks : ℕ → Clock) (c : Connection)
    → c.db_index < 16
    → (c' : Connection) × ((drain rt password clocks c ≡ some c') × (c'.db_index < 16))
unfolding drain
drain_ends rt password clocks c h =
    drain_fuel-Finishes rt password clocks (suc (length c.read_buf)) 0 c (omega arith) h
