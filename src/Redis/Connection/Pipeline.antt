-- ===== src/Redis/Connection/Pipeline.antt =====
-- crates/redis-protocol/src/connection.rs: many encoded commands in the read buffer at once.
use roris_db.Prelude.{
  ℕ, zero, suc, ◌<◌, ◌≡◌, refl, ap, ◌∙◌, Bool, false, Option, some, List, [], ◌∷◌, ◌++◌, ◌==◌,
  length, if◌then◌else◌, arith, All,
}
use roris_db.Bytes.{Bytes}
use roris_db.Resp.{RespValue}
use roris_db.Resp.Encoder.{encode_to_bytes}
use roris_db.Resp.Parser.{Parsed, incomplete, got, failed, stuck, parse, max_depth}
use roris_db.Resp.Progress.{parse_takes}
use roris_db.Resp.RoundTrip.Sendable.{IsSendable}
use roris_db.Resp.RoundTrip.Decode.{parse-encode_to_bytes}
use roris_db.Redis.Runtime.{Runtime, Clock}
use roris_db.Redis.Handler.{handle_command}
use roris_db.Redis.Connection.{
  Connection, again, leave, index_after, command_args, after_parse, drain_fuel, drain,
}

-- One command on the connection's state, its reply behind what was written before.
unfoldable pub run_one :
    Runtime → Option Bytes → Clock → RespValue → Bytes → Connection → Connection
run_one rt password clock v rest c =
    let index = index_after rt v c.db_index in
    let (response, s) = handle_command rt password clock index (command_args v) c.storage in
    record { read_buf = rest; db_index = index; storage = s; written = c.written ++ response }

unfoldable pub run_all :
    Runtime → Option Bytes → (ℕ → Clock) → List RespValue → Connection → Connection
unfolding run_one
run_all rt password clocks [] c = record c { read_buf = [] }
run_all rt password clocks (v ∷ vs) c =
    run_all rt password (λ k. clocks (suc k)) vs (run_one rt password (clocks 0) v [] c)

abbrev pub stream : List RespValue → Bytes
stream [] = []
stream (v ∷ vs) = encode_to_bytes v ++ stream vs

abbrev pub AllWithinLimits : List RespValue → Type 0
AllWithinLimits vs = All (λ v. IsSendable v max_depth) vs

module _ (rt : Runtime) (password : Option Bytes) where
  same_if :
      (b : Bool) (c : Connection) (x y : Option Connection)
      → x ≡ y
      → (if b then some c else x) ≡ (if b then some c else y)
  same_if b c x y e = ap (λ r. if b then some c else r) e

  same_round :
      (clock : Clock) (p : Parsed RespValue) (c : Connection) (f g : Connection → Option Connection)
      → ((v : RespValue) → p.0 ≡ got v → length p.1 < length c.read_buf)
      → ((c' : Connection) → length c'.read_buf < length c.read_buf → f c' ≡ g c')
      → elim (after_parse rt password clock p c) [ again c' ↦ f c' | leave c' ↦ some c' ]
        ≡ elim (after_parse rt password clock p c) [ again c' ↦ g c' | leave c' ↦ some c' ]
  unfolding after_parse
  same_round clock (incomplete, rest) c f g t h = refl
  same_round clock (failed e, rest) c f g t h = refl
  same_round clock (stuck, rest) c f g t h = refl
  same_round clock (got v, rest) c f g t h = h _ (t v refl)

  -- The fuel does not matter once it is enough, and the clocks may be counted from any command.
  drain_fuel_shift :
      (clocks : ℕ → Clock) (fuel fuel' k : ℕ) (c : Connection)
      → length c.read_buf < fuel
      → length c.read_buf < fuel'
      → drain_fuel rt password clocks fuel (suc k) c
        ≡ drain_fuel rt password (λ n. clocks (suc n)) fuel' k c
  unfolding drain_fuel
  drain_fuel_shift clocks zero fuel' k c l l' = absurd (omega arith)
  drain_fuel_shift clocks (suc fuel) zero k c l l' = absurd (omega arith)
  drain_fuel_shift clocks (suc fuel) (suc fuel') k c l l' = same_if _ c _ _ (
      same_round (clocks (suc k)) (parse c.read_buf) c _ _ (parse_takes c.read_buf)
        (λ c' h. drain_fuel_shift clocks fuel fuel' (suc k) c' (omega arith) (omega arith)))

  after_parse-got :
      (clock : Clock) (p : Parsed RespValue) (v : RespValue) (rest : Bytes) (c : Connection)
      → p ≡ (got v, rest)
      → after_parse rt password clock p c ≡ again (run_one rt password clock v rest c)
  unfolding after_parse run_one
  after_parse-got clock p v rest c e = rw e refl

  drain_fuel-got :
      (clocks : ℕ → Clock) (fuel k : ℕ) (c : Connection) (v : RespValue) (rest : Bytes)
      → (length c.read_buf == 0) ≡ false
      → parse c.read_buf ≡ (got v, rest)
      → drain_fuel rt password clocks (suc fuel) k c
        ≡ drain_fuel rt password clocks fuel (suc k) (run_one rt password (clocks k) v rest c)
  unfolding drain_fuel
  drain_fuel-got clocks fuel k c v rest e e' =
      rw (e, after_parse-got (clocks k) (parse c.read_buf) v rest c e') refl

  -- The loop takes one command from the front of the buffer and goes on with the bytes behind it.
  drain_one :
      (clocks : ℕ → Clock) (c : Connection) (v : RespValue) (rest : Bytes)
      → parse c.read_buf ≡ (got v, rest)
      → drain rt password clocks c
        ≡ drain rt password (λ n. clocks (suc n)) (run_one rt password (clocks 0) v rest c)
  unfolding drain run_one
  drain_one clocks c v rest e =
      let shorter : length rest < length c.read_buf =
        omega (arith, parse_takes c.read_buf v (ap (λ p. p.0) e), ap (λ p. length p.1) e) in
      drain_fuel-got clocks (length c.read_buf) 0 c v rest (ground arith) e
      ∙ drain_fuel_shift clocks (length c.read_buf) (suc (length rest)) 0
          (run_one rt password (clocks 0) v rest c) shorter (omega arith)

  drain_empty :
      (clocks : ℕ → Clock) (c : Connection)
      → drain rt password clocks (record c { read_buf = [] }) ≡ some (record c { read_buf = [] })
  unfolding drain drain_fuel
  drain_empty clocks c = refl

-- Encoded commands that stand in the read buffer one behind the other are handled in their order,
-- each on the databases and the selected database that the ones before it left, and the replies are
-- written in that order; nothing of the buffer is left. Each command is within the parser's limits.
pub drain-stream :
    (rt : Runtime) (password : Option Bytes) (clocks : ℕ → Clock) (vs : List RespValue)
    (c : Connection)
    → AllWithinLimits vs
    → drain rt password clocks (record c { read_buf = stream vs })
      ≡ some (run_all rt password clocks vs c)
unfolding run_all
drain-stream rt password clocks [] c h = drain_empty rt password clocks c
drain-stream rt password clocks (v ∷ vs) c h =
    drain_one rt password clocks (record c { read_buf = stream (v ∷ vs) }) v (stream vs)
      (parse-encode_to_bytes v (stream vs) h.0)
    ∙ drain-stream rt password (λ k. clocks (suc k)) vs (run_one rt password (clocks 0) v [] c) h.1
