-- ===== src/Resp/RoundTrip/Sendable.antt =====
-- The values that the parser takes in: its limits on strings, arrays and nesting, and what Rust's
-- types give (valid UTF-8, 64-bit integers).
use roris_db.Prelude.{ℕ, zero, suc, ◌≤◌, length, IsI64, arith}
use roris_db.Resp.{
  RespValue, RespValues, simple_string, error, integer, bulk_string, null, array, null_array, nil,
  cons, count,
}
use roris_db.Resp.Parser.{max_bulk, max_elements}
use roris_db.Resp.RoundTrip.Lines.{IsLine}

-- `room` levels of arrays are left.
abbrev mutual
  pub IsSendable : RespValue → ℕ → Type 0
  IsSendable (simple_string s) room = IsLine s
  IsSendable (error e) room = IsLine e
  IsSendable (integer n) room = IsI64 n
  IsSendable (bulk_string b) room = length b ≤ max_bulk
  IsSendable null room = Unit
  IsSendable (array vs) zero = ⊥
  IsSendable (array vs) (suc room) = (count vs ≤ max_elements) × AllSendable vs room
  IsSendable null_array zero = ⊥
  IsSendable null_array (suc room) = Unit

  pub AllSendable : RespValues → ℕ → Type 0
  AllSendable nil room = Unit
  AllSendable (cons v vs) room = IsSendable v room × AllSendable vs room

mutual
  IsSendable-mono : (v : RespValue) (r r' : ℕ) → r ≤ r' → IsSendable v r → IsSendable v r'
  IsSendable-mono (simple_string s) r r' le h = h
  IsSendable-mono (error e) r r' le h = h
  IsSendable-mono (integer n) r r' le h = h
  IsSendable-mono (bulk_string b) r r' le h = h
  IsSendable-mono null r r' le h = h
  IsSendable-mono (array vs) zero r' le h = absurd h
  IsSendable-mono (array vs) (suc r) zero le h = absurd (omega arith)
  IsSendable-mono (array vs) (suc r) (suc r') le h =
      (h.0, AllSendable-mono vs r r' (omega arith) h.1)
  IsSendable-mono null_array zero r' le h = absurd h
  IsSendable-mono null_array (suc r) zero le h = absurd (omega arith)
  IsSendable-mono null_array (suc r) (suc r') le h = h

  AllSendable-mono : (vs : RespValues) (r r' : ℕ) → r ≤ r' → AllSendable vs r → AllSendable vs r'
  AllSendable-mono nil r r' le h = h
  AllSendable-mono (cons v vs) r r' le h =
      (IsSendable-mono v r r' le h.0, AllSendable-mono vs r r' le h.1)

pub IsSendable-weaken : (v : RespValue) (r r' : ℕ) → r ≤ r' → IsSendable v r → IsSendable v r'
IsSendable-weaken = IsSendable-mono
