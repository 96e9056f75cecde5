-- ===== src/Mysql/Packet/Handshake.antt =====
-- crates/mysql-protocol/src/packet.rs: the client's answer to the handshake. `String::from_utf8_lossy`
-- is an argument.
pub mod Client
pub mod Accepted
use roris_db.Prelude.{
  ℕ, zero, suc, ◌+◌, ◌-◌, Bool, true, false, ◌&&◌, Option, none, some, List, [], ◌∷◌, ◌++◌, ◌⊎◌,
  inl, inr, length, take, drop, ltb, leb, ◌==◌, if◌then◌else◌,
}
use roris_db.Bytes.{Bytes, slice}
use roris_db.Bytes.Endian.{from_le}
use roris_db.Mysql.Packet.{
  LenencError, read_lenenc_int, has_flag, connect_with_db, secure_connection, plugin_auth,
  plugin_auth_lenenc_client_data,
}

pub record HandshakeResponse : Type 0 where
  pub capability_flags : ℕ
  pub max_packet_size : ℕ
  pub charset : ℕ
  pub username : Bytes
  pub auth_response : Bytes
  pub database : Option Bytes
  pub auth_plugin_name : Option Bytes

-- the `Err` strings of `parse`
pub data HandshakeError : Type 0 where
  response_too_short not_null_terminated : HandshakeError
  bad_length : LenencError → HandshakeError

-- What `parse` does: it returns, or it panics on an index out of bounds.
pub data Answer : Type 0 where
  accepted : HandshakeResponse → Answer
  refused : HandshakeError → Answer
  panicked : Answer

-- `s[start..end]`, where `none` is the panic
unfoldable pub range : ℕ → ℕ → Bytes → Option Bytes
range start end s = if leb start end && leb end (length s) then some (slice start end s) else none

-- `position(|&b| b == 0)`
unfoldable pub null_position : Bytes → Option ℕ
null_position [] = none
null_position (b ∷ s) =
    let rest = null_position s in
    if b == 0 then some 0 else elim rest [ none ↦ none | some n ↦ some (suc n) ]

-- the bytes up to the first null, or to the end
unfoldable pub until_null : Bytes → Bytes
unfolding null_position
until_null s = elim (null_position s) [ none ↦ s | some n ↦ take n s ]

-- `let data = payload[start..start + len].to_vec(); (data, total)`
abbrev pub auth_slice : Bytes → ℕ → ℕ → ℕ → Option (Bytes × ℕ)
auth_slice payload start len total = elim (range start (start + len) payload) [
  | none ↦ none
  | some bytes ↦ some (bytes, total)
]

-- The authentication data at `auth_start` and the bytes that it takes, in the three ways of writing it.
unfoldable pub auth_data : ℕ → Bytes → ℕ → LenencError ⊎ Option (Bytes × ℕ)
unfolding read_lenenc_int range until_null
auth_data flags payload auth_start =
    if has_flag plugin_auth_lenenc_client_data flags
    then elim (read_lenenc_int (drop auth_start payload)) [
      | inl e ↦ inl e
      | inr (len, n) ↦ inr (auth_slice payload (auth_start + n) len (n + len))
    ]
    else if has_flag secure_connection flags
    then elim (drop auth_start payload) [
      | [] ↦ inr none
      | len ∷ _ ↦ inr (auth_slice payload (auth_start + 1) len (1 + len))
    ]
    else inr (
        some
          (until_null (drop auth_start payload), length (until_null (drop auth_start payload)) + 1))

module _ (from_utf8_lossy : Bytes → Bytes) where
  -- A text that a flag announces, if the payload goes on at `start`.
  unfoldable pub text_at : ℕ → ℕ → Bytes → ℕ → Option Bytes
  unfolding until_null
  text_at flag flags payload start =
      if has_flag flag flags && ltb start (length payload)
      then some (from_utf8_lossy (until_null (drop start payload)))
      else none

  abbrev pub plugin_start : ℕ → Option Bytes → ℕ
  plugin_start db_start none = db_start
  plugin_start db_start (some db) = db_start + length db + 1

  -- what follows the user's name
  unfoldable pub parse_auth : Bytes → Bytes → ℕ → Answer
  unfolding auth_data text_at
  parse_auth payload username auth_start =
      let flags : ℕ = from_le (take 4 payload) in
      elim (auth_data flags payload auth_start) [
        | inl e ↦ refused (bad_length e)
        | inr none ↦ panicked
        | inr (some (auth_response, auth_total_len)) ↦
            let db_start : ℕ = auth_start + auth_total_len in
            let database : Option Bytes = text_at connect_with_db flags payload db_start in
            accepted (record {
              capability_flags = flags;
              max_packet_size = from_le (take 4 (drop 4 payload));
              charset = from_le (take 1 (drop 8 payload));
              username = username;
              auth_response = auth_response;
              database = database;
              auth_plugin_name = text_at plugin_auth flags payload (plugin_start db_start database);
            })
      ]

  -- `HandshakeResponse::parse`
  unfoldable pub parse_handshake : Bytes → Answer
  unfolding null_position parse_auth
  parse_handshake payload =
      if ltb (length payload) 33
      then refused response_too_short
      else elim (null_position (drop 32 payload)) [
        | none ↦ refused not_null_terminated
        | some end ↦
            parse_auth payload (from_utf8_lossy (take end (drop 32 payload))) (end + 32 + 1)
      ]
