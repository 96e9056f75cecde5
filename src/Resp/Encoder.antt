-- ===== src/Resp/Encoder.antt =====
-- crates/redis-protocol/src/resp.rs, `RespEncoder`: each `put` appends to the buffer.
use Prim.Native.String.{String}
use roris_db.Prelude.{ℕ, ◌≡◌, refl, [], ◌∷◌, ◌++◌, append-nil, append_assoc, length, ℤ}
use roris_db.Bytes.{Bytes, str}
use roris_db.Bytes.Decimal.{nat_to_string, int_to_string}
use roris_db.Resp.{
  RespValue, RespValues, simple_string, error, integer, bulk_string, null, array, null_array, nil,
  cons, count,
}

abbrev pub crlf : Bytes
crlf = 13 ∷ 10 ∷ []

unfoldable mutual
  pub encode : RespValue → Bytes → Bytes
  encode (simple_string s) buf = ((buf ++ b'+' ∷ []) ++ s) ++ crlf
  encode (error e) buf = ((buf ++ b'-' ∷ []) ++ e) ++ crlf
  encode (integer n) buf = ((buf ++ b':' ∷ []) ++ int_to_string n) ++ crlf
  encode (bulk_string b) buf =
      ((((buf ++ b'$' ∷ []) ++ nat_to_string (length b)) ++ crlf) ++ b) ++ crlf
  encode null buf = buf ++ b'$' ∷ b'-' ∷ b'1' ∷ crlf
  encode (array arr) buf =
      encode_all arr (((buf ++ b'*' ∷ []) ++ nat_to_string (count arr)) ++ crlf)
  encode null_array buf = buf ++ b'*' ∷ b'-' ∷ b'1' ∷ crlf

  -- the loop over the elements
  pub encode_all : RespValues → Bytes → Bytes
  encode_all nil buf = buf
  encode_all (cons elem arr) buf = encode_all arr (encode elem buf)

unfoldable pub encode_to_bytes : RespValue → Bytes
unfolding encode
encode_to_bytes val = encode val []

-- The replies that the command handler builds.
unfoldable pub ok_reply : Bytes
ok_reply = encode_to_bytes (simple_string (str "OK"))

unfoldable pub pong_reply : Bytes
pong_reply = encode_to_bytes (simple_string (str "PONG"))

unfoldable pub error_reply : String → Bytes
error_reply msg = encode_to_bytes (error (str msg))

unfoldable pub integer_reply : ℤ → Bytes
integer_reply n = encode_to_bytes (integer n)

unfoldable pub bulk_reply : Bytes → Bytes
bulk_reply s = encode_to_bytes (bulk_string s)

unfoldable pub null_reply : Bytes
null_reply = encode_to_bytes null

mutual
  unfolding encode encode_all

  append_encode : (v : RespValue) (buf : Bytes) → encode v buf ≡ buf ++ encode v []
  append_encode (simple_string s) buf = simp append_assoc
  append_encode (error e) buf = simp append_assoc
  append_encode (integer n) buf = simp append_assoc
  append_encode (bulk_string b) buf = simp append_assoc
  append_encode null buf = refl
  append_encode (array arr) buf = simp (append_encode_all arr, append_assoc)
  append_encode null_array buf = refl

  append_encode_all : (vs : RespValues) (buf : Bytes) → encode_all vs buf ≡ buf ++ encode_all vs []
  append_encode_all nil buf = simp append-nil
  append_encode_all (cons v vs) buf = cc (
    append_encode v buf,
    append_encode_all vs (encode v buf),
    append_encode_all vs (encode v []),
    append_assoc buf (encode v []) (encode_all vs []),
  )

-- A line of the protocol: a type byte, a text, "\r\n", and what follows.
abbrev pub frame : ℕ → Bytes → Bytes → Bytes
frame kind s rest = kind ∷ (s ++ 13 ∷ 10 ∷ rest)

pub encode-simple_string :
    (s rest : Bytes) → encode (simple_string s) [] ++ rest ≡ frame b'+' s rest
unfolding encode
encode-simple_string s rest = simp append_assoc

pub encode-error : (s rest : Bytes) → encode (error s) [] ++ rest ≡ frame b'-' s rest
unfolding encode
encode-error s rest = simp append_assoc

pub encode-integer :
    (n : ℤ) (rest : Bytes) → encode (integer n) [] ++ rest ≡ frame b':' (int_to_string n) rest
unfolding encode
encode-integer n rest = simp append_assoc

pub encode-bulk_string :
    (b rest : Bytes)
    → encode (bulk_string b) [] ++ rest
      ≡ frame b'$' (nat_to_string (length b)) (b ++ 13 ∷ 10 ∷ rest)
unfolding encode
encode-bulk_string b rest = simp append_assoc

pub encode-array :
    (vs : RespValues) (rest : Bytes)
    → encode (array vs) [] ++ rest
      ≡ frame b'*' (nat_to_string (count vs)) (encode_all vs [] ++ rest)
unfolding encode
encode-array vs rest = rw (append_encode_all vs _) (simp append_assoc)

pub encode_all-cons :
    (v : RespValue) (vs : RespValues) (rest : Bytes)
    → encode_all (cons v vs) [] ++ rest ≡ encode v [] ++ (encode_all vs [] ++ rest)
unfolding encode_all
encode_all-cons v vs rest = rw (append_encode_all vs _) (append_assoc (encode v []) _ rest)
