-- ===== src/Resp/RoundTrip/Shapes.antt =====
-- crates/redis-protocol/src/resp.rs: each encoded value as a line with what follows it, and its
-- length.
use roris_db.Prelude.{
  ℕ, ◌+◌, ◌<◌, ◌≡◌, refl, ap, ◌∙◌, [], ◌∷◌, ◌++◌, length, length-append, arith, pos, negsuc,
}
use roris_db.Bytes.{Bytes}
use roris_db.Bytes.Decimal.{nat_to_string, int_to_string}
use roris_db.Resp.{
  RespValue, RespValues, simple_string, error, integer, bulk_string, null, array, null_array, nil,
  cons, count,
}
use roris_db.Resp.Encoder.{
  encode, encode_all, frame, encode-simple_string, encode-error, encode-integer, encode-bulk_string,
  encode-array, encode_all-cons,
}

pub null_shape :
    (rest : Bytes) → encode null [] ++ rest ≡ frame b'$' (int_to_string (negsuc 0)) rest
unfolding encode int_to_string nat_to_string
null_shape rest = refl

pub null_array_shape :
    (rest : Bytes) → encode null_array [] ++ rest ≡ frame b'*' (int_to_string (negsuc 0)) rest
unfolding encode int_to_string nat_to_string
null_array_shape rest = refl

nat_as_int : (n : ℕ) → nat_to_string n ≡ int_to_string (pos n)
unfolding int_to_string
nat_as_int n = refl

pub bulk_shape :
    (b rest : Bytes)
    → encode (bulk_string b) [] ++ rest
      ≡ frame b'$' (int_to_string (pos (length b))) (b ++ 13 ∷ 10 ∷ rest)
bulk_shape b rest =
    encode-bulk_string b rest ∙ ap (λ s. frame b'$' s (b ++ 13 ∷ 10 ∷ rest)) (nat_as_int (length b))

pub array_shape :
    (vs : RespValues) (rest : Bytes)
    → encode (array vs) [] ++ rest
      ≡ frame b'*' (int_to_string (pos (count vs))) (encode_all vs [] ++ rest)
array_shape vs rest =
    encode-array vs rest ∙ ap (λ s. frame b'*' s (encode_all vs [] ++ rest)) (nat_as_int (count vs))

pub length-frame :
    (kind : ℕ) (s rest : Bytes) → length (frame kind s rest) ≡ 1 + length s + 2 + length rest
length-frame kind s rest = omega (arith, length-append s (13 ∷ 10 ∷ rest))

-- The size of an encoding, from its shape.
pub length_of_shape :
    (e : Bytes) (kind : ℕ) (s tail : Bytes)
    → e ++ [] ≡ frame kind s tail
    → length e ≡ 1 + length s + 2 + length tail
length_of_shape e kind s tail shape =
    omega (arith, ap (length {A = ℕ}) shape, length-append e [], length-frame kind s tail)

pub encode_all_nil : encode_all nil [] ≡ []
unfolding encode_all
encode_all_nil = refl

pub length-encode_all-cons :
    (v : RespValue) (vs : RespValues)
    → length (encode_all (cons v vs) []) ≡ length (encode v []) + length (encode_all vs [])
length-encode_all-cons v vs = omega (
  arith,
  ap (length {A = ℕ}) (encode_all-cons v vs []),
  length-append (encode_all (cons v vs) []) [],
  length-append (encode v []) (encode_all vs [] ++ []),
  length-append (encode_all vs []) [],
)

pub length-encode_pos : (v : RespValue) → 0 < length (encode v [])
length-encode_pos (simple_string s) =
    omega (arith, length_of_shape _ b'+' s [] (encode-simple_string s []))
length-encode_pos (error s) = omega (arith, length_of_shape _ b'-' s [] (encode-error s []))
length-encode_pos (integer n) =
    omega (arith, length_of_shape _ b':' (int_to_string n) [] (encode-integer n []))
length-encode_pos (bulk_string b) = omega (arith, length_of_shape _ b'$' _ _ (bulk_shape b []))
length-encode_pos null = omega (arith, length_of_shape _ b'$' _ [] (null_shape []))
length-encode_pos (array vs) = omega (arith, length_of_shape _ b'*' _ _ (array_shape vs []))
length-encode_pos null_array = omega (arith, length_of_shape _ b'*' _ [] (null_array_shape []))
