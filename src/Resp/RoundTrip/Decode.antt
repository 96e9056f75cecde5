-- ===== src/Resp/RoundTrip/Decode.antt =====
-- crates/redis-protocol/src/resp.rs: `parse` on encoded values.
use roris_db.Prelude.{
  ℕ, zero, suc, ◌+◌, ◌≤◌, ◌≡◌, refl, ap, sym, ◌∙◌, some, [], ◌++◌, length, length-append, drop,
  arith, pos, negsuc,
}
use roris_db.Bytes.{Bytes}
use roris_db.Bytes.Decimal.{int_to_string}
use roris_db.Resp.{
  RespValue, RespValues, simple_string, error, integer, bulk_string, null, array, null_array, nil,
  cons, count,
}
use roris_db.Resp.Encoder.{
  encode, encode_all, encode_to_bytes, frame, encode-simple_string, encode-error, encode-integer,
  encode_all-cons,
}
use roris_db.Resp.Parser.{
  Parsed, got, max_depth, max_elements, find_crlf, measure_value, parse_elements, with_header,
  parse_counted, parse_measured, parse_array, parse_fuel, parse,
}
use roris_db.Resp.RoundTrip.Lines.{find_crlf-header, with_header-frame, drop-frame}
use roris_db.Resp.RoundTrip.Shapes.{
  null_shape, null_array_shape, bulk_shape, array_shape, length_of_shape, encode_all_nil,
  length-encode_all-cons, length-encode_pos,
}
use roris_db.Resp.RoundTrip.Sendable.{IsSendable, AllSendable, IsSendable-weaken}
use roris_db.Resp.RoundTrip.Measure.{measure_value-encode}
use roris_db.Resp.RoundTrip.Leaves.{
  dispatch_line, dispatch_bulk, dispatch_array, read_simple_string, read_error, read_integer,
  read_bulk_string, read_null,
}

module _ (read : Bytes → Parsed RespValue) where
  parse_array_step :
      (buf : Bytes) (total : ℕ)
      → measure_value max_depth buf ≡ some total
      → total ≤ length buf
      → parse_array read buf ≡ parse_measured read buf
  unfolding parse_array
  parse_array_step buf total h fits = rw (h, parse_array) (ground (arith, fits))

  parse_measured_step :
      (buf : Bytes) (at : ℕ)
      → find_crlf buf 1 ≡ some at
      → parse_measured read buf ≡ with_header (λ n. parse_counted read n at buf) at buf
  unfolding parse_measured
  parse_measured_step buf at h = rw (h, parse_measured)

  parse_elements_step :
      (n : ℕ) (buf rest rest' : Bytes) (v : RespValue) (vs : RespValues)
      → read buf ≡ (got v, rest)
      → parse_elements read n rest ≡ (got vs, rest')
      → parse_elements read (suc n) buf ≡ (got (cons v vs), rest')
  unfolding parse_elements
  parse_elements_step n buf rest rest' v vs h k = rw h (rw k)

  parse_counted_step :
      (n at : ℕ) (buf rest : Bytes) (vs : RespValues)
      → n ≤ max_elements
      → parse_elements read n (drop (at + 2) buf) ≡ (got vs, rest)
      → parse_counted read (pos n) at buf ≡ (got (array vs), rest)
  unfolding parse_counted
  parse_counted_step n at buf rest vs fits h = rw h (ground (arith, fits))

  -- An array whose elements are read back, behind its header.
  read_array :
      (vs : RespValues) (rest : Bytes)
      → IsSendable (array vs) max_depth
      → parse_elements read (count vs) (encode_all vs [] ++ rest) ≡ (got vs, rest)
      → parse_array read (frame b'*' (int_to_string (pos (count vs))) (encode_all vs [] ++ rest))
        ≡ (got (array vs), rest)
  read_array vs rest h elements =
      let s = int_to_string (pos (count vs)) in
      let tail = encode_all vs [] ++ rest in
      parse_array_step (frame b'*' s tail) (length (encode (array vs) []))
        (ap (measure_value max_depth) (sym (array_shape vs rest))
          ∙ measure_value-encode (array vs) max_depth rest h)
        (omega (
          arith,
          ap (length {A = ℕ}) (array_shape vs rest),
          length-append (encode (array vs) []) rest,
        ))
      ∙ parse_measured_step (frame b'*' s tail) (1 + length s)
          (find_crlf-header b'*' (pos (count vs)) tail (omega (arith, h.0), omega arith))
      ∙ with_header-frame b'*' (pos (count vs)) tail (omega (arith, h.0), omega arith) _
      ∙ parse_counted_step (count vs) (1 + length s) (frame b'*' s tail) rest vs h.0
          (ap (parse_elements read (count vs)) (drop-frame b'*' s tail) ∙ elements)

read_null_array :
    (read : Bytes → Parsed RespValue) (rest : Bytes)
    → parse_array read (frame b'*' (int_to_string (negsuc 0)) rest) ≡ (got null_array, rest)
read_null_array read rest =
    let s = int_to_string (negsuc 0) in
    parse_array_step read (frame b'*' s rest) (length (encode null_array []))
      (ap (measure_value max_depth) (sym (null_array_shape rest))
        ∙ measure_value-encode null_array max_depth rest tt)
      (omega (
        arith,
        ap (length {A = ℕ}) (null_array_shape rest),
        length-append (encode null_array []) rest,
      ))
    ∙ parse_measured_step read (frame b'*' s rest) (1 + length s)
        (find_crlf-header b'*' (negsuc 0) rest (omega arith, omega arith))
    ∙ with_header-frame b'*' (negsuc 0) rest (omega arith, omega arith) _
    ∙ unfold parse_counted in ap (λ r. (got null_array, r)) (drop-frame b'*' s rest)

parse_elements-zero :
    (read : Bytes → Parsed RespValue) (buf : Bytes) → parse_elements read zero buf ≡ (got nil, buf)
unfolding parse_elements
parse_elements-zero read buf = refl

-- The fuel has to cover the bytes of the value.
mutual
  parse_fuel-encode :
      (v : RespValue) (room fuel : ℕ) (rest : Bytes)
      → IsSendable v room
      → room ≤ max_depth
      → length (encode v []) ≤ fuel
      → parse_fuel fuel (encode v [] ++ rest) ≡ (got v, rest)
  parse_fuel-encode v room zero rest h r f = absurd (omega (arith, length-encode_pos v))
  parse_fuel-encode (simple_string s) room (suc fuel) rest h r f =
      ap (parse_fuel (suc fuel)) (encode-simple_string s rest)
      ∙ (dispatch_line fuel _).0
      ∙ read_simple_string s rest h
  parse_fuel-encode (error s) room (suc fuel) rest h r f =
      ap (parse_fuel (suc fuel)) (encode-error s rest)
      ∙ (dispatch_line fuel _).1
      ∙ read_error s rest h
  parse_fuel-encode (integer n) room (suc fuel) rest h r f =
      ap (parse_fuel (suc fuel)) (encode-integer n rest)
      ∙ (dispatch_line fuel _).2
      ∙ read_integer n rest h
  parse_fuel-encode (bulk_string b) room (suc fuel) rest h r f =
      ap (parse_fuel (suc fuel)) (bulk_shape b rest)
      ∙ dispatch_bulk fuel _
      ∙ read_bulk_string b rest h
  parse_fuel-encode null room (suc fuel) rest h r f =
      ap (parse_fuel (suc fuel)) (null_shape rest) ∙ dispatch_bulk fuel _ ∙ read_null rest
  parse_fuel-encode (array vs) zero (suc fuel) rest h r f = absurd h
  parse_fuel-encode (array vs) (suc room) (suc fuel) rest h r f =
      ap (parse_fuel (suc fuel)) (array_shape vs rest)
      ∙ dispatch_array fuel _
      ∙ read_array (parse_fuel fuel) vs rest (IsSendable-weaken (array vs) (suc room) max_depth r h)
          (parse_fuel-all vs room fuel rest h.1 (omega arith) (
            omega (
              arith,
              length_of_shape _ b'*' _ _ (array_shape vs []),
              length-append (encode_all vs []) [],
            )))
  parse_fuel-encode null_array room (suc fuel) rest h r f =
      ap (parse_fuel (suc fuel)) (null_array_shape rest)
      ∙ dispatch_array fuel _
      ∙ read_null_array (parse_fuel fuel) rest

  parse_fuel-all :
      (vs : RespValues) (room fuel : ℕ) (rest : Bytes)
      → AllSendable vs room
      → room ≤ max_depth
      → length (encode_all vs []) ≤ fuel
      → parse_elements (parse_fuel fuel) (count vs) (encode_all vs [] ++ rest) ≡ (got vs, rest)
  parse_fuel-all nil room fuel rest h r f =
      ap (λ s. parse_elements (parse_fuel fuel) zero (s ++ rest)) encode_all_nil
      ∙ parse_elements-zero (parse_fuel fuel) rest
  parse_fuel-all (cons v vs) room fuel rest h r f =
      ap (parse_elements (parse_fuel fuel) (suc (count vs))) (encode_all-cons v vs rest)
      ∙ parse_elements_step (parse_fuel fuel) (count vs) _ (encode_all vs [] ++ rest) rest v vs
          (parse_fuel-encode v room fuel (encode_all vs [] ++ rest) h.0 r
            (omega (arith, length-encode_all-cons v vs)))
          (parse_fuel-all vs room fuel rest h.1 r (omega (arith, length-encode_all-cons v vs)))

-- Parsing the encoding of a value gives the value back and leaves the bytes that follow it, for
-- every value within the parser's limits.
pub parse-encode_to_bytes :
    (v : RespValue) (rest : Bytes)
    → IsSendable v max_depth
    → parse (encode_to_bytes v ++ rest) ≡ (got v, rest)
unfolding parse encode_to_bytes
parse-encode_to_bytes v rest h =
    parse_fuel-encode v max_depth _ rest h (omega arith)
      (omega (arith, length-append (encode v []) rest))
