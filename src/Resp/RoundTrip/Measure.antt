-- ===== src/Resp/RoundTrip/Measure.antt =====
-- crates/redis-protocol/src/resp.rs: `measure_value` on encoded values.
use roris_db.Prelude.{
  ℕ, zero, suc, ◌+◌, ◌≤◌, ◌≡◌, refl, ap, ◌∙◌, Option, some, [], ◌∷◌, ◌++◌, length, length-append,
  drop, drop-length-append, arith, pos, negsuc,
}
use roris_db.Bytes.{Bytes}
use roris_db.Bytes.Decimal.{int_to_string}
use roris_db.Resp.{
  RespValue, RespValues, simple_string, error, integer, bulk_string, null, array, null_array, nil,
  cons, count,
}
use roris_db.Resp.Encoder.{
  encode, encode_all, encode-simple_string, encode-error, encode-integer, encode_all-cons,
}
use roris_db.Resp.Parser.{
  measure_header, measure_line, measure_bulk, measure_elements, measure_array, measure_with,
  measure_value,
}
use roris_db.Resp.RoundTrip.Lines.{
  measure_line-frame, measure_header-frame, IsLine-int_to_string, drop-frame,
}
use roris_db.Resp.RoundTrip.Shapes.{
  null_shape, null_array_shape, bulk_shape, array_shape, length-frame, length_of_shape,
  encode_all_nil, length-encode_all-cons,
}
use roris_db.Resp.RoundTrip.Sendable.{IsSendable, AllSendable}

measure_value_line :
    (room : ℕ) (s : Bytes)
    → (measure_value room (b'+' ∷ s) ≡ measure_line 1 (b'+' ∷ s))
      × (measure_value room (b'-' ∷ s) ≡ measure_line 1 (b'-' ∷ s))
      × (measure_value room (b':' ∷ s) ≡ measure_line 1 (b':' ∷ s))
unfolding measure_value measure_with
measure_value_line zero s = (refl, refl, refl)
measure_value_line (suc room) s = (refl, refl, refl)

measure_value_bulk :
    (room : ℕ) (s : Bytes) → measure_value room (b'$' ∷ s) ≡ measure_bulk (b'$' ∷ s)
unfolding measure_value measure_with
measure_value_bulk zero s = refl
measure_value_bulk (suc room) s = refl

measure_value_array :
    (room : ℕ) (s : Bytes)
    → measure_value (suc room) (b'*' ∷ s) ≡ measure_array (measure_value room) (b'*' ∷ s)
unfolding measure_value measure_with
measure_value_array room s = refl

measure_bulk_null :
    (buf : Bytes) (at n : ℕ)
    → measure_header buf ≡ some (at, negsuc n)
    → measure_bulk buf ≡ some (at + 2)
unfolding measure_bulk
measure_bulk_null buf at n h = rw (h, measure_bulk)

measure_bulk_data :
    (buf : Bytes) (at len : ℕ)
    → measure_header buf ≡ some (at, pos len)
    → at + 2 + len + 2 ≤ length buf
    → measure_bulk buf ≡ some (at + 2 + len + 2)
unfolding measure_bulk
measure_bulk_data buf at len h fits = rw (h, measure_bulk) (ground (arith, fits))

measure_array_null :
    (measured : Bytes → Option ℕ) (buf : Bytes) (at n : ℕ)
    → measure_header buf ≡ some (at, negsuc n)
    → measure_array measured buf ≡ some (at + 2)
unfolding measure_array
measure_array_null measured buf at n h = rw (h, measure_array)

measure_array_elements :
    (measured : Bytes → Option ℕ) (buf : Bytes) (at n end : ℕ)
    → measure_header buf ≡ some (at, pos n)
    → measure_elements measured n (drop (at + 2) buf) (at + 2) ≡ some end
    → end ≤ length buf
    → measure_array measured buf ≡ some end
unfolding measure_array
measure_array_elements measured buf at n end h e fits = ground (arith, h, e, fits)

measure_elements-zero :
    (measured : Bytes → Option ℕ) (s : Bytes) (at : ℕ)
    → measure_elements measured zero s at ≡ some at
unfolding measure_elements
measure_elements-zero measured s at = refl

measure_elements_step :
    (measured : Bytes → Option ℕ) (n at size : ℕ) (s : Bytes)
    → measured s ≡ some size
    → measure_elements measured (suc n) s at ≡ measure_elements measured n (drop size s) (at + size)
unfolding measure_elements
measure_elements_step measured n at size s h = rw (h, measure_elements)

mutual
  measure-encode :
      (v : RespValue) (room : ℕ) (rest : Bytes)
      → IsSendable v room
      → measure_value room (encode v [] ++ rest) ≡ some (length (encode v []))
  measure-encode (simple_string s) room rest h =
      ap (measure_value room) (encode-simple_string s rest)
      ∙ (measure_value_line room _).0
      ∙ measure_line-frame b'+' s rest h.one_line
      ∙ ap some (omega (arith, length_of_shape _ b'+' s [] (encode-simple_string s [])))
  measure-encode (error s) room rest h =
      ap (measure_value room) (encode-error s rest)
      ∙ (measure_value_line room _).1
      ∙ measure_line-frame b'-' s rest h.one_line
      ∙ ap some (omega (arith, length_of_shape _ b'-' s [] (encode-error s [])))
  measure-encode (integer n) room rest h =
      ap (measure_value room) (encode-integer n rest)
      ∙ (measure_value_line room _).2
      ∙ measure_line-frame b':' (int_to_string n) rest (IsLine-int_to_string n).one_line
      ∙ ap some (omega (arith, length_of_shape _ b':' (int_to_string n) [] (encode-integer n [])))
  measure-encode (bulk_string b) room rest h =
      ap (measure_value room) (bulk_shape b rest)
      ∙ measure_value_bulk room _
      ∙ measure_bulk_data _ _ (length b)
          (measure_header-frame b'$' (pos (length b)) (b ++ 13 ∷ 10 ∷ rest)
            (omega arith, omega arith))
          (omega (
            arith,
            length-frame b'$' (int_to_string (pos (length b))) (b ++ 13 ∷ 10 ∷ rest),
            length-append b (13 ∷ 10 ∷ rest),
          ))
      ∙ ap some (
          omega
            (arith, length_of_shape _ b'$' _ _ (bulk_shape b []), length-append b (13 ∷ 10 ∷ [])))
  measure-encode null room rest h =
      ap (measure_value room) (null_shape rest)
      ∙ measure_value_bulk room _
      ∙ measure_bulk_null _ _ 0
          (measure_header-frame b'$' (negsuc 0) rest (omega arith, omega arith))
      ∙ ap some (omega (arith, length_of_shape _ b'$' _ [] (null_shape [])))
  measure-encode (array vs) zero rest h = absurd h
  measure-encode (array vs) (suc room) rest h =
      ap (measure_value (suc room)) (array_shape vs rest)
      ∙ measure_value_array room _
      ∙ measure_array_elements (measure_value room) _ (1 + length (int_to_string (pos (count vs))))
          (count vs) (1 + length (int_to_string (pos (count vs))) + 2 + length (encode_all vs []))
          (measure_header-frame b'*' (pos (count vs)) _ (omega (arith, h.0), omega arith))
          (ap
              (λ s.
                measure_elements (measure_value room) (count vs) s
                  (1 + length (int_to_string (pos (count vs))) + 2))
              (drop-frame b'*' (int_to_string (pos (count vs))) (encode_all vs [] ++ rest))
            ∙ measure_all vs room rest _ h.1)
          (omega (
            arith,
            length-frame b'*' (int_to_string (pos (count vs))) (encode_all vs [] ++ rest),
            length-append (encode_all vs []) rest,
          ))
      ∙ ap some (
          omega (
            arith,
            length_of_shape _ b'*' _ _ (array_shape vs []),
            length-append (encode_all vs []) [],
          ))
  measure-encode null_array zero rest h = absurd h
  measure-encode null_array (suc room) rest h =
      ap (measure_value (suc room)) (null_array_shape rest)
      ∙ measure_value_array room _
      ∙ measure_array_null (measure_value room) _ _ 0
          (measure_header-frame b'*' (negsuc 0) rest (omega arith, omega arith))
      ∙ ap some (omega (arith, length_of_shape _ b'*' _ [] (null_array_shape [])))

  measure_all :
      (vs : RespValues) (room : ℕ) (rest : Bytes) (at : ℕ)
      → AllSendable vs room
      → measure_elements (measure_value room) (count vs) (encode_all vs [] ++ rest) at
        ≡ some (at + length (encode_all vs []))
  measure_all nil room rest at h =
      measure_elements-zero (measure_value room) _ at
      ∙ ap some (omega (arith, ap (length {A = ℕ}) encode_all_nil))
  measure_all (cons v vs) room rest at h =
      ap (λ s. measure_elements (measure_value room) (suc (count vs)) s at)
        (encode_all-cons v vs rest)
      ∙ measure_elements_step (measure_value room) (count vs) at (length (encode v [])) _
          (measure-encode v room (encode_all vs [] ++ rest) h.0)
      ∙ ap (λ s. measure_elements (measure_value room) (count vs) s (at + length (encode v [])))
          (drop-length-append (encode v []) (encode_all vs [] ++ rest))
      ∙ measure_all vs room rest (at + length (encode v [])) h.1
      ∙ ap some (omega (arith, length-encode_all-cons v vs))

-- Whatever follows an encoded value in the buffer, `measure_value` finds where the value ends.
pub measure_value-encode :
    (v : RespValue) (room : ℕ) (rest : Bytes)
    → IsSendable v room
    → measure_value room (encode v [] ++ rest) ≡ some (length (encode v []))
measure_value-encode = measure-encode
