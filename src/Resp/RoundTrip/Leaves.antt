-- ===== src/Resp/RoundTrip/Leaves.antt =====
-- crates/redis-protocol/src/resp.rs: the readers of values that are not arrays, on encoded values.
use roris_db.Prelude.{
  ℕ, suc, ◌+◌, ◌≤◌, ◌≡◌, refl, ap, sym, ◌∙◌, some, [], ◌∷◌, ◌++◌, length, length-append,
  append_assoc, drop, arith, ℤ, pos, negsuc, IsI64,
}
use roris_db.Bytes.{Bytes}
use roris_db.Bytes.Decimal.{int_to_string, parse_i64}
use roris_db.Bytes.Decimal.RoundTrip.{parse_i64-int_to_string}
use roris_db.Resp.{simple_string, error, integer, bulk_string, null}
use roris_db.Resp.Encoder.{frame}
use roris_db.Resp.Parser.{
  got, max_bulk, integer_of, parse_simple_string, parse_error, parse_integer, parse_bulk_data,
  with_header, parse_bulk_string, find_crlf, parse_array, parse_fuel,
}
use roris_db.Resp.RoundTrip.Lines.{
  IsLine, parse_line-frame, find_crlf-header, with_header-frame, IsLine-int_to_string, drop-frame,
  slice_at, drop_at,
}

-- The prefix byte chooses the reader.
module _ (fuel : ℕ) (s : Bytes) where
  pub dispatch_line :
      (parse_fuel (suc fuel) (b'+' ∷ s) ≡ parse_simple_string (b'+' ∷ s))
      × (parse_fuel (suc fuel) (b'-' ∷ s) ≡ parse_error (b'-' ∷ s))
      × (parse_fuel (suc fuel) (b':' ∷ s) ≡ parse_integer (b':' ∷ s))
  unfolding parse_fuel
  dispatch_line = (refl, refl, refl)

  pub dispatch_bulk : parse_fuel (suc fuel) (b'$' ∷ s) ≡ parse_bulk_string (b'$' ∷ s)
  unfolding parse_fuel
  dispatch_bulk = refl

  pub dispatch_array : parse_fuel (suc fuel) (b'*' ∷ s) ≡ parse_array (parse_fuel fuel) (b'*' ∷ s)
  unfolding parse_fuel
  dispatch_array = refl

module _ (s rest : Bytes) where
  pub read_simple_string :
      IsLine s → parse_simple_string (frame b'+' s rest) ≡ (got (simple_string s), rest)
  unfolding parse_simple_string
  read_simple_string h = rw (parse_line-frame b'+' s rest h)

  pub read_error : IsLine s → parse_error (frame b'-' s rest) ≡ (got (error s), rest)
  unfolding parse_error
  read_error h = rw (parse_line-frame b'-' s rest h)

integer_of_step :
    (line : Bytes) (n : ℤ) → parse_i64 line ≡ some n → integer_of line ≡ got (integer n)
integer_of_step line n h = rw (h, integer_of)

pub read_integer :
    (n : ℤ) (rest : Bytes)
    → IsI64 n
    → parse_integer (frame b':' (int_to_string n) rest) ≡ (got (integer n), rest)
unfolding parse_integer
read_integer n rest h =
    rw (parse_line-frame b':' (int_to_string n) rest (IsLine-int_to_string n))
      (ap (λ o. (o, rest)) (integer_of_step (int_to_string n) n (parse_i64-int_to_string n h)))

parse_bulk_string_step :
    (buf : Bytes) (at : ℕ)
    → find_crlf buf 1 ≡ some at
    → parse_bulk_string buf ≡ with_header (λ len. parse_bulk_data len at buf) at buf
unfolding parse_bulk_string
parse_bulk_string_step buf at h = rw (h, parse_bulk_string)

drop_past :
    (pre b rest : Bytes) (n : ℕ)
    → n ≡ length pre + length b + 2
    → drop n (pre ++ (b ++ 13 ∷ 10 ∷ rest)) ≡ rest
drop_past pre b rest n e =
    ap (drop n) (simp append_assoc)
    ∙ drop_at n (pre ++ (b ++ 13 ∷ 10 ∷ [])) rest
        (omega (arith, length-append pre (b ++ 13 ∷ 10 ∷ []), length-append b (13 ∷ 10 ∷ [])))

-- A bulk string behind any header.
read_bulk_data :
    (pre b rest : Bytes) (at : ℕ)
    → at + 2 ≡ length pre
    → length b ≤ max_bulk
    → parse_bulk_data (pos (length b)) at (pre ++ (b ++ 13 ∷ 10 ∷ rest))
      ≡ (got (bulk_string b), rest)
unfolding parse_bulk_data
read_bulk_data pre b rest at e fits = ground (
  arith,
  length-append pre (b ++ 13 ∷ 10 ∷ rest),
  length-append b (13 ∷ 10 ∷ rest),
  slice_at (at + 2) (at + 2 + length b) pre b (13 ∷ 10 ∷ rest) e (omega arith),
  drop_past pre b rest (at + 2 + length b + 2) (omega arith),
)

-- The same with the header as a line.
pub read_bulk_string :
    (b rest : Bytes)
    → length b ≤ max_bulk
    → parse_bulk_string (frame b'$' (int_to_string (pos (length b))) (b ++ 13 ∷ 10 ∷ rest))
      ≡ (got (bulk_string b), rest)
read_bulk_string b rest fits =
    let h = int_to_string (pos (length b)) in
    let tail = b ++ 13 ∷ 10 ∷ rest in
    parse_bulk_string_step (frame b'$' h tail) (1 + length h)
      (find_crlf-header b'$' (pos (length b)) tail (omega arith, omega arith))
    ∙ with_header-frame b'$' (pos (length b)) tail (omega arith, omega arith) _
    ∙ ap (parse_bulk_data (pos (length b)) (1 + length h))
        (ap (λ l. b'$' ∷ l) (sym (append_assoc h (13 ∷ 10 ∷ []) tail)))
    ∙ read_bulk_data (b'$' ∷ (h ++ 13 ∷ 10 ∷ [])) b rest (1 + length h)
        (omega (arith, length-append h (13 ∷ 10 ∷ []))) fits

pub read_null :
    (rest : Bytes)
    → parse_bulk_string (frame b'$' (int_to_string (negsuc 0)) rest) ≡ (got null, rest)
read_null rest =
    parse_bulk_string_step _ _ (find_crlf-header b'$' (negsuc 0) rest (omega arith, omega arith))
    ∙ with_header-frame b'$' (negsuc 0) rest (omega arith, omega arith) _
    ∙ unfold parse_bulk_data in
      ap (λ r. (got null, r)) (drop-frame b'$' (int_to_string (negsuc 0)) rest)
