-- ===== src/Resp/Parser.antt =====
-- crates/redis-protocol/src/resp.rs, `RespParser`. A function over `&mut BytesMut` returns its
-- result with the buffer that it leaves; `measure_value` reads `buf` from `offset` on only, so it
-- takes that suffix and returns the same size.
use roris_db.Prelude.{
  ℕ, zero, suc, ◌+◌, ◌*◌, ◌&&◌, ◌||◌, Option, none, some, [], ◌∷◌, map, leb, ltb, ◌==◌,
  if◌then◌else◌, length, drop, ℤ, pos, negsuc,
}
use roris_db.Bytes.{Bytes, slice}
use roris_db.Bytes.Utf8.{from_utf8}
use roris_db.Bytes.Words.{split_whitespace}
use roris_db.Bytes.Decimal.{parse_i64}
use roris_db.Resp.{
  RespValue, RespValues, simple_string, error, integer, bulk_string, null, array, null_array, nil,
  cons, from_list, RespError, invalid_data, invalid_integer,
}

-- `Result<Option<A>, RespError>`; `stuck` means that the model's fuel ran out.
pub data Outcome {ℓ} (A : Type ℓ) : Type ℓ where
  incomplete : Outcome A
  got : A → Outcome A
  failed : RespError → Outcome A
  stuck : Outcome A

abbrev pub Parsed : Type 0 → Type 0
Parsed A = Outcome A × Bytes

-- the first position of "\r\n" in `s`, whose first byte stands at `i`
unfoldable pub find_crlf_at : ℕ → Bytes → Option ℕ
find_crlf_at i [] = none
find_crlf_at i (a ∷ []) = none
find_crlf_at i (a ∷ b ∷ s) =
    let later = find_crlf_at (i + 1) (b ∷ s) in if a == 13 && b == 10 then some i else later

unfoldable pub find_crlf : Bytes → ℕ → Option ℕ
unfolding find_crlf_at
find_crlf buf start = find_crlf_at start (drop start buf)

-- `parse_line` for `start = 1` and `parse_line_inline` for `start = 0`
unfoldable pub parse_line : ℕ → Bytes → Parsed Bytes
parse_line start buf = elim (find_crlf buf start) [
  | none ↦ (incomplete, buf)
  | some at ↦ elim (from_utf8 (slice start at buf)) [
    | none ↦ (failed invalid_data, buf)
    | some line ↦ (got line, drop (at + 2) buf)
  ]
]

-- `opt.map(f)`, and `and_then` where the line decides
abbrev pub on_line : (Bytes → Outcome RespValue) → Parsed Bytes → Parsed RespValue
on_line f (incomplete, buf) = (incomplete, buf)
on_line f (got line, buf) = (f line, buf)
on_line f (failed e, buf) = (failed e, buf)
on_line f (stuck, buf) = (stuck, buf)

unfoldable pub parse_simple_string : Bytes → Parsed RespValue
parse_simple_string buf = on_line (λ line. got (simple_string line)) (parse_line 1 buf)

unfoldable pub parse_error : Bytes → Parsed RespValue
parse_error buf = on_line (λ line. got (error line)) (parse_line 1 buf)

abbrev pub integer_of : Bytes → Outcome RespValue
integer_of line = elim (parse_i64 line) [
  | none ↦ failed (invalid_integer line)
  | some n ↦ got (integer n)
]

unfoldable pub parse_integer : Bytes → Parsed RespValue
parse_integer buf = on_line integer_of (parse_line 1 buf)

unfoldable pub parse_inline : Bytes → Parsed RespValue
parse_inline buf =
    on_line (λ line. got (array (from_list (map bulk_string (split_whitespace line)))))
      (parse_line 0 buf)

abbrev pub max_bulk : ℕ
max_bulk = 512 * 1024 * 1024

-- `parse_bulk_string` from the point where the length is known
unfoldable pub parse_bulk_data : ℤ → ℕ → Bytes → Parsed RespValue
parse_bulk_data (negsuc zero) at buf = (got null, drop (at + 2) buf)
parse_bulk_data (negsuc (suc n)) at buf = (failed invalid_data, buf)
parse_bulk_data (pos len) at buf =
    if ltb max_bulk len
    then (failed invalid_data, buf)
    else if ltb (length buf) (at + 2 + len + 2)
    then (incomplete, buf)
    else (got (bulk_string (slice (at + 2) (at + 2 + len) buf)), drop (at + 2 + len + 2) buf)

-- The header of a bulk string or of an array: `buf[1..at]` as an `i64`.
unfoldable pub with_header : (ℤ → Parsed RespValue) → ℕ → Bytes → Parsed RespValue
with_header next at buf = elim (from_utf8 (slice 1 at buf)) [
  | none ↦ (failed invalid_data, buf)
  | some text ↦ elim (parse_i64 text) [
    | none ↦ (failed (invalid_integer text), buf)
    | some n ↦ next n
  ]
]

unfoldable pub parse_bulk_string : Bytes → Parsed RespValue
parse_bulk_string buf = elim (find_crlf buf 1) [
  | none ↦ (incomplete, buf)
  | some at ↦ with_header (λ len. parse_bulk_data len at buf) at buf
]

-- `find_crlf_in`, then `buf[offset + 1..newline_pos]` as an `i64`
unfoldable pub measure_header : Bytes → Option (ℕ × ℤ)
measure_header buf = elim (find_crlf buf 1) [
  | none ↦ none
  | some at ↦ elim (from_utf8 (slice 1 at buf)) [
    | none ↦ none
    | some text ↦ elim (parse_i64 text) [ none ↦ none | some n ↦ some (at, n) ]
  ]
]

-- `i + 2 - offset` at the first "\r\n" from `start` on
unfoldable pub measure_line : ℕ → Bytes → Option ℕ
measure_line start buf = elim (find_crlf buf start) [ none ↦ none | some at ↦ some (at + 2) ]

unfoldable pub measure_bulk : Bytes → Option ℕ
measure_bulk buf = elim (measure_header buf) [
  | none ↦ none
  | some (at, negsuc n) ↦ some (at + 2)
  | some (at, pos len) ↦
      if leb (at + 2 + len + 2) (length buf) then some (at + 2 + len + 2) else none
]

-- `for _ in 0..count`: `measured` is `measure_value` one level deeper.
unfoldable pub measure_elements : (Bytes → Option ℕ) → ℕ → Bytes → ℕ → Option ℕ
measure_elements measured zero rest at = some at
measure_elements measured (suc n) rest at = elim (measured rest) [
  | none ↦ none
  | some size ↦ measure_elements measured n (drop size rest) (at + size)
]

abbrev pub within : Bytes → Option ℕ → Option ℕ
within buf none = none
within buf (some at) = if leb at (length buf) then some at else none

unfoldable pub measure_array : (Bytes → Option ℕ) → Bytes → Option ℕ
measure_array measured buf = elim (measure_header buf) [
  | none ↦ none
  | some (at, negsuc n) ↦ some (at + 2)
  | some (at, pos count) ↦ within buf (measure_elements measured count (drop (at + 2) buf) (at + 2))
]

-- `none` in the first argument: the depth has reached `MAX_DEPTH`.
unfoldable pub measure_with : Option (Bytes → Option ℕ) → Bytes → Option ℕ
measure_with deeper [] = none
measure_with deeper (prefix ∷ s) =
    if prefix == b'+' || prefix == b'-' || prefix == b':'
    then measure_line 1 (prefix ∷ s)
    else if prefix == b'$'
    then measure_bulk (prefix ∷ s)
    else if prefix == b'*'
    then elim deeper [ none ↦ none | some measured ↦ measure_array measured (prefix ∷ s) ]
    else measure_line 0 (prefix ∷ s)

-- `measure_value(buf, offset, depth)` with `room = MAX_DEPTH - depth`
unfoldable pub measure_value : ℕ → Bytes → Option ℕ
measure_value zero = measure_with none
measure_value (suc room) = measure_with (some (measure_value room))

abbrev pub max_depth : ℕ
max_depth = 128

abbrev pub max_elements : ℕ
max_elements = 1000000

-- `parse(buf)?` in the loop of `parse_array`: anything but a value leaves the loop.
abbrev pub after {ℓ κ} :
    {A : Type ℓ} {B : Type κ}
    → Outcome A × Bytes
    → (A → Bytes → Outcome B × Bytes)
    → Outcome B × Bytes
after (incomplete, buf) next = (incomplete, buf)
after (got v, buf) next = next v buf
after (failed e, buf) next = (failed e, buf)
after (stuck, buf) next = (stuck, buf)

unfoldable pub parse_elements : (Bytes → Parsed RespValue) → ℕ → Bytes → Parsed RespValues
parse_elements parse zero buf = (got nil, buf)
parse_elements parse (suc n) buf =
    after (parse buf)
      (λ v rest. after (parse_elements parse n rest) (λ vs rest'. (got (cons v vs), rest')))

unfoldable pub parse_counted : (Bytes → Parsed RespValue) → ℤ → ℕ → Bytes → Parsed RespValue
parse_counted parse (negsuc n) at buf = (got null_array, drop (at + 2) buf)
parse_counted parse (pos n) at buf =
    if ltb max_elements n
    then (failed invalid_data, buf)
    else after (parse_elements parse n (drop (at + 2) buf)) (λ vs rest. (got (array vs), rest))

unfoldable pub parse_measured : (Bytes → Parsed RespValue) → Bytes → Parsed RespValue
parse_measured parse buf = elim (find_crlf buf 1) [
  | none ↦ (failed invalid_data, buf)
  | some at ↦ with_header (λ n. parse_counted parse n at buf) at buf
]

unfoldable pub parse_array : (Bytes → Parsed RespValue) → Bytes → Parsed RespValue
parse_array parse buf = elim (measure_value max_depth buf) [
  | none ↦ (incomplete, buf)
  | some total ↦ if leb total (length buf) then parse_measured parse buf else (incomplete, buf)
]

unfoldable pub parse_fuel : ℕ → Bytes → Parsed RespValue
parse_fuel zero buf = (stuck, buf)
parse_fuel (suc fuel) [] = (incomplete, [])
parse_fuel (suc fuel) (prefix ∷ s) =
    if prefix == b'+'
    then parse_simple_string (prefix ∷ s)
    else if prefix == b'-'
    then parse_error (prefix ∷ s)
    else if prefix == b':'
    then parse_integer (prefix ∷ s)
    else if prefix == b'$'
    then parse_bulk_string (prefix ∷ s)
    else if prefix == b'*'
    then parse_array (parse_fuel fuel) (prefix ∷ s)
    else parse_inline (prefix ∷ s)

-- The fuel is the buffer's length and one: an array's elements stand behind its header.
unfoldable pub parse : Bytes → Parsed RespValue
parse buf = parse_fuel (suc (length buf)) buf
