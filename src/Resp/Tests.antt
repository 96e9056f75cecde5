-- ===== src/Resp/Tests.antt =====
-- The theorems about the protocol at concrete inputs.
use roris_db.Prelude.{◌≤◌, ◌<◌, ◌≡◌, ◌≢◌, refl, ◌++◌, length, pos, negsuc, arith}
use roris_db.Bytes.{str}
use roris_db.Resp.{RespValue, integer, bulk_string, null, array, null_array, nil, cons}
use roris_db.Resp.Encoder.{encode_to_bytes}
use roris_db.Resp.Parser.{parse, got, stuck, parse_fuel, parse_integer, parse_line, find_crlf}
use roris_db.Bytes.Utf8.{from_utf8}
use roris_db.Bytes.Decimal.{parse_i64}
use roris_db.Resp.RoundTrip.Sendable.{IsSendable}
use roris_db.Resp.RoundTrip.Decode.{parse-encode_to_bytes}
use roris_db.Resp.Fuel.{parse_ends}
use roris_db.Resp.Progress.{parse_takes}

-- an array in an array, with a string, an integer and two nulls
abbrev nested : RespValue
nested = array (
    cons (bulk_string (str "a\r\nb"))
      (cons (integer (negsuc 41)) (cons (array (cons null (cons null_array nil))) nil)))

nested-IsSendable : IsSendable nested 128
unfolding str
nested-IsSendable =
    (omega arith, (omega arith, ((omega arith, omega arith), ((omega arith, (tt, (tt, tt))), tt))))

nested-IsSendable_low : IsSendable nested 3
unfolding str
nested-IsSendable_low =
    (omega arith, (omega arith, ((omega arith, omega arith), ((omega arith, (tt, (tt, tt))), tt))))

parse-encode_to_bytes_example :
    parse (encode_to_bytes nested ++ str "+OK\r\n") ≡ (got nested, str "+OK\r\n")
parse-encode_to_bytes_example = parse-encode_to_bytes nested (str "+OK\r\n") nested-IsSendable

parse_ends_example :
    ((parse (str "*2\r\n$3\r\nGET\r\n$")).0 ≢ stuck)
    × (length (parse (str "*2\r\n$3\r\nGET\r\n$")).1 ≤ length (str "*2\r\n$3\r\nGET\r\n$"))
parse_ends_example = parse_ends (str "*2\r\n$3\r\nGET\r\n$")

parse_takes_example : length (parse (str ":42\r\n+OK\r\n")).1 < length (str ":42\r\n+OK\r\n")
unfolding parse parse_fuel str parse_integer parse_line find_crlf from_utf8 parse_i64
parse_takes_example = parse_takes (str ":42\r\n+OK\r\n") (integer (pos 42)) refl
