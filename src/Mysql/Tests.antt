-- ===== src/Mysql/Tests.antt =====
-- The theorems about the MySQL protocol at concrete inputs.
use roris_db.Prelude.{ℕ, refl, ◌≡◌, ◌++◌, none, inr, some, List, [], ◌∷◌, Option, length, arith}
use roris_db.Bytes.{Bytes, str}
use roris_db.Mysql.Value.{encode_lenenc_int}
use roris_db.Mysql.Packet.{PacketBuilder, read_lenenc_int, finish, next_seq}
use roris_db.Mysql.Packet.Lenenc.{read_lenenc_int-encode_lenenc_int}
use roris_db.Mysql.Packet.Framing.{read_packet, read_packet-finish}
use roris_db.Mysql.Packet.Handshake.{accepted, panicked, parse_handshake}
use roris_db.Mysql.Packet.Handshake.Client.{client_answer}
use roris_db.Mysql.Packet.Handshake.Accepted.{
  answer_tail, parse_handshake-client_answer, parse_handshake-short,
}
use roris_db.Mysql.Packet.Rows.{
  BinaryValue, int32, string, datetime, encode_text_row, encode_text_row_into, encode_binary_row,
  encode_binary_row_into,
}
use roris_db.Mysql.Packet.Rows.Into.{
  encode_text_row_into_lem, with_next, encode_binary_row_into_lem,
}

abbrev query : PacketBuilder
query = record { seq_id = 255; payload = 3 ∷ str "SELECT 1" }

abbrev text_row : List (Option Bytes)
text_row = some (str "ann") ∷ none ∷ some (str "42") ∷ []

abbrev binary_row : List (Option BinaryValue)
binary_row =
    some (int32 7) ∷ none ∷ some (datetime 2024 2 29 12 30 0 500) ∷ some (string (str "x")) ∷ []

read_lenenc_int-encode_lenenc_int_example :
    read_lenenc_int (encode_lenenc_int 70000 ++ str "tail")
    ≡ inr (70000, length (encode_lenenc_int 70000))
read_lenenc_int-encode_lenenc_int_example =
    read_lenenc_int-encode_lenenc_int 70000 (str "tail") (omega arith)

read_packet-finish_example :
    read_packet ((finish query).0 ++ str "next")
    ≡ some (query.payload, (finish query).1, str "next")
unfolding str
read_packet-finish_example = read_packet-finish query (str "next") (omega arith)

encode_text_row_into_lem_example :
    encode_text_row_into 255 text_row (str "sent")
    ≡ (str "sent" ++ encode_text_row 255 text_row, next_seq 255)
encode_text_row_into_lem_example = encode_text_row_into_lem 255 text_row (str "sent")

encode_binary_row_into_lem_example :
    encode_binary_row_into 4 binary_row 4 (str "sent")
    ≡ with_next 4 (str "sent") (encode_binary_row 4 binary_row 4)
encode_binary_row_into_lem_example = encode_binary_row_into_lem 4 binary_row 4 (str "sent")

-- length-encoded data, a database and a plugin
abbrev client_flags : ℕ
client_flags = 0x280008

parse_handshake-client_answer_example :
    parse_handshake
      (λ s. s)
      (client_answer client_flags 65536 45
        (str "root")
        (answer_tail (7 ∷ 0 ∷ 9 ∷ []) (str "db") (str "native")))
    ≡ accepted (record {
      capability_flags = client_flags;
      max_packet_size = 65536;
      charset = 45;
      username = str "root";
      auth_response = 7 ∷ 0 ∷ 9 ∷ [];
      database = some (str "db");
      auth_plugin_name = some (str "native");
    })
unfolding str
parse_handshake-client_answer_example =
    parse_handshake-client_answer (λ s. s) client_flags 65536 45 (str "root") (7 ∷ 0 ∷ 9 ∷ [])
      (str "db") (str "native") (omega arith) (omega arith) refl refl refl (omega arith)
      (
        (refl, (refl, (refl, (refl, tt)))),
        (refl, (refl, tt)),
        (refl, (refl, (refl, (refl, (refl, (refl, tt)))))),
      )
      (refl, refl, refl)

parse_handshake-short_example :
    parse_handshake
      (λ s. s)
      (client_answer client_flags 65536 45 (str "root") (encode_lenenc_int 200 ++ 7 ∷ []))
    ≡ panicked
unfolding str
parse_handshake-short_example =
    parse_handshake-short (λ s. s) client_flags 65536 45 (str "root") (7 ∷ []) 200 (omega arith)
      refl (refl, (refl, (refl, (refl, tt)))) (omega arith) (omega arith)
