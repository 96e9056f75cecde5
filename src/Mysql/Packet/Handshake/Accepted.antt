-- ===== src/Mysql/Packet/Handshake/Accepted.antt =====
-- crates/mysql-protocol/src/packet.rs: a client's answer with length-encoded authentication data.
use roris_db.Prelude.{
  ℕ, ◌+◌, ◌<◌, ◌^◌, ◌≡◌, refl, sym, ap, ◌∙◌, true, false, ◌&&◌, none, some, [], ◌∷◌, ◌++◌,
  append_assoc, inr, length, length-append, take, drop, ltb, leb, arith,
}
use roris_db.Bytes.{Bytes}
use roris_db.Bytes.Endian.{from_le, from_le-le_bytes}
use roris_db.Mysql.Value.{encode_lenenc_int}
use roris_db.Mysql.Packet.{has_flag, connect_with_db, plugin_auth, plugin_auth_lenenc_client_data}
use roris_db.Mysql.Packet.Lenenc.{read_lenenc_int-encode_lenenc_int}
use roris_db.Mysql.Packet.Handshake.{
  accepted, panicked, range, until_null, auth_slice, auth_data, text_at, parse_auth,
  parse_handshake,
}
use roris_db.Mysql.Packet.Handshake.Client.{
  HasNoNull, client_answer, named, client_answer-named, length-named, until_null-append,
  drop_behind, range_behind, parse_handshake-named,
}

text_at_behind :
    (from_utf8_lossy : Bytes → Bytes) (flag flags : ℕ) (payload pre s rest : Bytes) (n : ℕ)
    → has_flag flag flags ≡ true
    → payload ≡ pre ++ (s ++ 0 ∷ rest)
    → n ≡ length pre
    → HasNoNull s
    → from_utf8_lossy s ≡ s
    → text_at from_utf8_lossy flag flags payload n ≡ some s
unfolding text_at
text_at_behind from_utf8_lossy flag flags payload pre s rest n flagged shape e no_null is_text =
    let inside : ltb n (length payload) ≡ true =
      ground
        (arith, ap length shape, length-append pre (s ++ 0 ∷ rest), length-append s (0 ∷ rest)) in
    rw (flagged, inside)
      (ap (λ p. some (from_utf8_lossy (until_null (drop n p)))) shape
        ∙ ap (λ t. some (from_utf8_lossy (until_null t))) (drop_behind pre (s ++ 0 ∷ rest) n e)
        ∙ ap (λ t. some (from_utf8_lossy t)) (until_null-append s rest no_null)
        ∙ ap some is_text)

-- the data behind its length, whatever follows
auth_data-lenenc :
    (flags : ℕ) (payload pre auth rest : Bytes) (n : ℕ)
    → has_flag plugin_auth_lenenc_client_data flags ≡ true
    → payload ≡ pre ++ (encode_lenenc_int (length auth) ++ (auth ++ rest))
    → n ≡ length pre
    → length auth < 2 ^ 64
    → auth_data flags payload n
      ≡ inr (some (auth, length (encode_lenenc_int (length auth)) + length auth))
unfolding auth_data
auth_data-lenenc flags payload pre auth rest n flagged shape e small =
    let size : Bytes = encode_lenenc_int (length auth) in
    let behind : drop n payload ≡ size ++ (auth ++ rest) =
      ap (drop n) shape ∙ drop_behind pre (size ++ (auth ++ rest)) n e in
    let shape2 : payload ≡ (pre ++ size) ++ (auth ++ rest) =
      shape ∙ sym (append_assoc pre size (auth ++ rest)) in
    let sliced : range (n + length size) (n + length size + length auth) payload ≡ some auth =
      ap (range (n + length size) (n + length size + length auth)) shape2
      ∙ range_behind (pre ++ size) auth rest (n + length size)
          (omega (arith, length-append pre size)) in
    rw
      (
        flagged,
        behind,
        read_lenenc_int-encode_lenenc_int (length auth) (auth ++ rest) small,
        auth_slice,
        sliced,
      )
      refl

-- Data that is announced longer than what is left is read out of bounds.
auth_data_short :
    (flags : ℕ) (payload pre auth : Bytes) (len n : ℕ)
    → has_flag plugin_auth_lenenc_client_data flags ≡ true
    → payload ≡ pre ++ (encode_lenenc_int len ++ auth)
    → n ≡ length pre
    → len < 2 ^ 64
    → length auth < len
    → auth_data flags payload n ≡ inr none
unfolding auth_data range
auth_data_short flags payload pre auth len n flagged shape e small short =
    let size : Bytes = encode_lenenc_int len in
    let behind : drop n payload ≡ size ++ auth =
      ap (drop n) shape ∙ drop_behind pre (size ++ auth) n e in
    let outside : (leb (n + length size) (n + length size + len)
          && leb (n + length size + len) (length payload))
        ≡ false =
      ground (arith, ap length shape, length-append pre (size ++ auth), length-append size auth) in
    rw (flagged, behind, read_lenenc_int-encode_lenenc_int len auth small, auth_slice, outside) refl

-- The fields, once each has been read.
parse_auth-accepted :
    (from_utf8_lossy : Bytes → Bytes) (payload username auth db plugin : Bytes)
    (flags max_packet_size charset at total : ℕ)
    → from_le (take 4 payload) ≡ flags
    → from_le (take 4 (drop 4 payload)) ≡ max_packet_size
    → from_le (take 1 (drop 8 payload)) ≡ charset
    → auth_data flags payload at ≡ inr (some (auth, total))
    → text_at from_utf8_lossy connect_with_db flags payload (at + total) ≡ some db
    → text_at from_utf8_lossy plugin_auth flags payload (at + total + length db + 1) ≡ some plugin
    → parse_auth from_utf8_lossy payload username at
      ≡ accepted (record {
        capability_flags = flags;
        max_packet_size = max_packet_size;
        charset = charset;
        username = username;
        auth_response = auth;
        database = some db;
        auth_plugin_name = some plugin;
      })
unfolding parse_auth
parse_auth-accepted lossy payload username auth db plugin flags max_packet_size charset at total e1
      e2 e3 e4 e5 e6 =
    rw (e1, parse_auth, e4, e1, e5, e6, e2, e3) refl

-- what a client writes behind its name: the data, the database and the plugin
abbrev pub answer_tail : Bytes → Bytes → Bytes → Bytes
answer_tail auth db plugin =
    encode_lenenc_int (length auth) ++ (auth ++ (db ++ 0 ∷ (plugin ++ 0 ∷ [])))

-- A client announces length-encoded data, a database and a plugin, writes them behind its name, each
-- text without a null and in UTF-8, and every number within its width: the answer is accepted with what
-- the client wrote.
pub parse_handshake-client_answer :
    (from_utf8_lossy : Bytes → Bytes) (flags max_packet_size charset : ℕ)
    (username auth db plugin : Bytes)
    → flags < 2 ^ 32
    → max_packet_size < 2 ^ 32
    → has_flag plugin_auth_lenenc_client_data flags ≡ true
    → has_flag connect_with_db flags ≡ true
    → has_flag plugin_auth flags ≡ true
    → length auth < 2 ^ 64
    → HasNoNull username × HasNoNull db × HasNoNull plugin
    → (from_utf8_lossy username ≡ username)
      × (from_utf8_lossy db ≡ db)
      × (from_utf8_lossy plugin ≡ plugin)
    → parse_handshake from_utf8_lossy
        (client_answer flags max_packet_size charset username (answer_tail auth db plugin))
      ≡ accepted (record {
        capability_flags = flags;
        max_packet_size = max_packet_size;
        charset = charset;
        username = username;
        auth_response = auth;
        database = some db;
        auth_plugin_name = some plugin;
      })
parse_handshake-client_answer lossy flags max_packet_size charset username auth db plugin fl mx h1
      h2 h3 small (n1, n2, n3) (t1, t2, t3) =
    let rest : Bytes = answer_tail auth db plugin in
    let size : Bytes = encode_lenenc_int (length auth) in
    let pre : Bytes = named flags max_packet_size charset username in
    let payload : Bytes = client_answer flags max_packet_size charset username rest in
    let at : ℕ = length username + 32 + 1 in
    let start : at ≡ length pre = length-named flags max_packet_size charset username rest in
    let whole : payload ≡ pre ++ rest =
      client_answer-named flags max_packet_size charset username rest in
    let flags_read : from_le (take 4 payload) ≡ flags = from_le-le_bytes 4 flags fl in
    let size_read : from_le (take 4 (drop 4 payload)) ≡ max_packet_size =
      from_le-le_bytes 4 max_packet_size mx in
    let charset_read : from_le (take 1 (drop 8 payload)) ≡ charset = omega arith in
    let auth_read : auth_data flags payload at ≡ inr (some (auth, length size + length auth)) =
      auth_data-lenenc flags payload pre auth (db ++ 0 ∷ (plugin ++ 0 ∷ [])) at h1 whole start
        small in
    let db_pre : Bytes = pre ++ (size ++ auth) in
    let db_read : text_at lossy connect_with_db flags payload (at + (length size + length auth))
        ≡ some db =
      text_at_behind lossy connect_with_db flags payload db_pre db (plugin ++ 0 ∷ [])
        (at + (length size + length auth)) h2 (whole ∙ simp append_assoc)
        (omega (arith, start, length-append pre (size ++ auth), length-append size auth)) n2 t2 in
    let plugin_pre : Bytes = pre ++ (size ++ (auth ++ (db ++ 0 ∷ []))) in
    let plugin_at : ℕ = at + (length size + length auth) + length db + 1 in
    let plugin_read : text_at lossy plugin_auth flags payload plugin_at ≡ some plugin =
      text_at_behind lossy plugin_auth flags payload plugin_pre plugin [] plugin_at h3
        (whole ∙ simp append_assoc)
        (omega (
          arith,
          start,
          length-append pre (size ++ (auth ++ (db ++ 0 ∷ []))),
          length-append size (auth ++ (db ++ 0 ∷ [])),
          length-append auth (db ++ 0 ∷ []),
          length-append db (0 ∷ []),
        ))
        n3 t3 in
    parse_handshake-named flags max_packet_size charset username rest lossy n1
    ∙ ap (λ name. parse_auth lossy payload name at) t1
    ∙ parse_auth-accepted lossy payload username auth db plugin flags max_packet_size charset at
        (length size + length auth) flags_read size_read charset_read auth_read db_read plugin_read

parse_auth-panicked :
    (from_utf8_lossy : Bytes → Bytes) (payload username : Bytes) (flags at : ℕ)
    → from_le (take 4 payload) ≡ flags
    → auth_data flags payload at ≡ inr none
    → parse_auth from_utf8_lossy payload username at ≡ panicked
unfolding parse_auth
parse_auth-panicked lossy payload username flags at e1 e2 = rw (e1, parse_auth, e2) refl

-- A client that announces more authentication data than it sends, with a length below 2^64, brings
-- the parser to a panic.
pub parse_handshake-short :
    (from_utf8_lossy : Bytes → Bytes) (flags max_packet_size charset : ℕ) (username auth : Bytes)
    (len : ℕ)
    → flags < 2 ^ 32
    → has_flag plugin_auth_lenenc_client_data flags ≡ true
    → HasNoNull username
    → len < 2 ^ 64
    → length auth < len
    → parse_handshake from_utf8_lossy
        (client_answer flags max_packet_size charset username (encode_lenenc_int len ++ auth))
      ≡ panicked
parse_handshake-short lossy flags max_packet_size charset username auth len fl h1 n1 small short =
    let rest : Bytes = encode_lenenc_int len ++ auth in
    let payload : Bytes = client_answer flags max_packet_size charset username rest in
    let at : ℕ = length username + 32 + 1 in
    parse_handshake-named flags max_packet_size charset username rest lossy n1
    ∙ parse_auth-panicked lossy payload (lossy username) flags at (from_le-le_bytes 4 flags fl) (
        auth_data_short flags payload (named flags max_packet_size charset username) auth len at h1
          (client_answer-named flags max_packet_size charset username rest)
          (length-named flags max_packet_size charset username rest) small short)
