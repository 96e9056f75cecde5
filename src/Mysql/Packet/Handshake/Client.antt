-- ===== src/Mysql/Packet/Handshake/Client.antt =====
-- crates/mysql-protocol/src/packet.rs: the answers that a client writes, up to the authentication data.
use roris_db.Prelude.{
  ℕ, ◌+◌, ◌-◌, ◌≡◌, refl, sym, ap, ◌∙◌, true, false, ◌&&◌, some, [], ◌∷◌, ◌++◌, append_assoc, All,
  length, length-append, drop, drop-length-append, take-length-append, ltb, leb, ◌==◌, arith,
}
use roris_db.Bytes.{Bytes}
use roris_db.Bytes.Endian.{le_bytes}
use roris_db.Mysql.Packet.Rows.{zeros}
use roris_db.Mysql.Packet.Handshake.{null_position, until_null, range, parse_auth, parse_handshake}

abbrev pub HasNoNull : Bytes → Type 0
HasNoNull s = All (λ b. (b == 0) ≡ false) s

-- the 32 bytes before the user's name
abbrev pub fixed_part : ℕ → ℕ → ℕ → Bytes
fixed_part flags max_packet_size charset =
    le_bytes 4 flags ++ (le_bytes 4 max_packet_size ++ charset ∷ zeros 23)

-- the payload, with the user's name and what follows its null
abbrev pub client_answer : ℕ → ℕ → ℕ → Bytes → Bytes → Bytes
client_answer flags max_packet_size charset username rest =
    fixed_part flags max_packet_size charset ++ (username ++ 0 ∷ rest)

pub null_position-append :
    (s rest : Bytes) → HasNoNull s → null_position (s ++ 0 ∷ rest) ≡ some (length s)
unfolding null_position
null_position-append [] rest h = refl
null_position-append (b ∷ s) rest (here, h) = rw (here, null_position-append s rest h) refl

pub until_null-append : (s rest : Bytes) → HasNoNull s → until_null (s ++ 0 ∷ rest) ≡ s
unfolding until_null
until_null-append s rest h =
    rw (null_position-append s rest h, until_null) (take-length-append s (0 ∷ rest))

pub drop_behind : (pre rest : Bytes) (n : ℕ) → n ≡ length pre → drop n (pre ++ rest) ≡ rest
drop_behind pre rest n e = ap (λ k. drop k (pre ++ rest)) e ∙ drop-length-append pre rest

pub range_behind :
    (pre s rest : Bytes) (n : ℕ)
    → n ≡ length pre
    → range n (n + length s) (pre ++ (s ++ rest)) ≡ some s
unfolding range
range_behind pre s rest n e =
    let inside : (leb n (n + length s) && leb (n + length s) (length (pre ++ (s ++ rest)))) ≡ true =
      ground (arith, length-append pre (s ++ rest), length-append s rest) in
    let size : n + length s - n ≡ length s = omega arith in
    rw (inside, drop_behind pre (s ++ rest) n e, size) (ap some (take-length-append s rest))

-- the name, its null, and what stands before them
abbrev pub named : ℕ → ℕ → ℕ → Bytes → Bytes
named flags max_packet_size charset username =
    fixed_part flags max_packet_size charset ++ (username ++ 0 ∷ [])

module _ (flags max_packet_size charset : ℕ) (username rest : Bytes) where
  pub client_answer-named :
      client_answer flags max_packet_size charset username rest
      ≡ named flags max_packet_size charset username ++ rest
  client_answer-named =
      ap (λ s. fixed_part flags max_packet_size charset ++ s)
        (sym (append_assoc username (0 ∷ []) rest))

  pub length-named :
      length username + 32 + 1 ≡ length (named flags max_packet_size charset username)
  length-named = omega (arith, length-append username (0 ∷ []))

  pub parse_handshake-named :
      (from_utf8_lossy : Bytes → Bytes)
      → HasNoNull username
      → parse_handshake from_utf8_lossy (client_answer flags max_packet_size charset username rest)
        ≡ parse_auth from_utf8_lossy
            (client_answer flags max_packet_size charset username rest)
            (from_utf8_lossy username)
            (length username + 32 + 1)
  unfolding parse_handshake
  parse_handshake-named from_utf8_lossy no_null =
      let payload : Bytes = client_answer flags max_packet_size charset username rest in
      let long : ltb (length payload) 33 ≡ false =
        ground (arith, length-append username (0 ∷ rest)) in
      rw (long, null_position-append username rest no_null)
        (ap
          (λ name.
            parse_auth from_utf8_lossy payload (from_utf8_lossy name) (length username + 32 + 1))
          (take-length-append username (0 ∷ rest)))
