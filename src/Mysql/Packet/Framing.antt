-- ===== src/Mysql/Packet/Framing.antt =====
-- crates/mysql-protocol/src/packet.rs and connection.rs: packets, their headers, and the packets
-- that a connection takes from its buffer.
use roris_db.Prelude.{
  ℕ, suc, ◌+◌, ◌-◌, ◌/◌, ◌%◌, ◌^◌, ◌<◌, ◌≤◌, ◌≡◌, refl, ap, ◌∙◌, Option, none, some, ◌∷◌, ◌++◌,
  length, take, drop, take-length-append, drop-length-append, length-append, leb, if◌then◌else◌,
  arith,
}
use roris_db.Bytes.{Bytes, slice}
use roris_db.Bytes.Endian.{from_le-le_bytes}
use roris_db.Mysql.Packet.{PacketBuilder, write_packet_header, read_packet_header, finish, next_seq}

-- What `read_packet` does with the bytes in the buffer: the payload, the sequence id for the answer,
-- and the bytes left; `none` when it has to wait for more.
unfoldable pub read_packet : Bytes → Option (Bytes × ℕ × Bytes)
read_packet buf = elim (read_packet_header buf) [
  | none ↦ none
  | some (payload_len, seq_id) ↦
      if leb (4 + payload_len) (length buf)
      then some (slice 4 (4 + payload_len) buf, next_seq seq_id, drop (4 + payload_len) buf)
      else none
]

read_packet_header-write :
    (len seq_id : ℕ) (rest : Bytes)
    → len < 2 ^ 24
    → read_packet_header (write_packet_header len seq_id ++ rest) ≡ some (len, seq_id)
unfolding read_packet_header write_packet_header
read_packet_header-write len seq_id rest h = ap (λ n. some (n, seq_id)) (from_le-le_bytes 3 len h)

read_packet_there :
    (buf : Bytes) (len seq_id : ℕ)
    → read_packet_header buf ≡ some (len, seq_id)
    → 4 + len ≤ length buf
    → read_packet buf ≡ some (slice 4 (4 + len) buf, next_seq seq_id, drop (4 + len) buf)
unfolding read_packet
read_packet_there buf len seq_id e h = ground arith

same_ends :
    {p p' r r' : Bytes} (q : ℕ)
    → p ≡ p'
    → r ≡ r'
    → ◌≡◌ {A = Option (Bytes × ℕ × Bytes)} (some (p, q, r)) (some (p', q, r'))
same_ends q e e' = cc

behind_header :
    (a b c d : ℕ) (s : Bytes) (len : ℕ) → drop (4 + len) (a ∷ b ∷ c ∷ d ∷ s) ≡ drop len s
behind_header a b c d s len =
    let shift : 4 + len ≡ suc (suc (suc (suc len))) = omega arith in rw shift refl

in_packet : (a b c d : ℕ) (s : Bytes) (len : ℕ) → slice 4 (4 + len) (a ∷ b ∷ c ∷ d ∷ s) ≡ take len s
in_packet a b c d s len = let shift : 4 + len - 4 ≡ len = omega arith in rw shift refl

-- A packet that the builder finishes, of a payload below 16 MiB, is taken from the front of the buffer
-- as it was built, with the sequence id of its answer, and the bytes behind it are left.
pub read_packet-finish :
    (pb : PacketBuilder) (rest : Bytes)
    → length pb.payload < 2 ^ 24
    → read_packet ((finish pb).0 ++ rest) ≡ some (pb.payload, (finish pb).1, rest)
unfolding finish write_packet_header
read_packet-finish pb rest h =
    let n : ℕ = length pb.payload in
    let s : Bytes = pb.payload ++ rest in
    let a = n % 256 in
    let b = n / 256 % 256 in
    let c = n / 256 / 256 % 256 in
    read_packet_there (write_packet_header n pb.seq_id ++ s) n pb.seq_id
      (read_packet_header-write n pb.seq_id s h) (omega (arith, length-append pb.payload rest))
    ∙ same_ends (next_seq pb.seq_id)
        (in_packet a b c pb.seq_id s n ∙ take-length-append pb.payload rest)
        (behind_header a b c pb.seq_id s n ∙ drop-length-append pb.payload rest)
