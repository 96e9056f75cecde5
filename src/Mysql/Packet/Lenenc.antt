-- ===== src/Mysql/Packet/Lenenc.antt =====
-- crates/mysql-protocol/src/packet.rs: `read_lenenc_int` on what `encode_lenenc_int` writes.
use roris_db.Prelude.{
  ℕ, zero, suc, ◌/◌, ◌%◌, ◌^◌, ◌<◌, ◌≤◌, ◌≡◌, refl, ap, ◌∙◌, ◌∷◌, ◌++◌, length, take, length-append,
  ltb, inl, inr, arith, Bool-cases,
}
use roris_db.Bytes.{Bytes}
use roris_db.Bytes.Endian.{le_bytes, from_le, byte_bound, from_le-le_bytes, length-le_bytes}
use roris_db.Mysql.Value.{encode_lenenc_int}
use roris_db.Mysql.Packet.{read_lenenc_int, lenenc_tail}

take-le_bytes : (k n : ℕ) (rest : Bytes) → take k (le_bytes k n ++ rest) ≡ le_bytes k n
take-le_bytes zero n rest = refl
take-le_bytes (suc k) n rest = ap (λ s. (n % 256) ∷ s) (take-le_bytes k (n / 256) rest)

lenenc_tail_enough :
    (prefix k v : ℕ) (s : Bytes)
    → k ≤ length s
    → from_le (take k s) ≡ v
    → lenenc_tail prefix k s ≡ inr (v, suc k)
lenenc_tail_enough prefix k v s h e = ground arith

lenenc_tail-le_bytes :
    (prefix k n : ℕ) (rest : Bytes)
    → n < byte_bound k
    → lenenc_tail prefix k (le_bytes k n ++ rest) ≡ inr (n, suc k)
lenenc_tail-le_bytes prefix k n rest h =
    lenenc_tail_enough prefix k n (le_bytes k n ++ rest)
      (omega (arith, length-append (le_bytes k n) rest, length-le_bytes k n))
      (ap from_le (take-le_bytes k n rest) ∙ from_le-le_bytes k n h)

-- A length-encoded integer below 2^64 is read back, with the number of bytes that it takes, whatever
-- follows it.
pub read_lenenc_int-encode_lenenc_int :
    (n : ℕ) (rest : Bytes)
    → n < 2 ^ 64
    → read_lenenc_int (encode_lenenc_int n ++ rest) ≡ inr (n, length (encode_lenenc_int n))
unfolding encode_lenenc_int read_lenenc_int
read_lenenc_int-encode_lenenc_int n rest h = elim (Bool-cases (ltb n 251)) [
  | inl small ↦ rw small (ground arith)
  | inr e1 ↦ elim (Bool-cases (ltb n 65536)) [
    | inl small ↦ rw (e1, small) (lenenc_tail-le_bytes 0xFC 2 n rest (ground arith))
    | inr e2 ↦ elim (Bool-cases (ltb n 16777216)) [
      | inl small ↦ rw (e1, e2, small) (lenenc_tail-le_bytes 0xFD 3 n rest (ground arith))
      | inr e3 ↦ rw (e1, e2, e3) (lenenc_tail-le_bytes 0xFE 8 n rest h)
    ]
  ]
]
