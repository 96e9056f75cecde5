-- ===== src/Mysql/Packet/Rows/Into.antt =====
-- crates/mysql-protocol/src/packet.rs: the rows that are built into a buffer against those that are
-- built apart.
use Prim.Native.Nat.{bit_or}
use roris_db.Prelude.{
  ◌^◌, ℕ, ◌+◌, ◌-◌, ◌/◌, ◌%◌, ◌≡◌, refl, sym, ap, ◌∙◌, Option, none, some, List, [], ◌∷◌, ◌++◌,
  append-nil, append_assoc, length, set, get_elem?, length-append, get_elem?-append_right,
  set-append_right, ◌==◌, arith, Bool-cases, Option-cases, inl, inr,
}
use roris_db.Bytes.{Bytes}
use roris_db.Mysql.Value.{encode_lenenc_int}
use roris_db.Mysql.Packet.{
  PacketBuilder, packet_of, put_u8, ◌|>◌, write_packet_header, new_packet, put_slice, finish,
  next_seq,
}
use roris_db.Mysql.Packet.Rows.{
  put_text_values, extend_text_values, encode_text_row, encode_text_row_into, fill_header,
  BinaryValue, int8, uint8, int16, uint16, int32, uint32, int64, uint64, float, double, string,
  date, datetime, time, put_binary_value, extend_binary_value, mark_nulls, put_binary_values,
  encode_binary_row, extend_binary_values, encode_binary_row_into, zeros, null_bitmap_size,
}

-- The payload of a row in the text protocol.
text_values : List (Option Bytes) → Bytes
text_values [] = []
text_values (some s ∷ values) = encode_lenenc_int (length s) ++ (s ++ text_values values)
text_values (none ∷ values) = 0xFB ∷ text_values values

put_slice-put_slice :
    (a b : Bytes) (pb : PacketBuilder) → put_slice b (put_slice a pb) ≡ put_slice (a ++ b) pb
put_slice-put_slice a b pb = ap (λ p. record pb { payload = p }) (append_assoc pb.payload a b)

put_slice-nil : (pb : PacketBuilder) → pb ≡ put_slice [] pb
put_slice-nil pb = ap (λ p. record pb { payload = p }) (sym (append-nil pb.payload))

put_text_values_lem :
    (values : List (Option Bytes)) (pb : PacketBuilder)
    → put_text_values values pb ≡ put_slice (text_values values) pb
unfolding put_text_values text_values
put_text_values_lem [] pb = put_slice-nil pb
put_text_values_lem (some s ∷ values) pb =
    let size : Bytes = encode_lenenc_int (length s) in
    put_text_values_lem values (put_slice s (put_slice size pb))
    ∙ put_slice-put_slice s (text_values values) (put_slice size pb)
    ∙ put_slice-put_slice size (s ++ text_values values) pb
put_text_values_lem (none ∷ values) pb =
    put_text_values_lem values (put_slice (0xFB ∷ []) pb)
    ∙ put_slice-put_slice (0xFB ∷ []) (text_values values) pb

extend_text_values_lem :
    (values : List (Option Bytes)) (buf : Bytes)
    → extend_text_values values buf ≡ buf ++ text_values values
unfolding extend_text_values text_values
extend_text_values_lem [] buf = sym (append-nil buf)
extend_text_values_lem (some s ∷ values) buf = simp (extend_text_values_lem values, append_assoc)
extend_text_values_lem (none ∷ values) buf = simp (extend_text_values_lem values, append_assoc)

set-append : (xs ys : Bytes) (v : ℕ) → set (xs ++ ys) (length xs) v ≡ xs ++ set ys 0 v
set-append xs ys v =
    let here : length xs ≡ length xs + 0 = omega arith in
    ap (λ k. set (xs ++ ys) k v) here ∙ set-append_right xs ys 0 v

three_bytes :
    (buf s : Bytes) (seq_id a b c : ℕ)
    → set
        (set (set (buf ++ 0 ∷ 0 ∷ 0 ∷ seq_id ∷ s) (length buf) a) (length buf + 1) b)
        (length buf + 2)
        c
      ≡ buf ++ a ∷ b ∷ c ∷ seq_id ∷ s
three_bytes buf s seq_id a b c =
    ap (λ t. set (set t (length buf + 1) b) (length buf + 2) c)
      (set-append buf (0 ∷ 0 ∷ 0 ∷ seq_id ∷ s) a)
    ∙ ap (λ t. set t (length buf + 2) c) (set-append_right buf (a ∷ 0 ∷ 0 ∷ seq_id ∷ s) 1 b)
    ∙ set-append_right buf (a ∷ b ∷ 0 ∷ seq_id ∷ s) 2 c

fill_header_lem :
    (buf : Bytes) (seq_id : ℕ) (s : Bytes)
    → fill_header (length buf) (buf ++ 0 ∷ 0 ∷ 0 ∷ seq_id ∷ s)
      ≡ buf ++ (write_packet_header (length s) seq_id ++ s)
unfolding fill_header write_packet_header
fill_header_lem buf seq_id s =
    let filled : Bytes = buf ++ 0 ∷ 0 ∷ 0 ∷ seq_id ∷ s in
    let size : length filled - length buf - 4 ≡ length s =
      omega (arith, length-append buf (0 ∷ 0 ∷ 0 ∷ seq_id ∷ s)) in
    let high : length s / 65536 % 256 ≡ length s / 256 / 256 % 256 = omega arith in
    rw (size, high)
      (three_bytes buf s seq_id (length s % 256) (length s / 256 % 256)
        (length s / 256 / 256 % 256))

-- A text row that is built into a buffer is the row that is built apart, behind what the buffer held,
-- and the next sequence id is the successor of the row's, modulo 256.
pub encode_text_row_into_lem :
    (seq_id : ℕ) (values : List (Option Bytes)) (buf : Bytes)
    → encode_text_row_into seq_id values buf
      ≡ (buf ++ encode_text_row seq_id values, next_seq seq_id)
unfolding encode_text_row_into encode_text_row finish
encode_text_row_into_lem seq_id values buf =
    let tail : Bytes = text_values values in
    ap (λ s. (s, next_seq seq_id))
      (ap (fill_header (length buf)) (
          extend_text_values_lem values (buf ++ 0 ∷ 0 ∷ 0 ∷ seq_id ∷ [])
          ∙ append_assoc buf (0 ∷ 0 ∷ 0 ∷ seq_id ∷ []) tail)
        ∙ fill_header_lem buf seq_id tail
        ∙ ap (λ pb. buf ++ (finish pb).0) (sym (put_text_values_lem values (new_packet seq_id))))

-- the bytes of a value in the binary protocol
abbrev value_bytes : BinaryValue → Bytes
value_bytes v = extend_binary_value v []

extend_binary_value_lem :
    (v : BinaryValue) (buf : Bytes) → extend_binary_value v buf ≡ buf ++ value_bytes v
unfolding extend_binary_value
extend_binary_value_lem (int8 n) buf = refl
extend_binary_value_lem (uint8 n) buf = refl
extend_binary_value_lem (int16 n) buf = refl
extend_binary_value_lem (uint16 n) buf = refl
extend_binary_value_lem (int32 n) buf = refl
extend_binary_value_lem (uint32 n) buf = refl
extend_binary_value_lem (int64 n) buf = refl
extend_binary_value_lem (uint64 n) buf = refl
extend_binary_value_lem (float n) buf = refl
extend_binary_value_lem (double n) buf = refl
extend_binary_value_lem (string s) buf = append_assoc buf (encode_lenenc_int (length s)) s
extend_binary_value_lem (date y m d) buf = refl
extend_binary_value_lem (datetime y m d h min sec micros) buf = elim (Bool-cases (micros == 0)) [
  | inl e ↦ rw e (simp append_assoc)
  | inr e ↦ rw e (simp append_assoc)
]
extend_binary_value_lem (time neg d h min sec micros) buf = elim (Bool-cases (micros == 0)) [
  | inl e ↦ rw e (simp append_assoc)
  | inr e ↦ rw e (simp append_assoc)
]

put_binary_value_lem :
    (v : BinaryValue) (pb : PacketBuilder) → put_binary_value v pb ≡ put_slice (value_bytes v) pb
unfolding put_binary_value extend_binary_value
put_binary_value_lem (int8 n) pb = refl
put_binary_value_lem (uint8 n) pb = refl
put_binary_value_lem (int16 n) pb = refl
put_binary_value_lem (uint16 n) pb = refl
put_binary_value_lem (int32 n) pb = refl
put_binary_value_lem (uint32 n) pb = refl
put_binary_value_lem (int64 n) pb = refl
put_binary_value_lem (uint64 n) pb = refl
put_binary_value_lem (float n) pb = refl
put_binary_value_lem (double n) pb = refl
put_binary_value_lem (string s) pb = put_slice-put_slice (encode_lenenc_int (length s)) s pb
put_binary_value_lem (date y m d) pb = ap (λ p. record pb { payload = p }) (simp append_assoc)
put_binary_value_lem (datetime y m d h min sec micros) pb = elim (Bool-cases (micros == 0)) [
  | inl e ↦ rw e (ap (λ p. record pb { payload = p }) (simp append_assoc))
  | inr e ↦ rw e (ap (λ p. record pb { payload = p }) (simp append_assoc))
]
put_binary_value_lem (time neg d h min sec micros) pb = elim (Bool-cases (micros == 0)) [
  | inl e ↦ rw e (ap (λ p. record pb { payload = p }) (simp append_assoc))
  | inr e ↦ rw e (ap (λ p. record pb { payload = p }) (simp append_assoc))
]

binary_values : List (Option BinaryValue) → Bytes
binary_values [] = []
binary_values (some v ∷ values) = value_bytes v ++ binary_values values
binary_values (none ∷ values) = binary_values values

put_binary_values_lem :
    (values : List (Option BinaryValue)) (pb : PacketBuilder)
    → put_binary_values values pb ≡ put_slice (binary_values values) pb
unfolding put_binary_values binary_values
put_binary_values_lem [] pb = put_slice-nil pb
put_binary_values_lem (some v ∷ values) pb =
    put_binary_values_lem values (put_binary_value v pb)
    ∙ ap (put_slice (binary_values values)) (put_binary_value_lem v pb)
    ∙ put_slice-put_slice (value_bytes v) (binary_values values) pb
put_binary_values_lem (none ∷ values) pb = put_binary_values_lem values pb

extend_binary_values_lem :
    (values : List (Option BinaryValue)) (buf : Bytes)
    → extend_binary_values values buf ≡ buf ++ binary_values values
unfolding extend_binary_values binary_values
extend_binary_values_lem [] buf = sym (append-nil buf)
extend_binary_values_lem (some v ∷ values) buf =
    extend_binary_values_lem values (extend_binary_value v buf)
    ∙ ap (λ s. s ++ binary_values values) (extend_binary_value_lem v buf)
    ∙ append_assoc buf (value_bytes v) (binary_values values)
extend_binary_values_lem (none ∷ values) buf = extend_binary_values_lem values buf

-- behind a prefix, if at all
abbrev pub behind : Bytes → Option Bytes → Option Bytes
behind pre none = none
behind pre (some s) = some (pre ++ s)

-- The bitmap behind a prefix is marked as the bitmap alone is.
mark_nulls-append :
    (pre : Bytes) (values : List (Option BinaryValue)) (i : ℕ) (bm : Bytes)
    → mark_nulls (length pre) values i (pre ++ bm) ≡ behind pre (mark_nulls 0 values i bm)
unfolding mark_nulls
mark_nulls-append pre [] i bm = refl
mark_nulls-append pre (some v ∷ values) i bm = mark_nulls-append pre values (i + 1) bm
mark_nulls-append pre (none ∷ values) i bm =
    let k : ℕ = (i + 2) / 8 in
    let here : k ≡ 0 + k = omega arith in
    rw (get_elem?-append_right pre bm k, sym here, mark_nulls)
      (elim (Option-cases (get_elem? bm k)) [
        | inl e ↦ rw e refl
        | inr (w, e) ↦
            rw (e, set-append_right pre bm k (bit_or w (2 ^ ((i + 2) % 8))), sym here)
              (mark_nulls-append pre values (i + 1) (set bm k (bit_or w (2 ^ ((i + 2) % 8)))))
      ])

-- the row with its bitmap marked
row_packet :
    (seq_id : ℕ) (values : List (Option BinaryValue)) (buf marked : Bytes)
    → fill_header
        (length buf)
        (extend_binary_values values ((buf ++ 0 ∷ 0 ∷ 0 ∷ seq_id ∷ 0x00 ∷ []) ++ marked))
      ≡ buf
        ++ packet_of
            (new_packet seq_id |> put_u8 0x00 |> put_slice marked |> put_binary_values values)
unfolding finish
row_packet seq_id values buf marked =
    let tail : Bytes = 0x00 ∷ (marked ++ binary_values values) in
    ap (fill_header (length buf)) (
      extend_binary_values_lem values ((buf ++ 0 ∷ 0 ∷ 0 ∷ seq_id ∷ 0x00 ∷ []) ++ marked)
      ∙ simp append_assoc)
    ∙ fill_header_lem buf seq_id tail
    ∙ ap (λ pb. buf ++ packet_of pb)
        (sym (put_binary_values_lem values (new_packet seq_id |> put_u8 0x00 |> put_slice marked)))

abbrev pub with_next : ℕ → Bytes → Option Bytes → Option (Bytes × ℕ)
with_next seq_id buf none = none
with_next seq_id buf (some packet) = some (buf ++ packet, next_seq seq_id)

-- A binary row that is built into a buffer is the row that is built apart, behind what the buffer held,
-- and the next sequence id is the successor of the row's, modulo 256; the one runs out of the bitmap's
-- bounds exactly when the other does.
pub encode_binary_row_into_lem :
    (seq_id : ℕ) (values : List (Option BinaryValue)) (num_columns : ℕ) (buf : Bytes)
    → encode_binary_row_into seq_id values num_columns buf
      ≡ with_next seq_id buf (encode_binary_row seq_id values num_columns)
unfolding encode_binary_row_into encode_binary_row finish
encode_binary_row_into_lem seq_id values num_columns buf =
    let start : Bytes = buf ++ 0 ∷ 0 ∷ 0 ∷ seq_id ∷ 0x00 ∷ [] in
    let bm : Bytes = zeros (null_bitmap_size num_columns) in
    rw (mark_nulls-append start values 0 bm, encode_binary_row_into, encode_binary_row)
      (elim (Option-cases (mark_nulls 0 values 0 bm)) [
        | inl e ↦ rw (e, encode_binary_row) refl
        | inr (marked, e) ↦
            rw (e, encode_binary_row)
              (ap (λ s. some (s, next_seq seq_id)) (row_packet seq_id values buf marked))
      ])
