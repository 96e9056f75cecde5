-- ===== src/Maxcompute/Tunnel/Varint.antt =====
-- crates/maxcompute-protocol/src/tunnel/io.rs: varints and ZigZag integers.
use Prim.Native.Nat.{bit_or}
use native.Mathlib.Nat.{pow-succ', pow-le-pow_right, mul-le-mul_right, add-mul, mul_assoc}
use roris_db.Prelude.{
  ℕ, zero, suc, ◌+◌, ◌*◌, ◌/◌, ◌%◌, ◌^◌, ◌<◌, ◌≤◌, ◌≡◌, refl, ap, ◌∙◌, true, false, [], ◌∷◌, ◌++◌,
  ◌⊎◌, inl, inr, length, ltb, leb, ◌==◌, if◌then◌else◌, ℤ, pos, negsuc, IsI64, arith, Bool-cases,
}
use roris_db.Bytes.{Bytes}
use roris_db.Bytes.Bits.{bit_or-shifted}

pub data IoError : Type 0 where
  truncated_varint varint_too_long truncated unknown_wire_type : IoError

-- The loop of `encode_varint`; each round divides the value by 2^7.
unfoldable pub encode_loop : ℕ → ℕ → Bytes
encode_loop zero v = v ∷ []
encode_loop (suc fuel) v =
    let rest = encode_loop fuel (v / 128) in if ltb 127 v then (v % 128 + 128) ∷ rest else v ∷ []

-- What `encode_varint` puts behind its buffer. Nine rounds and the last byte are enough for 64 bits.
unfoldable pub encode_varint : ℕ → Bytes
unfolding encode_loop
encode_varint val = encode_loop 9 val

-- The loop of `decode_varint`: the value, and how many bytes it takes.
unfoldable pub decode_loop : ℕ → ℕ → ℕ → Bytes → IoError ⊎ (ℕ × ℕ)
decode_loop shift result at [] = inl truncated_varint
decode_loop shift result at (byte ∷ bytes) =
    let result' : ℕ = bit_or result (byte % 128 * 2 ^ shift % 2 ^ 64) in
    let rest = decode_loop (shift + 7) result' (at + 1) bytes in
    if ltb byte 128
    then inr (result', at + 1)
    else if leb 64 (shift + 7)
    then inl varint_too_long
    else rest

unfoldable pub decode_varint : Bytes → IoError ⊎ (ℕ × ℕ)
unfolding decode_loop
decode_varint bytes = decode_loop 0 0 0 bytes

-- `((v << 1) ^ (v >> 63)) as u64`: twice the number, with all bits flipped where it is negative
abbrev pub zigzag_encode : ℤ → ℕ
zigzag_encode (pos n) = 2 * n
zigzag_encode (negsuc n) = 2 * n + 1

-- `((v >> 1) as i64) ^ (-((v & 1) as i64))`
abbrev pub zigzag_decode : ℕ → ℤ
zigzag_decode v = if v % 2 == 0 then pos (v / 2) else negsuc (v / 2)

pub zigzag_decode-zigzag_encode : (v : ℤ) → zigzag_decode (zigzag_encode v) ≡ v
zigzag_decode-zigzag_encode (pos n) = ground arith
zigzag_decode-zigzag_encode (negsuc n) = ground arith

pub zigzag_encode_bound : (v : ℤ) → IsI64 v → zigzag_encode v < 2 ^ 64
zigzag_encode_bound (pos n) h = omega arith
zigzag_encode_bound (negsuc n) h = omega arith

-- 2 to the seven more
seven_more : (shift : ℕ) → 2 ^ (shift + 7) ≡ 128 * 2 ^ shift
seven_more shift =
    let count : shift + 7 ≡ suc (suc (suc (suc (suc (suc (suc shift)))))) = omega arith in
    ap (λ n. 2 ^ n) count
    ∙ omega (
      arith,
      pow-succ' 2 (suc (suc (suc (suc (suc (suc shift)))))),
      pow-succ' 2 (suc (suc (suc (suc (suc shift))))),
      pow-succ' 2 (suc (suc (suc (suc shift)))),
      pow-succ' 2 (suc (suc (suc shift))),
      pow-succ' 2 (suc (suc shift)),
      pow-succ' 2 (suc shift),
      pow-succ' 2 shift,
    )

small_shift : (shift : ℕ) → 2 ^ shift < 2 ^ 64 → leb 64 shift ≡ false
small_shift shift lt = elim (Bool-cases (leb 64 shift)) [
  | inl e ↦
      absurd
        (omega (arith, pow-le-pow_right {n = 2} (omega arith) {i = 64} {j = shift} (ground arith)))
  | inr e ↦ e
]

split_product : (v p : ℕ) → v * p ≡ v / 128 * (128 * p) + v % 128 * p
split_product v p =
    let parts : v ≡ v / 128 * 128 + v % 128 = omega arith in
    ap (λ n. n * p) parts
    ∙ add-mul (v / 128 * 128) (v % 128) p
    ∙ ap (λ n. n + v % 128 * p) (mul_assoc (v / 128) 128 p)

-- the bits of a byte, in their place above the result
with_bits :
    (shift result b : ℕ)
    → result < 2 ^ shift
    → b * 2 ^ shift < 2 ^ 64
    → bit_or result (b * 2 ^ shift % 2 ^ 64) ≡ result + b * 2 ^ shift
with_bits shift result b low fits =
    let whole : b * 2 ^ shift % 2 ^ 64 ≡ b * 2 ^ shift = omega arith in
    ap (λ n. bit_or result n) whole ∙ bit_or-shifted shift result b low

last_byte :
    (v shift result at : ℕ) (s : Bytes)
    → v < 128
    → result < 2 ^ shift
    → v * 2 ^ shift < 2 ^ 64
    → decode_loop shift result at (v ∷ s) ≡ inr (result + v * 2 ^ shift, at + 1)
unfolding decode_loop
last_byte v shift result at s small low fits =
    let bits : v % 128 ≡ v = omega arith in
    let last : ltb v 128 ≡ true = ground arith in
    rw (last, bits, with_bits shift result v low fits) refl

more_bytes :
    (v shift result at : ℕ) (s : Bytes)
    → 127 < v
    → result < 2 ^ shift
    → v * 2 ^ shift < 2 ^ 64
    → decode_loop shift result at ((v % 128 + 128) ∷ s)
      ≡ decode_loop (shift + 7) (result + v % 128 * 2 ^ shift) (at + 1) s
unfolding decode_loop
more_bytes v shift result at s big low fits =
    let bits : (v % 128 + 128) % 128 ≡ v % 128 = omega arith in
    let more : ltb (v % 128 + 128) 128 ≡ false = ground arith in
    let room : leb 64 (shift + 7) ≡ false = small_shift (shift + 7) (
      omega
        (arith, seven_more shift, mul-le-mul_right {m = 128} {n = v} (2 ^ shift) (omega arith))) in
    let below : v % 128 * 2 ^ shift < 2 ^ 64 =
      omega (arith, mul-le-mul_right {m = v % 128} {n = v} (2 ^ shift) (omega arith)) in
    rw (more, room, bits, with_bits shift result (v % 128) low below) refl

-- the values that the loop can write with its fuel
capacity : ℕ → ℕ
capacity zero = 128
capacity (suc fuel) = 128 * capacity fuel

decode_loop-encode_loop :
    (fuel v shift result at : ℕ) (s : Bytes)
    → v < capacity fuel
    → result < 2 ^ shift
    → v * 2 ^ shift < 2 ^ 64
    → decode_loop shift result at (encode_loop fuel v ++ s)
      ≡ inr (result + v * 2 ^ shift, at + length (encode_loop fuel v))
unfolding encode_loop capacity
decode_loop-encode_loop zero v shift result at s le low fits =
    last_byte v shift result at s (omega arith) low fits
decode_loop-encode_loop (suc fuel) v shift result at s le low fits = elim (Bool-cases (ltb 127 v)) [
  | inl e ↦
      let low_bits : v % 128 * 2 ^ shift ≤ 127 * 2 ^ shift =
        mul-le-mul_right {m = v % 128} {n = 127} (2 ^ shift) (omega arith) in
      let after : ℕ = result + v % 128 * 2 ^ shift in
      let value : after + v / 128 * 2 ^ (shift + 7) ≡ result + v * 2 ^ shift =
        ap (λ p. after + v / 128 * p) (seven_more shift)
        ∙ omega (arith, split_product v (2 ^ shift)) in
      let size : at + 1 + length (encode_loop fuel (v / 128))
          ≡ at + suc (length (encode_loop fuel (v / 128))) =
        omega arith in
      rw e (
        more_bytes v shift result at (encode_loop fuel (v / 128) ++ s) (ground arith) low fits
        ∙ decode_loop-encode_loop fuel (v / 128) (shift + 7) after (at + 1) s (omega arith)
            (omega (arith, seven_more shift, low_bits)) (omega (arith, value, fits))
        ∙ rw (value, size) refl)
  | inr e ↦ rw e (last_byte v shift result at s (ground arith) low fits)
]

-- A 64-bit number is read back from its varint, with the number of its bytes, whatever follows it.
pub decode_varint-encode_varint :
    (n : ℕ) (s : Bytes)
    → n < 2 ^ 64
    → decode_varint (encode_varint n ++ s) ≡ inr (n, length (encode_varint n))
unfolding decode_varint encode_varint capacity
decode_varint-encode_varint n s fits =
    let value : 0 + n * 2 ^ 0 ≡ n = omega arith in
    let size : 0 + length (encode_loop 9 n) ≡ length (encode_loop 9 n) = omega arith in
    decode_loop-encode_loop 9 n 0 0 0 s (omega arith) (omega arith) (omega arith)
    ∙ rw (value, size) refl
