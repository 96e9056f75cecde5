-- ===== src/Maxcompute/Tunnel/Io/At.antt =====
-- crates/maxcompute-protocol/src/tunnel/io.rs: where a reader stands, and what it reads there.
use roris_db.Prelude.{
  ℕ, zero, suc, ◌+◌, ◌%◌, ◌^◌, ◌<◌, ◌≡◌, refl, sym, ap, ◌∙◌, false, List, [], ◌∷◌, ◌++◌,
  append_assoc, length, length-append, take, drop, drop-length-append, ltb, arith,
}
use roris_db.Bytes.{Bytes}
use roris_db.Maxcompute.Tunnel.Pages.{drop_add}
use roris_db.Maxcompute.Tunnel.Varint.{encode_varint, encode_loop, decode_varint-encode_varint}
use roris_db.Maxcompute.Tunnel.Io.Write.{with_length}
use roris_db.Maxcompute.Tunnel.Io.Read.{
  TunnelReader, Read, ok, then_read, remaining, is_at_end, read_varint, read_fixed, read_slice,
  read_sized,
}

-- The reader stands before `s`, the rest of its bytes.
unfoldable pub At : Bytes → TunnelReader → Type 0
At s r = (remaining r ≡ s) × (r.pos + length s ≡ length r.bytes) × (length r.bytes < 2 ^ 64)

-- It reads the value and stands before `s`.
unfoldable pub Reads {ℓ} : {A : Type ℓ} → Read A → A → Bytes → Type ℓ
Reads p a s = (r : TunnelReader) × (p ≡ ok a r) × At s r

pub ok-Reads {ℓ} :
    {A : Type ℓ} (a b : A) (s : Bytes) (r : TunnelReader) → a ≡ b → At s r → Reads (ok a r) b s
unfolding Reads
ok-Reads a b s r same here = (r, ap (λ v. ok v r) same, here)

pub At-same : (a b s : Bytes) (r : TunnelReader) → a ≡ b → At (a ++ s) r → At (b ++ s) r
At-same a b s r same here = rw (sym same) here

pub then_read-Reads {ℓ κ} :
    {A : Type ℓ} {B : Type κ} (p : Read A) (next : A → TunnelReader → Read B) (a : A) (b : B)
    (s t : Bytes)
    → Reads p a s
    → ((r : TunnelReader) → At s r → Reads (next a r) b t)
    → Reads (then_read p next) b t
unfolding Reads then_read
then_read-Reads p next a b s t (r, e, here) goes =
    let (r', e', there) = goes r here in (r', ap (λ q. then_read q next) e ∙ e', there)

-- the reader behind so many bytes
abbrev pub advance : ℕ → TunnelReader → TunnelReader
advance n r = record r { pos = r.pos + n }

pub advance-At :
    (chunk s : Bytes) (r : TunnelReader) → At (chunk ++ s) r → At s (advance (length chunk) r)
unfolding At
advance-At chunk s r (rest, size, short) = (
  drop_add r.pos (length chunk) r.bytes
      ∙ ap (drop (length chunk)) rest
      ∙ drop-length-append chunk s,
  omega (arith, size, length-append chunk s),
  short,
)

pub take-length-append {ℓ} : {A : Type ℓ} (xs ys : List A) → take (length xs) (xs ++ ys) ≡ xs
take-length-append [] ys = refl
take-length-append (x ∷ xs) ys = ap (λ zs. x ∷ zs) (take-length-append xs ys)

pub read_varint-Reads :
    (n : ℕ) (s : Bytes) (r : TunnelReader)
    → n < 2 ^ 64
    → At (encode_varint n ++ s) r
    → Reads (read_varint r) n s
unfolding Reads read_varint At
read_varint-Reads n s r fits here = (
  advance (length (encode_varint n)) r,
  rw (here.0, read_varint, decode_varint-encode_varint n s fits) refl,
  advance-At (encode_varint n) s r here,
)

pub read_fixed-Reads :
    (n : ℕ) (chunk s : Bytes) (r : TunnelReader)
    → length chunk ≡ n
    → At (chunk ++ s) r
    → Reads (read_fixed n r) chunk s
unfolding Reads read_fixed At
read_fixed-Reads n chunk s r size here =
    let inside : ltb (length r.bytes) (r.pos + length chunk) ≡ false =
      ground (arith, here.1, length-append chunk s) in
    (
      advance (length chunk) r,
      rw (sym size, inside)
          (ap (λ t. ok t (advance (length chunk) r))
            (ap (take (length chunk)) here.0 ∙ take-length-append chunk s)),
      advance-At chunk s r here,
    )

read_slice-Reads :
    (chunk s : Bytes) (r : TunnelReader)
    → At (chunk ++ s) r
    → Reads (read_slice (length chunk) r) chunk s
unfolding Reads read_slice At
read_slice-Reads chunk s r here =
    let whole : (r.pos + length chunk) % 2 ^ 64 ≡ r.pos + length chunk =
      omega (arith, here.1, here.2, length-append chunk s) in
    let inside : ltb (length r.bytes) (r.pos + length chunk) ≡ false =
      ground (arith, here.1, length-append chunk s) in
    let order : ltb (r.pos + length chunk) r.pos ≡ false = ground arith in
    (
      advance (length chunk) r,
      rw (whole, inside, order)
          (ap (λ t. ok t (advance (length chunk) r))
            (ap (take (length chunk)) here.0 ∙ take-length-append chunk s)),
      advance-At chunk s r here,
    )

short-At : (chunk s : Bytes) (r : TunnelReader) → At (chunk ++ s) r → length chunk < 2 ^ 64
unfolding At
short-At chunk s r here = omega (arith, here.1, here.2, length-append chunk s)

pub At-assoc : (a b s : Bytes) (r : TunnelReader) → At ((a ++ b) ++ s) r → At (a ++ (b ++ s)) r
At-assoc a b s r here = rw (sym (append_assoc a b s)) here

pub read_sized-Reads :
    (chunk s : Bytes) (r : TunnelReader)
    → At (with_length chunk ++ s) r
    → Reads (read_sized r) chunk s
unfolding read_sized
read_sized-Reads chunk s r here =
    let at_size : At (encode_varint (length chunk) ++ (chunk ++ s)) r =
      At-assoc (encode_varint (length chunk)) chunk s r here in
    then_read-Reads (read_varint r) read_slice (length chunk) chunk (chunk ++ s) s
      (read_varint-Reads (length chunk) (chunk ++ s) r
        (omega (
          arith,
          short-At (with_length chunk) s r here,
          length-append (encode_varint (length chunk)) chunk,
        ))
        at_size)
      (λ r' there. read_slice-Reads chunk s r' there)

encode_loop-length : (fuel v : ℕ) → 0 < length (encode_loop fuel v)
unfolding encode_loop
encode_loop-length zero v = omega arith
encode_loop-length (suc fuel) v = ground arith

pub encode_varint-length : (n : ℕ) → 0 < length (encode_varint n)
unfolding encode_varint
encode_varint-length n = encode_loop-length 9 n

-- a varint ahead is not the end
pub varint_ahead :
    (n : ℕ) (s : Bytes) (r : TunnelReader) → At (encode_varint n ++ s) r → is_at_end r ≡ false
unfolding At encode_varint
varint_ahead n s r here =
    ground (arith, here.1, length-append (encode_loop 9 n) s, encode_loop-length 9 n)
