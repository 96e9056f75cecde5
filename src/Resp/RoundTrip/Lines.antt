-- ===== src/Resp/RoundTrip/Lines.antt =====
-- crates/redis-protocol/src/resp.rs: `find_crlf` and `parse_line` on one line of the protocol, and
-- the digits in headers.
use roris_db.Prelude.{
  ℕ, suc, ◌+◌, ◌-◌, ◌<◌, ◌≡◌, ◌≢◌, refl, ap, sym, ◌∙◌, none, some, true, [], ◌∷◌, ◌++◌,
  append_assoc, length, length-append, drop, take, drop-length-append, take-length-append, All,
  arith, ℤ, pos, negsuc, IsI64,
}
use roris_db.Bytes.{Bytes, slice}
use roris_db.Bytes.Utf8.{is_utf8, from_utf8, from_utf8_valid, is_utf8_of_ascii}
use roris_db.Bytes.Decimal.{nat_to_string, int_to_string, parse_i64}
use roris_db.Bytes.Decimal.RoundTrip.{IsDigit, nat_to_string-All, parse_i64-int_to_string}
use roris_db.Resp.{RespValue}
use roris_db.Resp.Encoder.{frame}
use roris_db.Resp.Parser.{
  Parsed, got, find_crlf_at, find_crlf, parse_line, with_header, measure_header, measure_line,
}

-- A text of one line: valid UTF-8 with no "\r\n" in it.
pub record IsLine (s : Bytes) : Type 0 where
  pub valid : is_utf8 s ≡ true
  pub one_line : find_crlf_at 0 s ≡ none

pub find_crlf_at-append :
    (s rest : Bytes) (i j : ℕ)
    → find_crlf_at j s ≡ none
    → find_crlf_at i (s ++ 13 ∷ 10 ∷ rest) ≡ some (i + length s)
unfolding find_crlf_at
find_crlf_at-append [] rest i j h = ground arith
find_crlf_at-append (a ∷ []) rest i j h = ground arith
find_crlf_at-append (a ∷ b ∷ s) rest i j h =
    ground (arith, find_crlf_at-append (b ∷ s) rest (i + 1) (j + 1))

-- ASCII, and no carriage return
abbrev IsPlain : ℕ → Type 0
IsPlain c = (c < 0x80) × (c ≢ 13)

find_crlf_at-plain : (s : Bytes) (i : ℕ) → All IsPlain s → find_crlf_at i s ≡ none
unfolding find_crlf_at
find_crlf_at-plain [] i h = refl
find_crlf_at-plain (a ∷ []) i h = refl
find_crlf_at-plain (a ∷ b ∷ s) i h = ground (arith, find_crlf_at-plain (b ∷ s) (i + 1))

ascii_of_plain : (s : Bytes) → All IsPlain s → All (λ b. b < 0x80) s
ascii_of_plain [] h = tt
ascii_of_plain (c ∷ s) h = (h.0.0, ascii_of_plain s h.1)

IsPlain-digits : (s : Bytes) → All IsDigit s → All IsPlain s
IsPlain-digits [] h = tt
IsPlain-digits (c ∷ s) h = ((omega arith, omega arith), IsPlain-digits s h.1)

IsLine-of_plain : (s : Bytes) → All IsPlain s → IsLine s
IsLine-of_plain s h = record {
  valid = is_utf8_of_ascii s (ascii_of_plain s h);
  one_line = find_crlf_at-plain s 0 h;
}

pub drop_at : (n : ℕ) (xs ys : Bytes) → n ≡ length xs → drop n (xs ++ ys) ≡ ys
drop_at n xs ys e = rw e (drop-length-append xs ys)

pub take_at : (n : ℕ) (xs ys : Bytes) → n ≡ length xs → take n (xs ++ ys) ≡ xs
take_at n xs ys e = rw e (take-length-append xs ys)

-- The bytes between two positions, when the parts of the buffer are known.
pub slice_at :
    (from to : ℕ) (pre mid post : Bytes)
    → from ≡ length pre
    → to ≡ length pre + length mid
    → slice from to (pre ++ (mid ++ post)) ≡ mid
slice_at from to pre mid post e e' =
    rw (drop_at from pre (mid ++ post) e) (take_at (to - from) mid post (omega arith))

-- One step of each reader, from what the searches in it return.
module _ (buf : Bytes) (start at : ℕ) (line : Bytes) (found : find_crlf buf start ≡ some at) where
  parse_line_step :
      from_utf8 (slice start at buf) ≡ some line
      → parse_line start buf ≡ (got line, drop (at + 2) buf)
  unfolding parse_line
  parse_line_step h = ground (arith, found, h)

  measure_header_step :
      (n : ℤ)
      → from_utf8 (slice 1 at buf) ≡ some line
      → parse_i64 line ≡ some n
      → start ≡ 1
      → measure_header buf ≡ some (at, n)
  unfolding measure_header
  measure_header_step n h k e = ground (arith, found, h, k, e)

  with_header_step :
      (next : ℤ → Parsed RespValue) (n : ℤ)
      → from_utf8 (slice 1 at buf) ≡ some line
      → parse_i64 line ≡ some n
      → with_header next at buf ≡ next n
  unfolding with_header
  with_header_step next n h k = ground (arith, h, k)

  measure_line_step : measure_line start buf ≡ some (at + 2)
  unfolding measure_line
  measure_line_step = ground (arith, found)

module _ (kind : ℕ) (s rest : Bytes) where
  pub find_crlf-frame :
      find_crlf_at 0 s ≡ none → find_crlf (frame kind s rest) 1 ≡ some (1 + length s)
  unfolding find_crlf
  find_crlf-frame h = find_crlf_at-append s rest 1 0 h

  pub slice-frame : slice 1 (1 + length s) (frame kind s rest) ≡ s
  slice-frame = slice_at 1 (1 + length s) (kind ∷ []) s (13 ∷ 10 ∷ rest) refl (omega arith)

  pub drop-frame : drop (1 + length s + 2) (frame kind s rest) ≡ rest
  drop-frame =
      ap (drop (1 + length s + 2)) (ap (λ l. kind ∷ l) (sym (append_assoc s (13 ∷ 10 ∷ []) rest)))
      ∙ drop_at (1 + length s + 2) (kind ∷ s ++ 13 ∷ 10 ∷ []) rest
          (omega (arith, length-append s (13 ∷ 10 ∷ [])))

  pub parse_line-frame : IsLine s → parse_line 1 (frame kind s rest) ≡ (got s, rest)
  parse_line-frame h =
      parse_line_step (frame kind s rest) 1 (1 + length s) s (find_crlf-frame h.one_line)
        (rw slice-frame (from_utf8_valid s h.valid))
      ∙ ap (λ r. (got s, r)) drop-frame

  pub measure_line-frame :
      find_crlf_at 0 s ≡ none → measure_line 1 (frame kind s rest) ≡ some (1 + length s + 2)
  measure_line-frame h =
      measure_line_step (frame kind s rest) 1 (1 + length s) s (find_crlf-frame h)

-- A header that holds a number in decimal.
pub IsLine-int_to_string : (n : ℤ) → IsLine (int_to_string n)
unfolding int_to_string
IsLine-int_to_string (pos n) =
    IsLine-of_plain (nat_to_string n) (IsPlain-digits _ (nat_to_string-All n))
IsLine-int_to_string (negsuc n) =
    IsLine-of_plain (b'-' ∷ nat_to_string (suc n))
      ((omega arith, omega arith), IsPlain-digits _ (nat_to_string-All (suc n)))

module _ (kind : ℕ) (n : ℤ) (rest : Bytes) (fits : IsI64 n) where
  header_text :
      from_utf8 (slice 1 (1 + length (int_to_string n)) (frame kind (int_to_string n) rest))
      ≡ some (int_to_string n)
  header_text = rw slice-frame (from_utf8_valid (int_to_string n) (IsLine-int_to_string n).valid)

  pub find_crlf-header :
      find_crlf (frame kind (int_to_string n) rest) 1 ≡ some (1 + length (int_to_string n))
  find_crlf-header = find_crlf-frame kind (int_to_string n) rest (IsLine-int_to_string n).one_line

  pub measure_header-frame :
      measure_header (frame kind (int_to_string n) rest) ≡ some (1 + length (int_to_string n), n)
  measure_header-frame =
      measure_header_step _ 1 _ (int_to_string n) find_crlf-header n header_text
        (parse_i64-int_to_string n fits) refl

  pub with_header-frame :
      (next : ℤ → Parsed RespValue)
      → with_header next (1 + length (int_to_string n)) (frame kind (int_to_string n) rest) ≡ next n
  with_header-frame next =
      with_header_step _ 1 _ (int_to_string n) find_crlf-header next n header_text
        (parse_i64-int_to_string n fits)
