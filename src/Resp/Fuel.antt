-- ===== src/Resp/Fuel.antt =====
-- crates/redis-protocol/src/resp.rs, `RespParser::parse`: its recursion on the buffer.
use roris_db.Prelude.{
  ℕ, zero, suc, ◌+◌, ◌≤◌, ◌<◌, ◌≢◌, refl, [], ◌∷◌, length, length-drop, drop, arith, ℤ, pos, negsuc,
  inl, inr, Option-cases, Bool, true, false, if◌then◌else◌,
}
use roris_db.Bytes.{Bytes}
use roris_db.Resp.{RespValue, array, cons, RespError, invalid_data}
use roris_db.Resp.Parser.{
  Parsed, Outcome, incomplete, got, failed, stuck, on_line, after, parse_line, parse_simple_string,
  parse_error, parse_integer, parse_inline, parse_bulk_data, with_header, parse_bulk_string,
  parse_elements, parse_counted, parse_measured, parse_array, parse_fuel, parse, find_crlf,
  measure_value, max_depth,
}

-- A result that is not for want of fuel, with a buffer of at most `bound` bytes.
pub record IsTame {A : Type 0} (bound : ℕ) (r : Parsed A) : Type 0 where
  pub ends : r.0 ≢ stuck
  pub shrinks : length r.1 ≤ bound

IsTame-if :
    {A : Type 0} (b : Bool) (bound : ℕ) (x y : Parsed A)
    → IsTame bound x
    → IsTame bound y
    → IsTame bound (if b then x else y)
IsTame-if true bound x y hx hy = hx
IsTame-if false bound x y hx hy = hy

module _ {A : Type 0} {bound : ℕ} (buf : Bytes) (le : length buf ≤ bound) where
  IsTame-incomplete : IsTame {A = A} bound (incomplete, buf)
  IsTame-incomplete = record { ends = λ e. cc; shrinks = le }

  IsTame-got : (a : A) → IsTame bound (got a, buf)
  IsTame-got a = record { ends = λ e. cc; shrinks = le }

  IsTame-failed : (x : RespError) → IsTame {A = A} bound (failed x, buf)
  IsTame-failed x = record { ends = λ e. cc; shrinks = le }

length-drop-le : (n : ℕ) (s : Bytes) → length (drop n s) ≤ length s
length-drop-le n s = omega (arith, length-drop n s)

parse_line-IsTame : (start : ℕ) (buf : Bytes) → IsTame (length buf) (parse_line start buf)
unfolding parse_line
parse_line-IsTame start buf = record { ends = grind arith; shrinks = grind (arith, length-drop-le) }

on_line-IsTame :
    (f : Bytes → Outcome RespValue) (bound : ℕ) (r : Parsed Bytes)
    → ((line : Bytes) → f line ≢ stuck)
    → IsTame bound r
    → IsTame bound (on_line f r)
on_line-IsTame f bound (incomplete, buf) hf t = IsTame-incomplete buf t.shrinks
on_line-IsTame f bound (got line, buf) hf t = record { ends = hf line; shrinks = t.shrinks }
on_line-IsTame f bound (failed x, buf) hf t = IsTame-failed buf t.shrinks x
on_line-IsTame f bound (stuck, buf) hf t = absurd (t.ends refl)

module _ (buf : Bytes) where
  parse_simple_string-IsTame : IsTame (length buf) (parse_simple_string buf)
  unfolding parse_simple_string
  parse_simple_string-IsTame = on_line-IsTame _ _ _ (λ l e. cc) (parse_line-IsTame 1 buf)

  parse_error-IsTame : IsTame (length buf) (parse_error buf)
  unfolding parse_error
  parse_error-IsTame = on_line-IsTame _ _ _ (λ l e. cc) (parse_line-IsTame 1 buf)

  parse_integer-IsTame : IsTame (length buf) (parse_integer buf)
  unfolding parse_integer
  parse_integer-IsTame = on_line-IsTame _ _ _ (λ l. ground arith) (parse_line-IsTame 1 buf)

  parse_inline-IsTame : IsTame (length buf) (parse_inline buf)
  unfolding parse_inline
  parse_inline-IsTame = on_line-IsTame _ _ _ (λ l e. cc) (parse_line-IsTame 0 buf)

  parse_bulk_data-IsTame : (n : ℤ) (at : ℕ) → IsTame (length buf) (parse_bulk_data n at buf)
  unfolding parse_bulk_data
  parse_bulk_data-IsTame (negsuc zero) at = record {
    ends = λ e. cc;
    shrinks = length-drop-le (at + 2) buf;
  }
  parse_bulk_data-IsTame (negsuc (suc n)) at = record { ends = λ e. cc; shrinks = omega arith }
  parse_bulk_data-IsTame (pos n) at = record {
    ends = ground arith;
    shrinks = ground (arith, length-drop-le (at + 2 + n + 2) buf);
  }

  with_header-IsTame :
      (next : ℤ → Parsed RespValue) (at : ℕ)
      → ((n : ℤ) → IsTame (length buf) (next n))
      → IsTame (length buf) (with_header next at buf)
  unfolding with_header
  with_header-IsTame next at h = record {
    ends = grind (arith, λ (n : ℤ). (h n).ends);
    shrinks = grind (arith, λ (n : ℤ). (h n).shrinks);
  }

  parse_bulk_string-IsTame : IsTame (length buf) (parse_bulk_string buf)
  unfolding parse_bulk_string
  parse_bulk_string-IsTame = elim (Option-cases (find_crlf buf 1)) [
    | inl e ↦ rw (e, parse_bulk_string) (IsTame-incomplete buf (omega arith))
    | inr (at, e) ↦
        rw (e, parse_bulk_string)
          (with_header-IsTame (λ len. parse_bulk_data len at buf) at
            (λ n. parse_bulk_data-IsTame n at))
  ]

-- One round of the loop over elements, and what is built from them.
after-IsTame :
    {A B : Type 0} (bound : ℕ) (r : Parsed A) (next : A → Bytes → Parsed B)
    → IsTame bound r
    → ((a : A) (buf : Bytes) → length buf ≤ bound → IsTame bound (next a buf))
    → IsTame bound (after r next)
after-IsTame bound (incomplete, buf) next t h = IsTame-incomplete buf t.shrinks
after-IsTame bound (got a, buf) next t h = h a buf t.shrinks
after-IsTame bound (failed x, buf) next t h = IsTame-failed buf t.shrinks x
after-IsTame bound (stuck, buf) next t h = absurd (t.ends refl)

IsTame-mono : {A : Type 0} (b b' : ℕ) (r : Parsed A) → b ≤ b' → IsTame b r → IsTame b' r
IsTame-mono b b' r le t = record { ends = t.ends; shrinks = omega arith }

module _ (read : Bytes → Parsed RespValue) (bound : ℕ)
    (tame : (buf : Bytes) → length buf < bound → IsTame (length buf) (read buf)) where
  pub parse_elements-IsTame :
      (n : ℕ) (buf : Bytes) → length buf < bound → IsTame (length buf) (parse_elements read n buf)
  unfolding parse_elements
  parse_elements-IsTame zero buf lt = record { ends = λ e. cc; shrinks = omega arith }
  parse_elements-IsTame (suc n) buf lt =
      after-IsTame (length buf) (read buf) _ (tame buf lt) (λ v rest le.
        after-IsTame (length buf) (parse_elements read n rest) _
          (IsTame-mono (length rest) (length buf) _ le (parse_elements-IsTame n rest (omega arith)))
          (λ vs rest' le'. IsTame-got rest' le' (cons v vs)))

  parse_counted-IsTame :
      (n : ℤ) (at : ℕ) (buf : Bytes)
      → 0 < length buf
      → length buf ≤ bound
      → IsTame (length buf) (parse_counted read n at buf)
  unfolding parse_counted
  parse_counted-IsTame (negsuc n) at buf p le = record {
    ends = λ e. cc;
    shrinks = length-drop-le (at + 2) buf;
  }
  parse_counted-IsTame (pos n) at buf p le =
      IsTame-if _ _ _ _ (IsTame-failed buf (omega arith) invalid_data) (
        IsTame-mono (length (drop (at + 2) buf)) (length buf) _ (length-drop-le (at + 2) buf) (
          after-IsTame _ _ _
            (parse_elements-IsTame n (drop (at + 2) buf) (omega (arith, length-drop (at + 2) buf)))
            (λ vs rest h. IsTame-got rest h (array vs))))

  parse_measured-IsTame :
      (buf : Bytes)
      → 0 < length buf
      → length buf ≤ bound
      → IsTame (length buf) (parse_measured read buf)
  unfolding parse_measured
  parse_measured-IsTame buf p le = elim (Option-cases (find_crlf buf 1)) [
    | inl e ↦ rw (e, parse_measured) (IsTame-failed buf (omega arith) invalid_data)
    | inr (at, e) ↦
        rw (e, parse_measured)
          (with_header-IsTame buf (λ n. parse_counted read n at buf) at
            (λ n. parse_counted-IsTame n at buf p le))
  ]

  parse_array-IsTame :
      (buf : Bytes)
      → 0 < length buf
      → length buf ≤ bound
      → IsTame (length buf) (parse_array read buf)
  unfolding parse_array
  parse_array-IsTame buf p le = elim (Option-cases (measure_value max_depth buf)) [
    | inl e ↦ rw (e, parse_array) (IsTame-incomplete buf (omega arith))
    | inr (total, e) ↦
        rw (e, parse_array)
          (IsTame-if _ _ _ _ (parse_measured-IsTame buf p le) (IsTame-incomplete buf (omega arith)))
  ]

pub parse_fuel-IsTame :
    (fuel : ℕ) (buf : Bytes) → length buf < fuel → IsTame (length buf) (parse_fuel fuel buf)
unfolding parse_fuel
parse_fuel-IsTame zero buf lt = absurd (omega arith)
parse_fuel-IsTame (suc fuel) [] lt = record { ends = λ e. cc; shrinks = omega arith }
parse_fuel-IsTame (suc fuel) (p ∷ s) lt = IsTame-if _ _ _ _ (parse_simple_string-IsTame (p ∷ s)) (
    IsTame-if _ _ _ _ (parse_error-IsTame (p ∷ s)) (
      IsTame-if _ _ _ _ (parse_integer-IsTame (p ∷ s)) (
        IsTame-if _ _ _ _ (parse_bulk_string-IsTame (p ∷ s)) (
          IsTame-if _ _ _ _
            (parse_array-IsTame (parse_fuel fuel) fuel (parse_fuel-IsTame fuel) (p ∷ s)
              (omega arith) (omega arith))
            (parse_inline-IsTame (p ∷ s))))))

-- On every buffer the parser returns a value, an error or a request for more bytes: its recursion
-- never outruns the fuel that the buffer's length gives, and the buffer that it leaves is no longer
-- than the one that it was given.
pub parse_ends : (buf : Bytes) → ((parse buf).0 ≢ stuck) × (length (parse buf).1 ≤ length buf)
unfolding parse
parse_ends buf =
    let t = parse_fuel-IsTame (suc (length buf)) buf (omega arith) in (t.ends, t.shrinks)
