-- ===== src/Resp/Progress.antt =====
-- crates/redis-protocol/src/resp.rs, `RespParser::parse`: how much of the buffer a value takes.
use roris_db.Prelude.{
  ℕ, zero, suc, ◌+◌, ◌≤◌, ◌<◌, ◌≡◌, refl, [], ◌∷◌, length, length-drop, drop, arith, ℤ, pos, negsuc,
  inl, inr, Option-cases, Bool, true, false, if◌then◌else◌,
}
use roris_db.Bytes.{Bytes}
use roris_db.Resp.{RespValue, RespError, invalid_data}
use roris_db.Resp.Parser.{
  Parsed, Outcome, incomplete, got, failed, stuck, on_line, after, parse_line, parse_simple_string,
  parse_error, parse_integer, parse_inline, parse_bulk_data, with_header, parse_bulk_string,
  parse_elements, parse_counted, parse_measured, parse_array, parse_fuel, parse, find_crlf,
  measure_value, max_depth,
}
use roris_db.Resp.Fuel.{parse_elements-IsTame, parse_fuel-IsTame}

-- A value comes with a buffer of less than `bound` bytes.
pub record TakesFrom {A : Type 0} (bound : ℕ) (r : Parsed A) : Type 0 where
  pub shorter : (a : A) → r.0 ≡ got a → length r.1 < bound

takes_if :
    {A : Type 0} (b : Bool) (bound : ℕ) (x y : Parsed A)
    → TakesFrom bound x
    → TakesFrom bound y
    → TakesFrom bound (if b then x else y)
takes_if true bound x y hx hy = hx
takes_if false bound x y hx hy = hy

module _ {A : Type 0} (bound : ℕ) (buf : Bytes) where
  takes_incomplete : TakesFrom {A = A} bound (incomplete, buf)
  takes_incomplete = record { shorter = λ a e. absurd cc }

  takes_stuck : TakesFrom {A = A} bound (stuck, buf)
  takes_stuck = record { shorter = λ a e. absurd cc }

  takes_failed : (x : RespError) → TakesFrom {A = A} bound (failed x, buf)
  takes_failed x = record { shorter = λ a e. absurd cc }

length-drop_lt : (n : ℕ) (s : Bytes) → 0 < length s → length (drop (n + 2) s) < length s
length-drop_lt n s p = omega (arith, length-drop (n + 2) s)

module _ (buf : Bytes) (p : 0 < length buf) where
  parse_line-TakesFrom : (start : ℕ) → TakesFrom (length buf) (parse_line start buf)
  unfolding parse_line
  parse_line-TakesFrom start = record {
    shorter = λ a e. grind (arith, λ (n : ℕ). length-drop_lt n buf p);
  }

  on_line-TakesFrom :
      (f : Bytes → Outcome RespValue) (r : Parsed Bytes)
      → TakesFrom (length buf) r
      → TakesFrom (length buf) (on_line f r)
  on_line-TakesFrom f (incomplete, b) t = takes_incomplete (length buf) b
  on_line-TakesFrom f (got line, b) t = record { shorter = λ a e. t.shorter line refl }
  on_line-TakesFrom f (failed x, b) t = takes_failed (length buf) b x
  on_line-TakesFrom f (stuck, b) t = takes_stuck (length buf) b

  parse_simple_string-TakesFrom : TakesFrom (length buf) (parse_simple_string buf)
  unfolding parse_simple_string
  parse_simple_string-TakesFrom = on_line-TakesFrom _ _ (parse_line-TakesFrom 1)

  parse_error-TakesFrom : TakesFrom (length buf) (parse_error buf)
  unfolding parse_error
  parse_error-TakesFrom = on_line-TakesFrom _ _ (parse_line-TakesFrom 1)

  parse_integer-TakesFrom : TakesFrom (length buf) (parse_integer buf)
  unfolding parse_integer
  parse_integer-TakesFrom = on_line-TakesFrom _ _ (parse_line-TakesFrom 1)

  parse_inline-TakesFrom : TakesFrom (length buf) (parse_inline buf)
  unfolding parse_inline
  parse_inline-TakesFrom = on_line-TakesFrom _ _ (parse_line-TakesFrom 0)

  parse_bulk_data-TakesFrom : (n : ℤ) (at : ℕ) → TakesFrom (length buf) (parse_bulk_data n at buf)
  unfolding parse_bulk_data
  parse_bulk_data-TakesFrom (negsuc zero) at = record { shorter = λ a e. length-drop_lt at buf p }
  parse_bulk_data-TakesFrom (negsuc (suc n)) at = takes_failed (length buf) buf invalid_data
  parse_bulk_data-TakesFrom (pos n) at = record {
    shorter = λ a e. ground (arith, length-drop_lt (at + 2 + n) buf p);
  }

  with_header-TakesFrom :
      (next : ℤ → Parsed RespValue) (at : ℕ)
      → ((n : ℤ) → TakesFrom (length buf) (next n))
      → TakesFrom (length buf) (with_header next at buf)
  unfolding with_header
  with_header-TakesFrom next at h = record {
    shorter = λ a e. grind (arith, λ (n : ℤ). (h n).shorter a);
  }

  parse_bulk_string-TakesFrom : TakesFrom (length buf) (parse_bulk_string buf)
  unfolding parse_bulk_string
  parse_bulk_string-TakesFrom = elim (Option-cases (find_crlf buf 1)) [
    | inl e ↦ rw (e, parse_bulk_string) (takes_incomplete (length buf) buf)
    | inr (at, e) ↦
        rw (e, parse_bulk_string)
          (with_header-TakesFrom (λ len. parse_bulk_data len at buf) at
            (λ n. parse_bulk_data-TakesFrom n at))
  ]

-- What stands behind a value that took enough takes enough too.
after-TakesFrom :
    {A B : Type 0} (bound : ℕ) (r : Parsed A) (next : A → Bytes → Parsed B)
    → length r.1 < bound
    → ((a : A) (buf : Bytes) → length buf < bound → TakesFrom bound (next a buf))
    → TakesFrom bound (after r next)
after-TakesFrom bound (incomplete, buf) next t h = takes_incomplete bound buf
after-TakesFrom bound (got v, buf) next t h = h v buf t
after-TakesFrom bound (failed x, buf) next t h = takes_failed bound buf x
after-TakesFrom bound (stuck, buf) next t h = takes_stuck bound buf

module _ (fuel : ℕ) (buf : Bytes) (p : 0 < length buf) (le : length buf ≤ fuel) where
  parse_counted-TakesFrom :
      (n : ℤ) (at : ℕ) → TakesFrom (length buf) (parse_counted (parse_fuel fuel) n at buf)
  unfolding parse_counted
  parse_counted-TakesFrom (negsuc n) at = record { shorter = λ a e. length-drop_lt at buf p }
  parse_counted-TakesFrom (pos n) at =
      takes_if _ _ _ _ (takes_failed (length buf) buf invalid_data) (
        after-TakesFrom (length buf) (parse_elements (parse_fuel fuel) n (drop (at + 2) buf)) _
          (omega (
            arith,
            length-drop_lt at buf p,
            (parse_elements-IsTame (parse_fuel fuel) fuel (parse_fuel-IsTame fuel) n
                (drop (at + 2) buf) (omega (arith, length-drop_lt at buf p))).shrinks,
          ))
          (λ vs rest lt. record { shorter = λ v e. lt }))

  parse_measured-TakesFrom : TakesFrom (length buf) (parse_measured (parse_fuel fuel) buf)
  unfolding parse_measured
  parse_measured-TakesFrom = elim (Option-cases (find_crlf buf 1)) [
    | inl e ↦ rw (e, parse_measured) (takes_failed (length buf) buf invalid_data)
    | inr (at, e) ↦
        rw (e, parse_measured)
          (with_header-TakesFrom buf p (λ n. parse_counted (parse_fuel fuel) n at buf) at
            (λ n. parse_counted-TakesFrom n at))
  ]

  parse_array-TakesFrom : TakesFrom (length buf) (parse_array (parse_fuel fuel) buf)
  unfolding parse_array
  parse_array-TakesFrom = elim (Option-cases (measure_value max_depth buf)) [
    | inl e ↦ rw (e, parse_array) (takes_incomplete (length buf) buf)
    | inr (total, e) ↦
        rw (e, parse_array)
          (takes_if _ _ _ _ parse_measured-TakesFrom (takes_incomplete (length buf) buf))
  ]

parse_fuel-TakesFrom :
    (fuel : ℕ) (c : ℕ) (s : Bytes)
    → length (c ∷ s) ≤ fuel
    → TakesFrom (length (c ∷ s)) (parse_fuel (suc fuel) (c ∷ s))
unfolding parse_fuel
parse_fuel-TakesFrom fuel c s le =
    let buf : Bytes = c ∷ s in
    let p : 0 < length buf = omega arith in
    takes_if _ _ _ _ (parse_simple_string-TakesFrom buf p) (
      takes_if _ _ _ _ (parse_error-TakesFrom buf p) (
        takes_if _ _ _ _ (parse_integer-TakesFrom buf p) (
          takes_if _ _ _ _ (parse_bulk_string-TakesFrom buf p) (
            takes_if _ _ _ _ (parse_array-TakesFrom fuel buf p le)
              (parse_inline-TakesFrom buf p)))))

-- A value that the parser returns is made of a byte of the buffer at least, so that the buffer it
-- leaves is shorter.
pub parse_takes :
    (buf : Bytes) (v : RespValue) → (parse buf).0 ≡ got v → length (parse buf).1 < length buf
unfolding parse parse_fuel
parse_takes [] v e = absurd cc
parse_takes (c ∷ s) v e = (parse_fuel-TakesFrom (suc (length s)) c s (omega arith)).shorter v e
