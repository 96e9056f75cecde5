-- ===== src/Bytes/Decimal.antt =====
-- Decimal text: `to_string` of integers and `str::parse::<i64>`.
pub mod RoundTrip
use roris_db.Prelude.{
  ℕ, zero, suc, ◌+◌, ◌-◌, ◌*◌, ◌/◌, ◌%◌, ◌≡◌, refl, Bool, true, false, ◌&&◌, Option, none, some,
  List, [], ◌∷◌, ltb, leb, ◌==◌, if◌then◌else◌, ℤ, pos, negsuc, in_i64,
}

-- The digits of `n` in front of `tail`; `n` divided by ten, `fuel` times at most.
unfoldable pub digits : ℕ → ℕ → List ℕ → List ℕ
digits zero n tail = (b'0' + n % 10) ∷ tail
digits (suc fuel) n tail =
    let more = digits fuel (n / 10) ((b'0' + n % 10) ∷ tail) in
    if ltb n 10 then (b'0' + n % 10) ∷ tail else more

-- `n.to_string()`: the fuel `n` is enough, since a tenth of a positive number is smaller.
unfoldable pub nat_to_string : ℕ → List ℕ
unfolding digits
nat_to_string n = digits n n []

unfoldable pub int_to_string : ℤ → List ℕ
unfolding nat_to_string
int_to_string (pos n) = nat_to_string n
int_to_string (negsuc n) = b'-' ∷ nat_to_string (suc n)

-- The value of a text of digits behind the value `n`.
unfoldable pub read_digits : ℕ → List ℕ → Option ℕ
read_digits n [] = some n
read_digits n (c ∷ s) =
    let more = read_digits (n * 10 + (c - b'0')) s in
    if leb b'0' c && leb c b'9' then more else none

-- one digit at least
unfoldable pub read_nat : List ℕ → Option ℕ
unfolding read_digits
read_nat [] = none
read_nat (c ∷ s) = read_digits 0 (c ∷ s)

abbrev pub signed : Bool → ℕ → ℤ
signed false n = pos n
signed true zero = pos zero
signed true (suc n) = negsuc n

abbrev pub fit_i64 : ℤ → Option ℤ
fit_i64 a = if in_i64 a then some a else none

abbrev pub finish_i64 : Bool → Option ℕ → Option ℤ
finish_i64 negative none = none
finish_i64 negative (some n) = fit_i64 (signed negative n)

-- `s.parse::<i64>().ok()`: an optional sign, then digits; a value out of range is refused.
unfoldable pub parse_i64 : List ℕ → Option ℤ
unfolding read_nat
parse_i64 [] = none
parse_i64 (c ∷ s) =
    if c == b'-'
    then finish_i64 true (read_nat s)
    else if c == b'+'
    then finish_i64 false (read_nat s)
    else finish_i64 false (read_nat (c ∷ s))

parse_min : parse_i64 (b'-' ∷ nat_to_string 9223372036854775808) ≡ some (negsuc 9223372036854775807)
unfolding parse_i64 nat_to_string
parse_min = refl

parse_over : parse_i64 (nat_to_string 9223372036854775808) ≡ none
unfolding parse_i64 nat_to_string
parse_over = refl
