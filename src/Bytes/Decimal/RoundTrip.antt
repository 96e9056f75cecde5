-- ===== src/Bytes/Decimal/RoundTrip.antt =====
-- Printing an integer and reading it back.
use roris_db.Prelude.{
  ℕ, zero, suc, ◌+◌, ◌/◌, ◌%◌, ◌≤◌, ◌<◌, ◌≡◌, refl, some, true, false, List, [], ◌∷◌, ◌≢◌, ◌∙◌, inl,
  inr, Bool-cases, arith, ltb, All, ℤ, pos, negsuc, IsI64,
}
use roris_db.Bytes.Decimal.{
  digits, nat_to_string, int_to_string, read_digits, read_nat, fit_i64, finish_i64, parse_i64,
}

-- Reading the last digit of `n` after the digits before it.
read_last :
    (n : ℕ) (tail : List ℕ) → read_digits (n / 10) ((b'0' + n % 10) ∷ tail) ≡ read_digits n tail
unfolding read_digits
read_last n tail = ground arith

read_first :
    (n : ℕ) (tail : List ℕ) → n < 10 → read_digits 0 ((b'0' + n % 10) ∷ tail) ≡ read_digits n tail
unfolding read_digits
read_first n tail h = ground arith

read_digits-digits :
    (fuel n : ℕ) (tail : List ℕ)
    → n ≤ fuel
    → read_digits 0 (digits fuel n tail) ≡ read_digits n tail
unfolding digits
read_digits-digits zero n tail h = read_first n tail (omega arith)
read_digits-digits (suc fuel) n tail h = ground (
  arith,
  read_first n tail,
  read_digits-digits fuel (n / 10) ((b'0' + n % 10) ∷ tail),
  read_last n tail,
)

abbrev pub IsDigit : ℕ → Type 0
IsDigit c = (b'0' ≤ c) × (c ≤ b'9')

abbrev pub IsNonempty : List ℕ → Type 0
IsNonempty s = s ≢ []

digits-All : (fuel n : ℕ) (tail : List ℕ) → All IsDigit tail → All IsDigit (digits fuel n tail)
unfolding digits
digits-All zero n tail h = ((omega arith, omega arith), h)
digits-All (suc fuel) n tail h = elim (Bool-cases (ltb n 10)) [
  | inl small ↦ rw small ((omega arith, omega arith), h)
  | inr large ↦
      rw large (digits-All fuel (n / 10) ((b'0' + n % 10) ∷ tail) ((omega arith, omega arith), h))
]

digits-cons : (fuel n : ℕ) (tail : List ℕ) → (c : ℕ) × (s : List ℕ) × (digits fuel n tail ≡ c ∷ s)
unfolding digits
digits-cons zero n tail = (b'0' + n % 10, tail, refl)
digits-cons (suc fuel) n tail = elim (Bool-cases (ltb n 10)) [
  | inl small ↦ (b'0' + n % 10, tail, rw small)
  | inr large ↦ rw large (digits-cons fuel (n / 10) ((b'0' + n % 10) ∷ tail))
]

pub nat_to_string-All : (n : ℕ) → All IsDigit (nat_to_string n)
unfolding nat_to_string
nat_to_string-All n = digits-All n n [] tt

pub nat_to_string-cons : (n : ℕ) → (c : ℕ) × (s : List ℕ) × (nat_to_string n ≡ c ∷ s)
unfolding nat_to_string
nat_to_string-cons n = digits-cons n n []

read_nat_cons : (s t : List ℕ) (c : ℕ) → s ≡ c ∷ t → read_nat s ≡ read_digits 0 s
unfolding read_nat
read_nat_cons s t c e = rw e

pub read_nat-nat_to_string : (n : ℕ) → read_nat (nat_to_string n) ≡ some n
read_nat-nat_to_string n =
    let (c, t, e) = nat_to_string-cons n in
    read_nat_cons (nat_to_string n) t c e
    ∙ unfold nat_to_string read_digits in read_digits-digits n n [] (omega arith)

fit_signed : (a : ℤ) → IsI64 a → fit_i64 a ≡ some a
fit_signed (pos n) h = ground arith
fit_signed (negsuc n) h = ground arith

parse_unsigned :
    (c : ℕ) (s : List ℕ) → IsDigit c → parse_i64 (c ∷ s) ≡ finish_i64 false (read_nat (c ∷ s))
unfolding parse_i64
parse_unsigned c s h = ground arith

parse_negative : (s : List ℕ) → parse_i64 (b'-' ∷ s) ≡ finish_i64 true (read_nat s)
unfolding parse_i64
parse_negative s = refl

head-IsDigit : (s t : List ℕ) (c : ℕ) → s ≡ c ∷ t → All IsDigit s → IsDigit c
head-IsDigit s t c e h = (rw e at h).0

-- Every `i64` is read back from its decimal print.
pub parse_i64-int_to_string : (a : ℤ) → IsI64 a → parse_i64 (int_to_string a) ≡ some a
unfolding int_to_string
parse_i64-int_to_string (pos n) h =
    let (c, t, e) = nat_to_string-cons n in
    rw e (
      parse_unsigned c t (head-IsDigit (nat_to_string n) t c e (nat_to_string-All n))
      ∙ rw (← e, read_nat-nat_to_string) (fit_signed (pos n) h))
parse_i64-int_to_string (negsuc n) h =
    rw (parse_negative, read_nat-nat_to_string) (fit_signed (negsuc n) h)
