-- ===== src/Bytes/Bits.antt =====
-- The binary digits of a number, and what `&`, `|`, `!`, `1 << k` and a mask of ones do to them.
use Prim.Native.Nat.{bit_and, bit_or, bit_and-bitwise, bit_or-bitwise, digits, min, max}
use native.Mathlib.Nat.{pow-succ', one-le-pow, div-div-eq-div-mul, mul_assoc, mul_comm}
use roris_db.Prelude.{
  ℕ, zero, suc, ◌+◌, ◌-◌, ◌*◌, ◌/◌, ◌%◌, ◌^◌, ◌≤◌, ◌<◌, ◌≡◌, refl, sym, ap, ◌∙◌, ltb, ◌==◌,
  if◌then◌else◌, arith,
}

-- the digit of weight 2 ^ i
unfoldable pub digit : ℕ → ℕ → ℕ
digit a zero = a % 2
digit a (suc i) = digit (a / 2) i

pub digit_bound : (a i : ℕ) → digit a i < 2
unfolding digit
digit_bound a zero = omega arith
digit_bound a (suc i) = digit_bound (a / 2) i

pub digit-zero : (i : ℕ) → digit 0 i ≡ 0
unfolding digit
digit-zero zero = refl
digit-zero (suc i) = digit-zero i

-- What holds of `&` holds of `|`: the digit of the result is the operation on the digits.
module _ (z : ℕ → ℕ) (f : ℕ → ℕ → ℕ) (ends : (b i : ℕ) → digit (z b) i ≡ f 0 (digit b i))
    (small : (x y : ℕ) → x < 2 → y < 2 → f x y < 2) where
  ended : (b i : ℕ) → digit (z b) i ≡ f (digit 0 i) (digit b i)
  ended b i = rw (digit-zero i) (ends b i)

  digit-digits : (n a b i : ℕ) → a ≤ n → digit (digits z f n a b) i ≡ f (digit a i) (digit b i)
  unfolding digit
  digit-digits zero zero b i le = ended b i
  digit-digits zero (suc a) b i le = absurd (omega arith)
  digit-digits (suc n) zero b i le = ended b i
  digit-digits (suc n) (suc a) b zero le =
      omega (arith, small (suc a % 2) (b % 2) (omega arith) (omega arith))
  digit-digits (suc n) (suc a) b (suc i) le =
      let rest : ℕ = digits z f n (suc a / 2) (b / 2) in
      let low : ℕ = f (suc a % 2) (b % 2) in
      let half : (rest * 2 + low) / 2 ≡ rest =
        omega (arith, small (suc a % 2) (b % 2) (omega arith) (omega arith)) in
      ap (λ d. digit d i) half ∙ digit-digits n (suc a / 2) (b / 2) i (omega arith)

pub digit-bit_and : (a b i : ℕ) → digit (bit_and a b) i ≡ min (digit a i) (digit b i)
digit-bit_and a b i =
    ap (λ d. digit d i) (bit_and-bitwise a b)
    ∙ digit-digits (λ _. zero) min (λ b i. omega (arith, digit-zero i)) (λ x y lt gt. omega arith) a
        a b i (omega arith)

pub digit-bit_or : (a b i : ℕ) → digit (bit_or a b) i ≡ max (digit a i) (digit b i)
digit-bit_or a b i =
    ap (λ d. digit d i) (bit_or-bitwise a b)
    ∙ digit-digits (λ b. b) max (λ b i. omega arith) (λ x y lt gt. omega arith) a a b i
        (omega arith)

doubled : (k : ℕ) → 2 ^ suc k ≡ 2 * 2 ^ k
doubled k = pow-succ' 2 k

one-le-power : (k : ℕ) → 1 ≤ 2 ^ k
one-le-power k = one-le-pow k 2 (omega arith)

-- `1 << k`
pub digit-one_shifted : (k i : ℕ) → digit (2 ^ k) i ≡ (if i == k then 1 else 0)
unfolding digit
digit-one_shifted zero zero = refl
digit-one_shifted zero (suc i) = ground (arith, digit-zero i)
digit-one_shifted (suc k) zero = grind (arith, doubled k)
digit-one_shifted (suc k) (suc i) =
    let half : 2 ^ suc k / 2 ≡ 2 ^ k = omega (arith, doubled k) in
    ap (λ d. digit d i) half ∙ ground (arith, digit-one_shifted k i)

-- `(1 << r) - 1`
pub digit-mask : (r i : ℕ) → digit (2 ^ r - 1) i ≡ (if ltb i r then 1 else 0)
unfolding digit
digit-mask zero i = ground (arith, digit-zero i)
digit-mask (suc r) zero = grind (arith, doubled r, one-le-power r)
digit-mask (suc r) (suc i) =
    let half : (2 ^ suc r - 1) / 2 ≡ 2 ^ r - 1 = omega (arith, doubled r, one-le-power r) in
    ap (λ d. digit d i) half ∙ ground (arith, digit-mask r i)

-- `!w` on words of k bits
pub digit-complement : (k w i : ℕ) → w < 2 ^ k → i < k → digit (2 ^ k - 1 - w) i ≡ 1 - digit w i
unfolding digit
digit-complement zero w i lt le = absurd (omega arith)
digit-complement (suc k) w zero lt le = omega (arith, doubled k)
digit-complement (suc k) w (suc i) lt le =
    let half : (2 ^ suc k - 1 - w) / 2 ≡ 2 ^ k - 1 - w / 2 = omega (arith, doubled k) in
    ap (λ d. digit d i) half ∙ digit-complement k (w / 2) i (omega (arith, doubled k)) (omega arith)

-- no digits from k on
pub digit_above : (k w i : ℕ) → w < 2 ^ k → k ≤ i → digit w i ≡ 0
unfolding digit
digit_above zero w i lt le =
    let none_left : w ≡ 0 = omega arith in ap (λ d. digit d i) none_left ∙ digit-zero i
digit_above (suc k) w zero lt le = absurd (omega arith)
digit_above (suc k) w (suc i) lt le =
    digit_above k (w / 2) i (omega (arith, doubled k)) (omega arith)

zero_of_digits : (n w : ℕ) → w ≤ n → ((i : ℕ) → digit w i ≡ 0) → w ≡ 0
unfolding digit
zero_of_digits zero w le none_set = omega arith
zero_of_digits (suc n) w le none_set =
    omega (arith, none_set 0, zero_of_digits n (w / 2) (omega arith) (λ i. none_set (suc i)))

-- no digits from k on: the converse
pub below_of_digits : (k w : ℕ) → ((i : ℕ) → k ≤ i → digit w i ≡ 0) → w < 2 ^ k
unfolding digit
below_of_digits zero w above =
    let none_left : w ≡ 0 = zero_of_digits w w (omega arith) (λ i. above i (omega arith)) in
    omega arith
below_of_digits (suc k) w above =
    omega (arith, doubled k, below_of_digits k (w / 2) (λ i le. above (suc i) (omega arith)))

no_digit_above : (a i : ℕ) → 1 ≤ i → digit (bit_and a 1) i ≡ 0
unfolding digit
no_digit_above a zero le = absurd (omega arith)
no_digit_above a (suc i) le = omega (arith, digit-bit_and a 1 (suc i), digit-zero i)

bit_and-one : (a : ℕ) → bit_and a 1 ≡ a % 2
unfolding digit
bit_and-one a =
    omega (arith, below_of_digits 1 (bit_and a 1) (no_digit_above a), digit-bit_and a 1 0)

-- `(a >> i) & 1`
pub bit_and-shifted : (a i : ℕ) → bit_and (a / 2 ^ i) 1 ≡ digit a i
unfolding digit
bit_and-shifted a zero =
    let whole : a / 2 ^ 0 ≡ a = omega arith in ap (λ d. bit_and d 1) whole ∙ bit_and-one a
bit_and-shifted a (suc i) =
    let halved : a / 2 ^ suc i ≡ a / 2 / 2 ^ i =
      ap (λ d. a / d) (pow-succ' 2 i) ∙ sym (div-div-eq-div-mul a 2 (2 ^ i)) in
    ap (λ d. bit_and d 1) halved ∙ bit_and-shifted (a / 2) i

same_digits : (n a b : ℕ) → a ≤ n → b ≤ n → ((i : ℕ) → digit a i ≡ digit b i) → a ≡ b
unfolding digit
same_digits zero a b le le' same = omega arith
same_digits (suc n) a b le le' same =
    omega
      (arith, same 0, same_digits n (a / 2) (b / 2) (omega arith) (omega arith) (λ i. same (suc i)))

doubled_product : (k x : ℕ) → x * 2 ^ suc k ≡ 2 * (x * 2 ^ k)
doubled_product k x =
    ap (λ p. x * p) (doubled k)
    ∙ sym (mul_assoc x 2 (2 ^ k))
    ∙ ap (λ y. y * 2 ^ k) (mul_comm x 2)
    ∙ mul_assoc 2 x (2 ^ k)

-- Numbers without a digit in common, added.
digit-add :
    (k r x i : ℕ) → r < 2 ^ k → digit (r + x * 2 ^ k) i ≡ max (digit r i) (digit (x * 2 ^ k) i)
unfolding digit
digit-add zero r x i lt =
    let no_low : r ≡ 0 = omega arith in
    let whole : r + x * 2 ^ 0 ≡ x * 2 ^ 0 = omega arith in
    rw (whole, no_low) (omega (arith, digit-zero i))
digit-add (suc k) r x zero lt = omega (arith, doubled_product k x)
digit-add (suc k) r x (suc i) lt =
    let half : (r + x * 2 ^ suc k) / 2 ≡ r / 2 + x * 2 ^ k = omega (arith, doubled_product k x) in
    let shifted : x * 2 ^ suc k / 2 ≡ x * 2 ^ k = omega (arith, doubled_product k x) in
    rw (half, shifted) (digit-add k (r / 2) x i (omega (arith, doubled k)))

-- `r | (x << k)`
pub bit_or-shifted : (k r x : ℕ) → r < 2 ^ k → bit_or r (x * 2 ^ k) ≡ r + x * 2 ^ k
bit_or-shifted k r x lt =
    same_digits (bit_or r (x * 2 ^ k) + (r + x * 2 ^ k)) (bit_or r (x * 2 ^ k)) (r + x * 2 ^ k)
      (omega arith) (omega arith) (λ i. digit-bit_or r (x * 2 ^ k) i ∙ sym (digit-add k r x i lt))
