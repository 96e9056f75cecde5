-- ===== src/Types/Bitmap/Valid.antt =====
-- crates/types/src/bitmap.rs: the invariant of a bitmap, and the operations that keep it.
pub mod Set
pub mod Logic
pub mod Bools
pub mod Not
use Prim.Native.Nat.{bit_and, bit_or, min, max}
use roris_db.Prelude.{
  ℕ, zero, suc, ◌+◌, ◌-◌, ◌*◌, ◌/◌, ◌%◌, ◌^◌, ◌≤◌, ◌<◌, ◌≡◌, refl, sym, ap, ◌∙◌, Bool, true, false,
  Option, none, some, List, [], ◌∷◌, ◌++◌, length, length-append, length-set, get_elem?,
  set as set_elem, ltb, leb, ltb→lt, ◌==◌, if◌then◌else◌, arith, Bool-cases, inl, inr,
}
use roris_db.Bytes.Bits.{
  digit, digit_bound, digit-zero, digit-bit_and, digit-bit_or, digit-one_shifted, digit-complement,
  digit_above, below_of_digits, bit_and-shifted,
}
use roris_db.Types.Bitmap.{
  Bitmap, new, with_capacity, words_for, repeated, word_at, update, push, get, set, not_word,
  changed,
}
use roris_db.Types.Bitmap.Words.{
  bit, get_elem?-word_at, update_lem, word_at-set, word_at-append, word_at-repeated,
  length-repeated,
}

-- The bits below `len` have words, and every bit is 0 that is not below `len`, or not below 64 in its
-- word.
pub IsValid : Bitmap → Type 0
IsValid bm =
    (bm.len ≤ 64 * length bm.words)
    × ((j k : ℕ) → min bm.len (64 * j + 64) ≤ 64 * j + k → bit bm.words j k ≡ 0)

pub word_bound :
    (ws : List ℕ) (len j : ℕ)
    → ((j k : ℕ) → min len (64 * j + 64) ≤ 64 * j + k → bit ws j k ≡ 0)
    → word_at ws j < 2 ^ 64
word_bound ws len j clean = below_of_digits 64 (word_at ws j) (λ k le. clean j k (omega arith))

pub with_capacity-IsValid : (n : ℕ) → IsValid (with_capacity n)
unfolding IsValid with_capacity
with_capacity-IsValid n =
    let clean : (j k : ℕ)
        → min 0 (64 * j + 64) ≤ 64 * j + k
        → digit (word_at (repeated 0 (words_for n)) j) k ≡ 0 =
      λ j k _. ap (λ w. digit w k) (word_at-repeated (words_for n) j) ∙ digit-zero k in
    (omega arith, clean)

abbrev pub is_one : ℕ → Bool
is_one d = d == 1

abbrev pub to_digit : Bool → ℕ
to_digit true = 1
to_digit false = 0

-- Below `len` a bit is what its digit says, past it the answer is false; no index is out of bounds.
pub get_lem :
    (i : ℕ) (bm : Bitmap) → IsValid bm → get i bm ≡ some (is_one (bit bm.words (i / 64) (i % 64)))
unfolding IsValid get
get_lem i bm (wide, clean) = elim (Bool-cases (leb bm.len i)) [
  | inl e ↦ rw e (rw (clean (i / 64) (i % 64) (ground arith)) refl)
  | inr e ↦
      rw
        (
          e,
          get_elem?-word_at bm.words (i / 64) (ground arith),
          bit_and-shifted (word_at bm.words (i / 64)) (i % 64),
        )
        refl
]

pub digit-changed :
    (val : Bool) (b w k : ℕ)
    → b < 64
    → w < 2 ^ 64
    → digit (changed val b w) k ≡ (if k == b then to_digit val else digit w k)
digit-changed true b w k lt small =
    grind (arith, digit-bit_or w (2 ^ b) k, digit-one_shifted b k, digit_bound w k)
digit-changed false b w k lt small =
    let power : 2 ^ b < 2 ^ 64 =
      below_of_digits 64 (2 ^ b) (λ i le. grind (arith, digit-one_shifted b i)) in
    elim (Bool-cases (ltb k 64)) [
      | inl e ↦ grind (
        arith,
        digit-bit_and w (not_word (2 ^ b)) k,
        digit-complement 64 (2 ^ b) k power (ltb→lt k 64 e),
        digit-one_shifted b k,
        digit_bound w k,
      )
      | inr e ↦
          let high : digit w k ≡ 0 = digit_above 64 w k small (ground arith) in
          grind (arith, digit-bit_and w (not_word (2 ^ b)) k, high)
    ]
