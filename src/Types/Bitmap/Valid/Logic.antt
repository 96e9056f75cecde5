-- ===== src/Types/Bitmap/Valid/Logic.antt =====
-- crates/types/src/bitmap.rs: `&`, `|` and `!` on bitmaps, with a result of their own and in place.
use Prim.Native.Nat.{min, max, bit_and}
use roris_db.Prelude.{
  ℕ, suc, ◌+◌, ◌-◌, ◌*◌, ◌/◌, ◌%◌, ◌^◌, ◌≤◌, ◌<◌, ◌≡◌, refl, sym, ap, ◌∙◌, Bool, ◌&&◌, ◌||◌, Option,
  none, some, List, length, ltb, leb, leb→le, ◌==◌, if◌then◌else◌, arith, Bool-cases, inl, inr,
}
use roris_db.Bytes.Bits.{digit, digit_bound, digit-bit_and, digit-mask}
use roris_db.Types.Bitmap.{
  Bitmap, word_at, mask_last, and_words, or_words, merge_words, common_words, get, and_inplace,
  or_inplace, bitand, bitor,
}
use roris_db.Types.Bitmap.Words.{
  bit, word_at-update_last, length-update_last, bit-and_words, bit-common_words, bit-or_words,
  bit-merge_words, length-and_words, length-common_words, length-or_words, length-merge_words,
}
use roris_db.Types.Bitmap.Valid.{IsValid, get_lem, is_one}

pub length-mask_last : (len : ℕ) (ws : List ℕ) → length (mask_last len ws) ≡ length ws
unfolding mask_last
length-mask_last len ws = elim (Bool-cases (len % 64 == 0)) [
  | inl e ↦ rw e refl
  | inr e ↦ rw e (length-update_last _ ws)
]

-- A mask clears bits of the last word only.
pub bit-mask_last :
    (len : ℕ) (ws : List ℕ) (j k : ℕ)
    → bit (mask_last len ws) j k ≡ (
        if len % 64 == 0
        then bit ws j k
        else if suc j == length ws
        then min (bit ws j k) (if ltb k (len % 64) then 1 else 0)
        else bit ws j k)
unfolding mask_last
bit-mask_last len ws j k = elim (Bool-cases (len % 64 == 0)) [
  | inl e ↦ rw e refl
  | inr e ↦
      let last : ℕ → ℕ = λ w. bit_and w (2 ^ (len % 64) - 1) in
      rw e (
        ap (λ w. digit w k) (word_at-update_last last ws j)
        ∙ elim (Bool-cases (suc j == length ws)) [
          | inl at ↦ rw at (
              digit-bit_and (word_at ws j) (2 ^ (len % 64) - 1) k
              ∙ ap (min (bit ws j k)) (digit-mask (len % 64) k))
          | inr at ↦ rw at refl
        ])
]

-- Bits below `len` stay,
pub kept :
    (len : ℕ) (ws : List ℕ) (j k : ℕ)
    → len ≤ 64 * length ws
    → k < 64
    → 64 * j + k < len
    → bit (mask_last len ws) j k ≡ bit ws j k
kept len ws j k fits lt below =
    grind (arith, bit-mask_last len ws j k, digit_bound (word_at ws j) k)

-- and zeros stay zeros.
pub still_zero : (len : ℕ) (ws : List ℕ) (j k : ℕ) → bit ws j k ≡ 0 → bit (mask_last len ws) j k ≡ 0
still_zero len ws j k zeroed = grind (arith, bit-mask_last len ws j k)

-- A mask changes nothing in words without bits past `len`.
mask_kept :
    (len : ℕ) (ws : List ℕ)
    → len ≤ 64 * length ws
    → ((j k : ℕ) → min len (64 * j + 64) ≤ 64 * j + k → bit ws j k ≡ 0)
    → (j k : ℕ) → bit (mask_last len ws) j k ≡ bit ws j k
mask_kept len ws fits clean j k = elim (Bool-cases (ltb (64 * j + k) (min len (64 * j + 64)))) [
  | inl e ↦ kept len ws j k fits (ground arith) (ground arith)
  | inr e ↦
      let zeroed : bit ws j k ≡ 0 = clean j k (ground arith) in
      still_zero len ws j k zeroed ∙ sym zeroed
]

abbrev pub both : (Bool → Bool → Bool) → Option Bool → Option Bool → Option Bool
both f (some x) (some y) = some (f x y)
both f _ _ = none

is_one-min : (d e : ℕ) → d < 2 → e < 2 → is_one (min d e) ≡ (is_one d && is_one e)
is_one-min d e lt gt = grind arith

is_one-max : (d e : ℕ) → d < 2 → e < 2 → is_one (max d e) ≡ (is_one d || is_one e)
is_one-max d e lt gt = grind arith

-- `r` has `n` bits, each that of `a` and that of `b` under an operation.
pub Combines : (Bool → Bool → Bool) → ℕ → Bitmap → Bitmap → Bitmap → Type 0
Combines g n a b r = IsValid r × (r.len ≡ n) × ((i : ℕ) → get i r ≡ both g (get i a) (get i b))

-- The digits of `ws` are those of two valid bitmaps, under an operation on digits.
module _ (a b : Bitmap) (valid_a : IsValid a) (valid_b : IsValid b) (f : ℕ → ℕ → ℕ)
    (g : Bool → Bool → Bool)
    (ones : (d e : ℕ) → d < 2 → e < 2 → is_one (f d e) ≡ g (is_one d) (is_one e)) where
  combined :
      (ws : List ℕ) (n : ℕ)
      → ((j k : ℕ) → bit ws j k ≡ f (bit a.words j k) (bit b.words j k))
      → n ≤ 64 * length ws
      → ((j k : ℕ) → min n (64 * j + 64) ≤ 64 * j + k → bit ws j k ≡ 0)
      → Combines g n a b (record { words = ws; len = n })
  unfolding IsValid Combines
  combined ws n bits fits clean =
      let r : Bitmap = record { words = ws; len = n } in
      let reads : (i : ℕ) → get i r ≡ both g (get i a) (get i b) = λ i.
        rw (get_lem i a valid_a, get_lem i b valid_b)
          (get_lem i r (fits, clean)
            ∙ ap some (
                ap is_one (bits (i / 64) (i % 64))
                ∙ ones (bit a.words (i / 64) (i % 64)) (bit b.words (i / 64) (i % 64))
                    (digit_bound (word_at a.words (i / 64)) (i % 64))
                    (digit_bound (word_at b.words (i / 64)) (i % 64)))) in
      ((fits, clean), refl, reads)

module _ (a b : Bitmap) (valid_a : IsValid a) (valid_b : IsValid b) where
  and_clean :
      (j k : ℕ)
      → min (min a.len b.len) (64 * j + 64) ≤ 64 * j + k
      → min (bit a.words j k) (bit b.words j k) ≡ 0
  unfolding IsValid
  and_clean j k le = elim (Bool-cases (leb (min a.len (64 * j + 64)) (64 * j + k))) [
    | inl e ↦ omega (arith, valid_a.1 j k (leb→le (min a.len (64 * j + 64)) (64 * j + k) e))
    | inr e ↦
        let other : min b.len (64 * j + 64) ≤ 64 * j + k = ground arith in
        omega (arith, valid_b.1 j k other)
  ]

  or_clean :
      (j k : ℕ)
      → min (max a.len b.len) (64 * j + 64) ≤ 64 * j + k
      → max (bit a.words j k) (bit b.words j k) ≡ 0
  unfolding IsValid
  or_clean j k le = omega (arith, valid_a.1 j k (omega arith), valid_b.1 j k (omega arith))

  bitand-Combines : Combines ◌&&◌ (min a.len b.len) a b (bitand a b)
  unfolding IsValid bitand
  bitand-Combines =
      let ws : List ℕ = common_words a.words b.words in
      combined a b valid_a valid_b min ◌&&◌ is_one-min ws (min a.len b.len)
        (bit-common_words a.words b.words)
        (omega (arith, valid_a.0, valid_b.0, length-common_words a.words b.words))
        (λ j k le. bit-common_words a.words b.words j k ∙ and_clean j k le)

  bitor-Combines : Combines ◌||◌ (max a.len b.len) a b (bitor a b)
  unfolding IsValid bitor
  bitor-Combines =
      let ws : List ℕ = or_words a.words b.words in
      combined a b valid_a valid_b max ◌||◌ is_one-max ws (max a.len b.len)
        (bit-or_words a.words b.words)
        (omega (arith, valid_a.0, valid_b.0, length-or_words a.words b.words))
        (λ j k le. bit-or_words a.words b.words j k ∙ or_clean j k le)

  or_inplace-Combines : Combines ◌||◌ (max a.len b.len) a b (or_inplace b a)
  unfolding IsValid or_inplace
  or_inplace-Combines =
      let ws : List ℕ = merge_words a.words b.words in
      combined a b valid_a valid_b max ◌||◌ is_one-max ws (max a.len b.len)
        (bit-merge_words a.words b.words)
        (omega (arith, valid_a.0, valid_b.0, length-merge_words a.words b.words))
        (λ j k le. bit-merge_words a.words b.words j k ∙ or_clean j k le)

  and_inplace-Combines : Combines ◌&&◌ (min a.len b.len) a b (and_inplace b a)
  unfolding IsValid and_inplace
  and_inplace-Combines =
      let n : ℕ = min a.len b.len in
      let anded : List ℕ = and_words a.words b.words in
      let fits : n ≤ 64 * length anded =
        omega (arith, valid_a.0, length-and_words a.words b.words) in
      let zeroed : (j k : ℕ) → min n (64 * j + 64) ≤ 64 * j + k → bit anded j k ≡ 0 =
        λ j k le. bit-and_words a.words b.words j k ∙ and_clean j k le in
      combined a b valid_a valid_b min ◌&&◌ is_one-min (mask_last n anded) n
        (λ j k. mask_kept n anded fits zeroed j k ∙ bit-and_words a.words b.words j k)
        (omega (arith, fits, length-mask_last n anded))
        (λ j k le. still_zero n anded j k (zeroed j k le))

-- On valid bitmaps, `&a & &b` and `a.and_inplace(&b)` have the bits that both have, up to the shorter
-- length; `&a | &b` and `a.or_inplace(&b)` have the bits that either has, up to the longer length; and
-- the results are valid.
pub operators-Combines :
    (a b : Bitmap)
    → IsValid a
    → IsValid b
    → Combines ◌&&◌ (min a.len b.len) a b (bitand a b)
      × Combines ◌&&◌ (min a.len b.len) a b (and_inplace b a)
      × Combines ◌||◌ (max a.len b.len) a b (bitor a b)
      × Combines ◌||◌ (max a.len b.len) a b (or_inplace b a)
operators-Combines a b valid_a valid_b = (
  bitand-Combines a b valid_a valid_b,
  and_inplace-Combines a b valid_a valid_b,
  bitor-Combines a b valid_a valid_b,
  or_inplace-Combines a b valid_a valid_b,
)
