-- ===== src/Types/Bitmap/Valid/Not.antt =====
-- crates/types/src/bitmap.rs: `!`, with a result of its own and in place.
use Prim.Native.Nat.{min}
use roris_db.Prelude.{
  ℕ, ◌+◌, ◌-◌, ◌*◌, ◌/◌, ◌%◌, ◌≤◌, ◌<◌, ◌≡◌, refl, ap, ◌∙◌, Bool, false, not, Option, none, some,
  List, [], ◌∷◌, map, length, ltb, ltb→lt, if◌then◌else◌, arith, Bool-cases, inl, inr,
}
use roris_db.Bytes.Bits.{digit, digit_bound, digit-zero, digit-complement, digit_above}
use roris_db.Types.Bitmap.{
  Bitmap, words_for, word_at, mask_last, not_word, not_words, get, not_inplace, not_bitmap,
}
use roris_db.Types.Bitmap.Words.{bit, word_at_outside, word_at-not_words, length-not_words}
use roris_db.Types.Bitmap.Valid.{IsValid, word_bound, get_lem, is_one}
use roris_db.Types.Bitmap.Valid.Logic.{length-mask_last, bit-mask_last, kept, still_zero}

-- one answer inverted
abbrev pub flipped : Option Bool → Option Bool
flipped none = none
flipped (some b) = some (not b)

is_one-inverted : (d : ℕ) → d < 2 → is_one (1 - d) ≡ not (is_one d)
is_one-inverted d lt = grind arith

map-not_words : (ws : List ℕ) → map not_word ws ≡ not_words (length ws) ws
unfolding not_words
map-not_words [] = refl
map-not_words (w ∷ ws) = ap (λ vs. not_word w ∷ vs) (map-not_words ws)

module _ (bm : Bitmap) (valid : IsValid bm) where
  abbrev inverted : List ℕ
  inverted = not_words (words_for bm.len) bm.words

  bit-inverted : (j k : ℕ) → j < words_for bm.len → k < 64 → bit inverted j k ≡ 1 - bit bm.words j k
  unfolding IsValid
  bit-inverted j k lt gt =
      ap (λ w. digit w k) (word_at-not_words (words_for bm.len) bm.words j lt)
      ∙ digit-complement 64 (word_at bm.words j) k (word_bound bm.words bm.len j valid.1) gt

  -- no bits past the words, nor past 64 in one
  inverted_outside : (j k : ℕ) → ((j < words_for bm.len) → 64 ≤ k) → bit inverted j k ≡ 0
  inverted_outside j k h = elim (Bool-cases (ltb j (words_for bm.len))) [
    | inl e ↦
        let lt : j < words_for bm.len = ltb→lt j (words_for bm.len) e in
        ap (λ w. digit w k) (word_at-not_words (words_for bm.len) bm.words j lt)
        ∙ digit_above 64 (not_word (word_at bm.words j)) k (omega arith) (h lt)
    | inr e ↦
        ap (λ w. digit w k)
          (word_at_outside inverted j
            (ground (arith, length-not_words (words_for bm.len) bm.words)))
        ∙ digit-zero k
  ]

  fits : bm.len ≤ 64 * length inverted
  fits = omega (arith, length-not_words (words_for bm.len) bm.words)

  -- The bits of the last word past `len` are masked away.
  last_masked :
      (j k : ℕ)
      → j < words_for bm.len
      → k < 64
      → bm.len ≤ 64 * j + k
      → bit (mask_last bm.len inverted) j k ≡ 0
  last_masked j k lt gt past =
      let size : length inverted ≡ words_for bm.len =
        length-not_words (words_for bm.len) bm.words in
      grind (arith, bit-mask_last bm.len inverted j k, size)

  inverted_clean :
      (j k : ℕ) → min bm.len (64 * j + 64) ≤ 64 * j + k → bit (mask_last bm.len inverted) j k ≡ 0
  inverted_clean j k le = elim (Bool-cases (ltb k 64)) [
    | inl small ↦ elim (Bool-cases (ltb j (words_for bm.len))) [
      | inl e ↦
          last_masked j k (ltb→lt j (words_for bm.len) e) (ltb→lt k 64 small)
            (omega (arith, ltb→lt k 64 small))
      | inr e ↦ still_zero bm.len inverted j k (inverted_outside j k (λ lt. absurd (ground arith)))
    ]
    | inr large ↦ still_zero bm.len inverted j k (inverted_outside j k (λ lt. ground arith))
  ]

  not_bitmap-IsValid : IsValid (not_bitmap bm)
  unfolding IsValid not_bitmap
  not_bitmap-IsValid = (omega (arith, fits, length-mask_last bm.len inverted), inverted_clean)

  get-not_bitmap :
      (i : ℕ) → get i (not_bitmap bm) ≡ (if ltb i bm.len then flipped (get i bm) else some false)
  unfolding not_bitmap
  get-not_bitmap i = elim (Bool-cases (ltb i bm.len)) [
    | inl e ↦
        let j : ℕ = i / 64 in
        let k : ℕ = i % 64 in
        let lt : i < bm.len = ltb→lt i bm.len e in
        let d : ℕ = bit bm.words j k in
        get_lem i (not_bitmap bm) not_bitmap-IsValid
        ∙ ap (λ b. some (is_one b))
            (kept bm.len inverted j k fits (omega arith) (omega arith)
              ∙ bit-inverted j k (omega arith) (omega arith))
        ∙ ap some (is_one-inverted d (digit_bound (word_at bm.words j) k))
        ∙ rw (e, get_lem i bm valid) refl
    | inr e ↦
        get_lem i (not_bitmap bm) not_bitmap-IsValid
        ∙ ap (λ b. some (is_one b)) (inverted_clean (i / 64) (i % 64) (ground arith))
        ∙ rw e refl
  ]

-- `!&a` of a valid bitmap is valid, has its length and at each of its indices the other bit, and reads as
-- false past them.
pub not_bitmap-flipped :
    (bm : Bitmap)
    → IsValid bm
    → IsValid (not_bitmap bm)
      × ((not_bitmap bm).len ≡ bm.len)
      × ((i : ℕ)
          → get i (not_bitmap bm) ≡ (if ltb i bm.len then flipped (get i bm) else some false))
unfolding not_bitmap
not_bitmap-flipped bm valid = (not_bitmap-IsValid bm valid, refl, get-not_bitmap bm valid)

-- `a.not_inplace()` is the same bitmap, provided that `a` has no words to spare.
not_inplace-not_bitmap :
    (bm : Bitmap) → length bm.words ≡ words_for bm.len → not_inplace bm ≡ not_bitmap bm
unfolding not_inplace not_bitmap
not_inplace-not_bitmap bm exact =
    ap (λ ws. record bm { words = mask_last bm.len ws })
      (map-not_words bm.words ∙ ap (λ n. not_words n bm.words) exact)
