-- ===== src/Types/Bitmap.antt =====
-- crates/types/src/bitmap.rs: a bitmap in words of 64 bits. `none` is the panic of an index out of the
-- words' bounds.
pub mod Words
pub mod Valid
use Prim.Native.Nat.{bit_and, bit_or, min, max}
use roris_db.Prelude.{
  ℕ, zero, suc, ◌+◌, ◌-◌, ◌*◌, ◌/◌, ◌%◌, ◌^◌, Bool, true, false, Option, none, some, List, [], ◌∷◌,
  ◌++◌, map, length, get_elem?, set as set_elem, ltb, leb, ◌==◌, if◌then◌else◌,
}

pub record Bitmap : Type 0 where
  pub words : List ℕ
  pub len : ℕ

abbrev pub repeated : ℕ → ℕ → List ℕ
repeated w zero = []
repeated w (suc n) = w ∷ repeated w n

-- the words that hold `n` bits
abbrev pub words_for : ℕ → ℕ
words_for n = (n + 63) / 64

-- `u64::MAX`
abbrev pub max_word : ℕ
max_word = 2 ^ 64 - 1

-- `!w`
abbrev pub not_word : ℕ → ℕ
not_word w = 2 ^ 64 - 1 - w

-- `data.get(i).copied().unwrap_or(0)`
abbrev pub word_at : List ℕ → ℕ → ℕ
word_at [] i = 0
word_at (w ∷ ws) zero = w
word_at (w ∷ ws) (suc i) = word_at ws i

-- `if let Some(last) = data.last_mut() { *last = f(*last) }`
abbrev pub update_last : (ℕ → ℕ) → List ℕ → List ℕ
update_last f [] = []
update_last f (w ∷ []) = f w ∷ []
update_last f (w ∷ v ∷ ws) = w ∷ update_last f (v ∷ ws)

-- The last word without the bits from `len % 64` on, unless `len` fills its words.
unfoldable pub mask_last : ℕ → List ℕ → List ℕ
mask_last len ws =
    if len % 64 == 0 then ws else update_last (λ w. bit_and w (2 ^ (len % 64) - 1)) ws

-- `data[i] = f(data[i])`
abbrev pub update : (ℕ → ℕ) → List ℕ → ℕ → Option (List ℕ)
update f ws i = elim (get_elem? ws i) [ none ↦ none | some w ↦ some (set_elem ws i (f w)) ]

abbrev pub new : Bitmap
new = record { words = []; len = 0 }

unfoldable pub with_capacity : ℕ → Bitmap
with_capacity capacity = record { words = repeated 0 (words_for capacity); len = 0 }

unfoldable pub all_set : ℕ → Bitmap
unfolding mask_last
all_set n = record { words = mask_last n (repeated max_word (words_for n)); len = n }

unfoldable pub push : Bool → Bitmap → Option Bitmap
push val bm =
    let word_idx : ℕ = bm.len / 64 in
    let grown : List ℕ = if leb (length bm.words) word_idx then bm.words ++ 0 ∷ [] else bm.words in
    elim (if val then update (λ w. bit_or w (2 ^ (bm.len % 64))) grown word_idx else some grown) [
      | none ↦ none
      | some ws ↦ some (record { words = ws; len = bm.len + 1 })
    ]

unfoldable pub push_all : List Bool → Bitmap → Option Bitmap
unfolding push
push_all [] bm = some bm
push_all (b ∷ bools) bm = elim (push b bm) [ none ↦ none | some pushed ↦ push_all bools pushed ]

unfoldable pub from_bools : List Bool → Option Bitmap
unfolding push_all with_capacity
from_bools bools = push_all bools (with_capacity (length bools))

-- also `is_valid`
unfoldable pub get : ℕ → Bitmap → Option Bool
get idx bm = if leb bm.len idx then some false else elim (get_elem? bm.words (idx / 64)) [
  | none ↦ none
  | some w ↦ some (bit_and (w / 2 ^ (idx % 64)) 1 == 1)
]

-- the word with the bit `b` set to `val`
abbrev pub changed : Bool → ℕ → ℕ → ℕ
changed true b w = bit_or w (2 ^ b)
changed false b w = bit_and w (not_word (2 ^ b))

unfoldable pub set : ℕ → Bool → Bitmap → Option Bitmap
set idx val bm =
    let word_idx : ℕ = idx / 64 in
    let grown : List ℕ =
      if leb (length bm.words) word_idx
      then bm.words ++ repeated 0 (word_idx + 1 - length bm.words)
      else bm.words in
    elim (update (changed val (idx % 64)) grown word_idx) [
      | none ↦ none
      | some ws ↦ some (record { words = ws; len = if leb bm.len idx then idx + 1 else bm.len })
    ]

abbrev pub is_empty : Bitmap → Bool
is_empty bm = bm.len == 0

unfoldable pub clear : Bitmap → Bitmap
clear bm = record { words = map (λ _. 0) bm.words; len = 0 }

-- `count_ones` of the lowest `n` bits
abbrev pub count_ones : ℕ → ℕ → ℕ
count_ones zero w = 0
count_ones (suc n) w = w % 2 + count_ones n (w / 2)

-- the ones in the first `n` words
abbrev pub count_words : ℕ → List ℕ → Option ℕ
count_words zero ws = some 0
count_words (suc n) [] = none
count_words (suc n) (w ∷ ws) = elim (count_words n ws) [
  | none ↦ none
  | some rest ↦ some (count_ones 64 w + rest)
]

unfoldable pub set_count : Bitmap → Option ℕ
set_count bm =
    let full_words : ℕ = bm.len / 64 in
    let remaining_bits : ℕ = bm.len % 64 in
    if bm.len == 0 then some 0 else elim bm.words [
      | [] ↦ some 0
      | _ ↦ elim (count_words full_words bm.words) [
        | none ↦ none
        | some count ↦ some (
            if remaining_bits == 0 then count else elim (get_elem? bm.words full_words) [
              | none ↦ count
              | some w ↦ count + count_ones 64 (bit_and w (2 ^ remaining_bits - 1))
            ])
      ]
    ]

-- `self.len - self.set_count()`
abbrev pub null_count : Bitmap → Option ℕ
null_count bm = elim (set_count bm) [ none ↦ none | some count ↦ some (bm.len - count) ]

-- The words of `self` with those of `other`, zero where `other` has none.
unfoldable pub and_words : List ℕ → List ℕ → List ℕ
and_words [] others = []
and_words (w ∷ ws) [] = 0 ∷ and_words ws []
and_words (w ∷ ws) (v ∷ others) = bit_and w v ∷ and_words ws others

-- also `and_with`
unfoldable pub and_inplace : Bitmap → Bitmap → Bitmap
unfolding and_words mask_last
and_inplace other bm =
    let len : ℕ = min bm.len other.len in
    record { words = mask_last len (and_words bm.words other.words); len = len }

unfoldable pub or_words : List ℕ → List ℕ → List ℕ
or_words [] [] = []
or_words [] (v ∷ others) = bit_or 0 v ∷ or_words [] others
or_words (w ∷ ws) [] = bit_or w 0 ∷ or_words ws []
or_words (w ∷ ws) (v ∷ others) = bit_or w v ∷ or_words ws others

-- The words of `self`, as many as `other` has at least, with those of `other`.
unfoldable pub merge_words : List ℕ → List ℕ → List ℕ
merge_words [] [] = []
merge_words [] (v ∷ others) = bit_or 0 v ∷ merge_words [] others
merge_words (w ∷ ws) [] = w ∷ ws
merge_words (w ∷ ws) (v ∷ others) = bit_or w v ∷ merge_words ws others

-- also `or_with`
unfoldable pub or_inplace : Bitmap → Bitmap → Bitmap
unfolding merge_words
or_inplace other bm = record {
  words = merge_words bm.words other.words;
  len = max bm.len other.len;
}

unfoldable pub not_inplace : Bitmap → Bitmap
unfolding mask_last
not_inplace bm = record { words = mask_last bm.len (map not_word bm.words); len = bm.len }

-- The words that both have, of `&self & &rhs`.
unfoldable pub common_words : List ℕ → List ℕ → List ℕ
common_words (w ∷ ws) (v ∷ others) = bit_and w v ∷ common_words ws others
common_words _ _ = []

unfoldable pub bitand : Bitmap → Bitmap → Bitmap
unfolding common_words
bitand bm rhs = record { words = common_words bm.words rhs.words; len = min bm.len rhs.len }

unfoldable pub bitor : Bitmap → Bitmap → Bitmap
unfolding or_words
bitor bm rhs = record { words = or_words bm.words rhs.words; len = max bm.len rhs.len }

-- the first `n` words, each inverted
unfoldable pub not_words : ℕ → List ℕ → List ℕ
not_words zero ws = []
not_words (suc n) [] = not_word 0 ∷ not_words n []
not_words (suc n) (w ∷ ws) = not_word w ∷ not_words n ws

unfoldable pub not_bitmap : Bitmap → Bitmap
unfolding not_words mask_last
not_bitmap bm = record {
  words = mask_last bm.len (not_words (words_for bm.len) bm.words);
  len = bm.len;
}
