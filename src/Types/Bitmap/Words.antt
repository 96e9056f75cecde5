-- ===== src/Types/Bitmap/Words.antt =====
-- crates/types/src/bitmap.rs: the bits of a list of words, and what the loops over the words do to them.
use Prim.Native.Nat.{min, max}
use roris_db.Prelude.{
  ℕ, zero, suc, ◌≤◌, ◌<◌, ◌≡◌, refl, ap, some, List, [], ◌∷◌, ◌++◌, map, length, get_elem?, set,
  ◌==◌, if◌then◌else◌, arith,
}
use roris_db.Bytes.Bits.{digit, digit-zero, digit-bit_and, digit-bit_or}
use roris_db.Types.Bitmap.{
  repeated, not_word, word_at, update_last, update, and_words, or_words, merge_words, common_words,
  not_words,
}

-- the digit `k` of word `j`
abbrev pub bit : List ℕ → ℕ → ℕ → ℕ
bit ws j k = digit (word_at ws j) k

pub get_elem?-word_at : (ws : List ℕ) (i : ℕ) → i < length ws → get_elem? ws i ≡ some (word_at ws i)
get_elem?-word_at [] i lt = absurd (omega arith)
get_elem?-word_at (w ∷ ws) zero lt = refl
get_elem?-word_at (w ∷ ws) (suc i) lt = get_elem?-word_at ws i (omega arith)

pub update_lem :
    (f : ℕ → ℕ) (ws : List ℕ) (i : ℕ)
    → i < length ws
    → update f ws i ≡ some (set ws i (f (word_at ws i)))
update_lem f ws i lt = rw (get_elem?-word_at ws i lt, update) refl

pub word_at_outside : (ws : List ℕ) (i : ℕ) → length ws ≤ i → word_at ws i ≡ 0
word_at_outside [] i le = refl
word_at_outside (w ∷ ws) zero le = absurd (omega arith)
word_at_outside (w ∷ ws) (suc i) le = word_at_outside ws i (omega arith)

pub word_at-set :
    (ws : List ℕ) (i : ℕ) (v : ℕ) (j : ℕ)
    → i < length ws
    → word_at (set ws i v) j ≡ (if j == i then v else word_at ws j)
word_at-set [] i v j lt = absurd (omega arith)
word_at-set (w ∷ ws) zero v zero lt = refl
word_at-set (w ∷ ws) zero v (suc j) lt = ground arith
word_at-set (w ∷ ws) (suc i) v zero lt = ground arith
word_at-set (w ∷ ws) (suc i) v (suc j) lt = ground (arith, word_at-set ws i v j (omega arith))

pub word_at-repeated : (n j : ℕ) → word_at (repeated 0 n) j ≡ 0
word_at-repeated zero j = refl
word_at-repeated (suc n) zero = refl
word_at-repeated (suc n) (suc j) = word_at-repeated n j

-- zeros appended change no bit
pub word_at-append : (ws : List ℕ) (n j : ℕ) → word_at (ws ++ repeated 0 n) j ≡ word_at ws j
word_at-append [] n j = word_at-repeated n j
word_at-append (w ∷ ws) n zero = refl
word_at-append (w ∷ ws) n (suc j) = word_at-append ws n j

pub word_at-update_last :
    (f : ℕ → ℕ) (ws : List ℕ) (j : ℕ)
    → word_at (update_last f ws) j ≡ (if suc j == length ws then f (word_at ws j) else word_at ws j)
word_at-update_last f [] j = ground arith
word_at-update_last f (w ∷ []) zero = refl
word_at-update_last f (w ∷ []) (suc j) = ground arith
word_at-update_last f (w ∷ v ∷ ws) zero = ground arith
word_at-update_last f (w ∷ v ∷ ws) (suc j) = ground (arith, word_at-update_last f (v ∷ ws) j)

pub length-update_last : (f : ℕ → ℕ) (ws : List ℕ) → length (update_last f ws) ≡ length ws
length-update_last f [] = refl
length-update_last f (w ∷ []) = refl
length-update_last f (w ∷ v ∷ ws) = ap suc (length-update_last f (v ∷ ws))

pub bit-and_words :
    (ws others : List ℕ) (j k : ℕ)
    → bit (and_words ws others) j k ≡ min (bit ws j k) (bit others j k)
unfolding and_words
bit-and_words [] others j k = omega (arith, digit-zero k)
bit-and_words (w ∷ ws) [] zero k = omega (arith, digit-zero k)
bit-and_words (w ∷ ws) [] (suc j) k = bit-and_words ws [] j k
bit-and_words (w ∷ ws) (v ∷ others) zero k = digit-bit_and w v k
bit-and_words (w ∷ ws) (v ∷ others) (suc j) k = bit-and_words ws others j k

pub bit-common_words :
    (ws others : List ℕ) (j k : ℕ)
    → bit (common_words ws others) j k ≡ min (bit ws j k) (bit others j k)
unfolding common_words
bit-common_words [] others j k = omega (arith, digit-zero k)
bit-common_words (w ∷ ws) [] j k = omega (arith, digit-zero k)
bit-common_words (w ∷ ws) (v ∷ others) zero k = digit-bit_and w v k
bit-common_words (w ∷ ws) (v ∷ others) (suc j) k = bit-common_words ws others j k

pub bit-or_words :
    (ws others : List ℕ) (j k : ℕ)
    → bit (or_words ws others) j k ≡ max (bit ws j k) (bit others j k)
unfolding or_words
bit-or_words [] [] j k = omega arith
bit-or_words [] (v ∷ others) zero k = digit-bit_or 0 v k
bit-or_words [] (v ∷ others) (suc j) k = bit-or_words [] others j k
bit-or_words (w ∷ ws) [] zero k = digit-bit_or w 0 k
bit-or_words (w ∷ ws) [] (suc j) k = bit-or_words ws [] j k
bit-or_words (w ∷ ws) (v ∷ others) zero k = digit-bit_or w v k
bit-or_words (w ∷ ws) (v ∷ others) (suc j) k = bit-or_words ws others j k

pub bit-merge_words :
    (ws others : List ℕ) (j k : ℕ)
    → bit (merge_words ws others) j k ≡ max (bit ws j k) (bit others j k)
unfolding merge_words
bit-merge_words [] [] j k = omega arith
bit-merge_words [] (v ∷ others) zero k = digit-bit_or 0 v k
bit-merge_words [] (v ∷ others) (suc j) k = bit-merge_words [] others j k
bit-merge_words (w ∷ ws) [] j k = omega (arith, digit-zero k)
bit-merge_words (w ∷ ws) (v ∷ others) zero k = digit-bit_or w v k
bit-merge_words (w ∷ ws) (v ∷ others) (suc j) k = bit-merge_words ws others j k

pub word_at-map :
    (f : ℕ → ℕ) (ws : List ℕ) (j : ℕ) → j < length ws → word_at (map f ws) j ≡ f (word_at ws j)
word_at-map f [] j lt = absurd (omega arith)
word_at-map f (w ∷ ws) zero lt = refl
word_at-map f (w ∷ ws) (suc j) lt = word_at-map f ws j (omega arith)

pub word_at-not_words :
    (n : ℕ) (ws : List ℕ) (j : ℕ) → j < n → word_at (not_words n ws) j ≡ not_word (word_at ws j)
unfolding not_words
word_at-not_words zero ws j lt = absurd (omega arith)
word_at-not_words (suc n) [] zero lt = refl
word_at-not_words (suc n) [] (suc j) lt = word_at-not_words n [] j (omega arith)
word_at-not_words (suc n) (w ∷ ws) zero lt = refl
word_at-not_words (suc n) (w ∷ ws) (suc j) lt = word_at-not_words n ws j (omega arith)

pub length-and_words : (ws others : List ℕ) → length (and_words ws others) ≡ length ws
unfolding and_words
length-and_words [] others = refl
length-and_words (w ∷ ws) [] = ap suc (length-and_words ws [])
length-and_words (w ∷ ws) (v ∷ others) = ap suc (length-and_words ws others)

pub length-common_words :
    (ws others : List ℕ) → length (common_words ws others) ≡ min (length ws) (length others)
unfolding common_words
length-common_words [] others = omega arith
length-common_words (w ∷ ws) [] = omega arith
length-common_words (w ∷ ws) (v ∷ others) = omega (arith, length-common_words ws others)

pub length-or_words :
    (ws others : List ℕ) → length (or_words ws others) ≡ max (length ws) (length others)
unfolding or_words
length-or_words [] [] = refl
length-or_words [] (v ∷ others) = omega (arith, length-or_words [] others)
length-or_words (w ∷ ws) [] = omega (arith, length-or_words ws [])
length-or_words (w ∷ ws) (v ∷ others) = omega (arith, length-or_words ws others)

pub length-merge_words :
    (ws others : List ℕ) → length (merge_words ws others) ≡ max (length ws) (length others)
unfolding merge_words
length-merge_words [] [] = refl
length-merge_words [] (v ∷ others) = omega (arith, length-merge_words [] others)
length-merge_words (w ∷ ws) [] = omega arith
length-merge_words (w ∷ ws) (v ∷ others) = omega (arith, length-merge_words ws others)

pub length-not_words : (n : ℕ) (ws : List ℕ) → length (not_words n ws) ≡ n
unfolding not_words
length-not_words zero ws = refl
length-not_words (suc n) [] = ap suc (length-not_words n [])
length-not_words (suc n) (w ∷ ws) = ap suc (length-not_words n ws)

pub length-repeated : (w n : ℕ) → length (repeated w n) ≡ n
length-repeated w zero = refl
length-repeated w (suc n) = ap suc (length-repeated w n)
