-- ===== src/Bytes/Words.antt =====
-- `str::split_whitespace` over UTF-8 bytes: the runs between characters of the Unicode property
-- White_Space.
use roris_db.Prelude.{
  ℕ, zero, suc, ◌≡◌, refl, Bool, ◌&&◌, ◌||◌, List, [], ◌∷◌, ◌++◌, leb, ◌==◌, if◌then◌else◌,
}

-- the last byte of a white-space character that begins with the bytes 0xE2 `b`
abbrev e2_white : ℕ → ℕ → Bool
e2_white b c =
    b == 0x80 && (leb 0x80 c && leb c 0x8A || c == 0xA8 || c == 0xA9 || c == 0xAF)
    || b == 0x81 && c == 0x9F

-- How many bytes the white-space character at the front has; 0 if there is none.
unfoldable pub white : List ℕ → ℕ
white [] = 0
white (a ∷ []) = if leb 9 a && leb a 13 || a == 32 then 1 else 0
white (a ∷ b ∷ []) =
    if leb 9 a && leb a 13 || a == 32
    then 1
    else if a == 0xC2 && (b == 0x85 || b == 0xA0)
    then 2
    else 0
white (a ∷ b ∷ c ∷ s) =
    if leb 9 a && leb a 13 || a == 32
    then 1
    else if a == 0xC2 && (b == 0x85 || b == 0xA0)
    then 2
    else if a == 0xE1 && b == 0x9A && c == 0x80
        || a == 0xE2 && e2_white b c
        || a == 0xE3 && b == 0x80 && c == 0x80
    then 3
    else 0

abbrev flush : List ℕ → List (List ℕ)
flush [] = []
flush (b ∷ s) = (b ∷ s) ∷ []

-- `skip` bytes of a white-space character are still to be passed over; `word` is the run so far.
unfoldable pub words : ℕ → List ℕ → List ℕ → List (List ℕ)
unfolding white
words skip word [] = flush word
words zero word (b ∷ s) = elim (white (b ∷ s)) [
  | zero ↦ words zero (word ++ b ∷ []) s
  | suc k ↦ flush word ++ words k [] s
]
words (suc k) word (b ∷ s) = words k word s

unfoldable pub split_whitespace : List ℕ → List (List ℕ)
unfolding words
split_whitespace s = words 0 [] s

split_two :
    split_whitespace (32 ∷ 80 ∷ 81 ∷ 9 ∷ 0xE3 ∷ 0x80 ∷ 0x80 ∷ 82 ∷ [])
    ≡ (80 ∷ 81 ∷ []) ∷ (82 ∷ []) ∷ []
unfolding split_whitespace
split_two = refl
