-- ===== src/Bytes/Utf8.antt =====
-- `std::str::from_utf8`: the byte sequences of Unicode Table 3-7. The state of the scan is the
-- number of continuation bytes that are due, with the range of the next one.
use roris_db.Prelude.{
  ℕ, zero, suc, ◌<◌, ◌≡◌, refl, Bool, true, false, ◌&&◌, Option, none, some, List, [], ◌∷◌, arith,
  ltb, leb, ◌==◌, if◌then◌else◌, All,
}

pub record Due : Type 0 where
  pub count : ℕ
  pub low : ℕ
  pub high : ℕ

abbrev pub due : ℕ → ℕ → ℕ → Due
due n lo hi = record { count = n; low = lo; high = hi }

-- the state after one more byte, if the byte may stand there
unfoldable pub utf8_step : ℕ → ℕ → ℕ → ℕ → Option Due
utf8_step zero lo hi b =
    if ltb b 0x80
    then some (due 0 0 0)
    else if leb 0xC2 b && leb b 0xDF
    then some (due 1 0x80 0xBF)
    else if b == 0xE0
    then some (due 2 0xA0 0xBF)
    else if b == 0xED
    then some (due 2 0x80 0x9F)
    else if leb 0xE1 b && leb b 0xEF
    then some (due 2 0x80 0xBF)
    else if b == 0xF0
    then some (due 3 0x90 0xBF)
    else if leb 0xF1 b && leb b 0xF3
    then some (due 3 0x80 0xBF)
    else if b == 0xF4
    then some (due 3 0x80 0x8F)
    else none
utf8_step (suc n) lo hi b = if leb lo b && leb b hi then some (due n 0x80 0xBF) else none

unfoldable pub utf8_scan : Due → List ℕ → Bool
unfolding utf8_step
utf8_scan d [] = d.count == 0
utf8_scan d (b ∷ s) = elim (utf8_step d.count d.low d.high b) [
  | none ↦ false
  | some d' ↦ utf8_scan d' s
]

unfoldable pub is_utf8 : List ℕ → Bool
unfolding utf8_scan
is_utf8 s = utf8_scan (due 0 0 0) s

-- The text, if the bytes are one.
unfoldable pub from_utf8 : List ℕ → Option (List ℕ)
unfolding is_utf8
from_utf8 s = if is_utf8 s then some s else none

utf8_scan_ascii : (s : List ℕ) → All (λ b. b < 0x80) s → utf8_scan (due 0 0 0) s ≡ true
unfolding utf8_scan
utf8_scan_ascii [] h = refl
utf8_scan_ascii (b ∷ s) h = ground (arith, utf8_scan_ascii s)

pub is_utf8_of_ascii : (s : List ℕ) → All (λ b. b < 0x80) s → is_utf8 s ≡ true
unfolding is_utf8
is_utf8_of_ascii s h = utf8_scan_ascii s h

pub from_utf8_valid : (s : List ℕ) → is_utf8 s ≡ true → from_utf8 s ≡ some s
unfolding from_utf8
from_utf8_valid s h = rw h

pub from_utf8_of_ascii : (s : List ℕ) → All (λ b. b < 0x80) s → from_utf8 s ≡ some s
from_utf8_of_ascii s h = from_utf8_valid s (is_utf8_of_ascii s h)
