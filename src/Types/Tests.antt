-- ===== src/Types/Tests.antt =====
-- The theorems about bitmaps at concrete inputs, and what `not_inplace` does on spare words.
use Prim.Native.Nat.{min, max}
use roris_db.Prelude.{
  ℕ, ◌≡◌, refl, Bool, true, false, ◌&&◌, ◌||◌, Option, none, some, List, [], ◌∷◌, length,
  if◌then◌else◌, ltb,
}
use roris_db.Types.Bitmap.{
  Bitmap, with_capacity, push, from_bools, get, set, bitand, bitor, and_inplace, or_inplace,
  not_inplace, not_bitmap,
}
use roris_db.Types.Bitmap.Valid.{IsValid, with_capacity-IsValid}
use roris_db.Types.Bitmap.Valid.Set.{Wrote, set-Wrote}
use roris_db.Types.Bitmap.Valid.Bools.{at_or_false, from_bools-get}
use roris_db.Types.Bitmap.Valid.Logic.{Combines, operators-Combines}
use roris_db.Types.Bitmap.Valid.Not.{flipped, not_bitmap-flipped}

abbrev null_flags : List Bool
null_flags = true ∷ false ∷ true ∷ []

abbrev built : Bitmap
built = (from_bools-get null_flags).0

built-IsValid : IsValid built
built-IsValid = (from_bools-get null_flags).2

from_bools-get_example :
    (result : Bitmap) × (from_bools null_flags ≡ some result)
    × IsValid result
    × (result.len ≡ length null_flags)
    × ((i : ℕ) → get i result ≡ some (at_or_false null_flags i))
from_bools-get_example = from_bools-get null_flags

set-Wrote_example :
    (result : Bitmap) × (set 130 true (with_capacity 64) ≡ some result)
    × Wrote 130 true (with_capacity 64) result
set-Wrote_example = set-Wrote 130 true (with_capacity 64) (with_capacity-IsValid 64)

operators-Combines_example :
    Combines ◌&&◌ (min built.len 0) built (with_capacity 128) (bitand built (with_capacity 128))
    × Combines ◌&&◌
        (min built.len 0)
        built
        (with_capacity 128)
        (and_inplace (with_capacity 128) built)
    × Combines ◌||◌ (max built.len 0) built (with_capacity 128) (bitor built (with_capacity 128))
    × Combines ◌||◌
        (max built.len 0)
        built
        (with_capacity 128)
        (or_inplace (with_capacity 128) built)
unfolding with_capacity
operators-Combines_example =
    operators-Combines built (with_capacity 128) built-IsValid (with_capacity-IsValid 128)

not_bitmap-flipped_example :
    IsValid (not_bitmap built)
    × ((not_bitmap built).len ≡ built.len)
    × ((i : ℕ)
        → get i (not_bitmap built)
          ≡ (if ltb i built.len then flipped (get i built) else some false))
not_bitmap-flipped_example = not_bitmap-flipped built built-IsValid

abbrev reads_second : Option Bitmap → Option Bool
reads_second none = none
reads_second (some bm) = get 1 bm

abbrev stale : Option Bitmap → Option Bool
stale none = none
stale (some bm) = reads_second (push false (not_inplace bm))

-- A bitmap with a word to spare is inverted in place; the false bit pushed then reads as true.
stale_bit : stale (push true (with_capacity 128)) ≡ some true
unfolding push with_capacity not_inplace get
stale_bit = refl
