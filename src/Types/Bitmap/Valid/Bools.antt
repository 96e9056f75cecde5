-- ===== src/Types/Bitmap/Valid/Bools.antt =====
-- crates/types/src/bitmap.rs: a bitmap that is built from a slice of bools.
use roris_db.Prelude.{
  ℕ, zero, suc, ◌+◌, ◌-◌, ◌≡◌, refl, ◌∙◌, Bool, true, false, some, List, [], ◌∷◌, length, ltb, leb,
  ◌==◌, if◌then◌else◌, arith, Bool-cases, inl, inr,
}
use roris_db.Types.Bitmap.{Bitmap, with_capacity, push_all, from_bools, get}
use roris_db.Types.Bitmap.Valid.{IsValid, with_capacity-IsValid}
use roris_db.Types.Bitmap.Valid.Set.{Wrote, push-Wrote}

-- the element, false past the end
abbrev pub at_or_false : List Bool → ℕ → Bool
at_or_false [] i = false
at_or_false (b ∷ bools) zero = b
at_or_false (b ∷ bools) (suc i) = at_or_false bools i

-- `result` holds the bits of `bm`, and then those of `bools`.
pub Appended : List Bool → Bitmap → Bitmap → Type 0
Appended bools bm result =
    IsValid result
    × (result.len ≡ bm.len + length bools)
    × ((i : ℕ)
        → get i result ≡ (if ltb i bm.len then get i bm else some (at_or_false bools (i - bm.len))))

get_past : (i : ℕ) (bm : Bitmap) → get i bm ≡ (if ltb i bm.len then get i bm else some false)
unfolding get
get_past i bm = elim (Bool-cases (ltb i bm.len)) [
  | inl e ↦ rw e refl
  | inr e ↦ let past : leb bm.len i ≡ true = ground arith in rw (e, past) refl
]

-- What holds after the first bit is pushed and then the others holds of them together.
Appended-step :
    (b : Bool) (bools : List Bool) (bm mid result : Bitmap)
    → Wrote bm.len b bm mid
    → Appended bools mid result
    → Appended (b ∷ bools) bm result
unfolding Wrote Appended
Appended-step b bools bm mid result (_, len_mid, get_mid) (valid, len_result, get_result) = (
  valid,
  omega arith,
  λ i. elim (Bool-cases (ltb i bm.len)) [
    | inl e ↦
        let below : ltb i mid.len ≡ true = ground arith in
        let other : (i == bm.len) ≡ false = ground arith in
        get_result i ∙ rw (below, e) (get_mid i ∙ rw other refl)
    | inr e ↦
        get_result i
        ∙ rw e (elim (Bool-cases (i == bm.len)) [
          | inl at ↦
              let below : ltb i mid.len ≡ true = ground arith in
              let first : i - bm.len ≡ 0 = ground arith in
              rw (below, first) (get_mid i ∙ rw at refl)
          | inr at ↦
              let past : ltb i mid.len ≡ false = ground arith in
              let later : i - bm.len ≡ suc (i - mid.len) = ground arith in rw (past, later) refl
        ])
  ],
)

-- Bits pushed one after the other stand behind those of a valid bitmap, in their order.
pub push_all-Appended :
    (bools : List Bool) (bm : Bitmap)
    → IsValid bm
    → (result : Bitmap) × (push_all bools bm ≡ some result) × Appended bools bm result
unfolding push_all Wrote Appended
push_all-Appended [] bm valid = (bm, refl, (valid, omega arith, λ i. get_past i bm))
push_all-Appended (b ∷ bools) bm valid =
    let (mid, pushed, wrote) = push-Wrote b bm valid in
    let (result, rest, appended) = push_all-Appended bools mid wrote.0 in
    (result, rw (pushed, push_all) rest, Appended-step b bools bm mid result wrote appended)

-- A bitmap built from a slice of bools exists, is valid, has the slice's length, and reads at every index
-- as the slice does, false past its end.
pub from_bools-get :
    (bools : List Bool)
    → (result : Bitmap) × (from_bools bools ≡ some result)
      × IsValid result
      × (result.len ≡ length bools)
      × ((i : ℕ) → get i result ≡ some (at_or_false bools i))
unfolding from_bools Appended with_capacity
from_bools-get bools =
    let no_prefix : (i : ℕ)
        → (if ltb i 0
            then get i (with_capacity (length bools))
            else some (at_or_false bools (i - 0)))
          ≡ some (at_or_false bools i) =
      λ i.
        let above : ltb i 0 ≡ false = ground arith in
        let whole : i - 0 ≡ i = omega arith in rw (above, whole) refl in
    let fresh : Bitmap = with_capacity (length bools) in
    let (result, built, appended) =
      push_all-Appended bools fresh (with_capacity-IsValid (length bools)) in
    (result, built, appended.0, omega (arith, appended.1), λ i. appended.2 i ∙ no_prefix i)
