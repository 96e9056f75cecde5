-- ===== src/Types/Bitmap/Valid/Set.antt =====
-- crates/types/src/bitmap.rs: a bit that is set, and a bit that is pushed.
use Prim.Native.Nat.{min, max}
use mathlib.Core.Path.{subst}
use roris_db.Prelude.{
  ℕ, ◌+◌, ◌-◌, ◌*◌, ◌/◌, ◌%◌, ◌^◌, ◌≤◌, ◌<◌, ◌≡◌, refl, sym, ap, ◌∙◌, Bool, true, false, some, List,
  ◌++◌, length, length-append, length-set, ==_iff, set as set_elem, leb, ◌==◌, if◌then◌else◌, arith,
  Bool-cases, inl, inr,
}
use roris_db.Bytes.Bits.{digit}
use roris_db.Types.Bitmap.{Bitmap, repeated, word_at, push, get, set, changed}
use roris_db.Types.Bitmap.Words.{bit, update_lem, word_at-set, word_at-append, length-repeated}
use roris_db.Types.Bitmap.Valid.{IsValid, word_bound, get_lem, is_one, to_digit, digit-changed}

abbrev grown : Bool → ℕ → List ℕ → List ℕ
grown c n ws = if c then ws ++ repeated 0 n else ws

word_at-grown : (c : Bool) (n : ℕ) (ws : List ℕ) (j : ℕ) → word_at (grown c n ws) j ≡ word_at ws j
word_at-grown true n ws j = word_at-append ws n j
word_at-grown false n ws j = refl

length-grown :
    (n : ℕ) (ws : List ℕ) (i : ℕ) → i < length ws + n → i < length (grown (leb (length ws) i) n ws)
length-grown n ws i lt = elim (Bool-cases (leb (length ws) i)) [
  | inl e ↦ rw e (omega (arith, length-append ws (repeated 0 n), length-repeated 0 n))
  | inr e ↦ rw e (ground arith)
]

length-grown_le : (c : Bool) (n : ℕ) (ws : List ℕ) → length ws ≤ length (grown c n ws)
length-grown_le true n ws = omega (arith, length-append ws (repeated 0 n))
length-grown_le false n ws = omega arith

-- One more word has room for one more bit.
room : (bm : Bitmap) → IsValid bm → bm.len / 64 < length bm.words + 1
unfolding IsValid
room bm valid = omega (arith, valid.0)

-- `gs` is `ws` with words of zeros behind it.
module _ (ws gs : List ℕ) (same : (j : ℕ) → word_at gs j ≡ word_at ws j) (val : Bool) (i : ℕ)
    (inside : i / 64 < length gs) (small : word_at ws (i / 64) < 2 ^ 64) where
  abbrev written : List ℕ
  written = set_elem gs (i / 64) (changed val (i % 64) (word_at gs (i / 64)))

  word_at-written :
      (j : ℕ)
      → word_at written j
        ≡ (if j == i / 64 then changed val (i % 64) (word_at ws j) else word_at ws j)
  word_at-written j = elim (Bool-cases (j == i / 64)) [
    | inl e ↦
        let at : j ≡ i / 64 = (==_iff j (i / 64)).0 e in
        word_at-set gs (i / 64) (changed val (i % 64) (word_at gs (i / 64))) j inside
        ∙ rw e (ap (changed val (i % 64)) (same (i / 64) ∙ ap (word_at ws) (sym at)))
    | inr e ↦
        word_at-set gs (i / 64) (changed val (i % 64) (word_at gs (i / 64))) j inside
        ∙ rw e (same j)
  ]

  bit-written :
      (j k : ℕ)
      → bit written j k
        ≡ (if j == i / 64 then if k == i % 64 then to_digit val else bit ws j k else bit ws j k)
  bit-written j k = elim (Bool-cases (j == i / 64)) [
    | inl e ↦
        let at : i / 64 ≡ j = sym ((==_iff j (i / 64)).0 e) in
        ap (λ w. digit w k) (word_at-written j)
        ∙ rw e (
            digit-changed val (i % 64) (word_at ws j) k (omega arith)
              (subst (λ x. word_at ws x < 2 ^ 64) at small))
    | inr e ↦ ap (λ w. digit w k) (word_at-written j) ∙ rw e refl
  ]

-- The result of a write to bit `i`.
unfoldable pub Wrote : ℕ → Bool → Bitmap → Bitmap → Type 0
Wrote i val bm result =
    IsValid result
    × (result.len ≡ max bm.len (i + 1))
    × ((j : ℕ) → get j result ≡ (if j == i then some val else get j bm))

is_one-to_digit : (val : Bool) → is_one (to_digit val) ≡ val
is_one-to_digit true = refl
is_one-to_digit false = refl

module _ (bm : Bitmap) (valid : IsValid bm) (gs : List ℕ) (n : ℕ)
    (same : (j : ℕ) → word_at gs j ≡ word_at bm.words j) (longer : length bm.words ≤ length gs)
    (val : Bool) (i : ℕ) (inside : i / 64 < length gs) (extended : n ≡ max bm.len (i + 1)) where
  abbrev result : Bitmap
  result = record {
    words = set_elem gs (i / 64) (changed val (i % 64) (word_at gs (i / 64)));
    len = n;
  }

  bit-result :
      (j k : ℕ)
      → bit result.words j k ≡ (
          if j == i / 64
          then if k == i % 64 then to_digit val else bit bm.words j k
          else bit bm.words j k)
  unfolding IsValid
  bit-result =
      bit-written bm.words gs same val i inside (word_bound bm.words bm.len (i / 64) valid.1)

  result_clean : (j k : ℕ) → min n (64 * j + 64) ≤ 64 * j + k → bit result.words j k ≡ 0
  unfolding IsValid
  result_clean j k le =
      let before : bit bm.words j k ≡ 0 = valid.1 j k (omega arith) in
      grind (arith, bit-result j k, before)

  result-IsValid : IsValid result
  unfolding IsValid
  result-IsValid =
      let size : length result.words ≡ length gs = length-set gs (i / 64) _ in
      let fits : n ≤ 64 * length result.words = omega (arith, valid.0, size, inside, longer) in
      (fits, result_clean)

  other_bit :
      (j : ℕ)
      → (j == i) ≡ false
      → bit result.words (j / 64) (j % 64) ≡ bit bm.words (j / 64) (j % 64)
  other_bit j e = elim (Bool-cases (j / 64 == i / 64)) [
    | inl word ↦
        let place : (j % 64 == i % 64) ≡ false = ground arith in
        bit-result (j / 64) (j % 64) ∙ rw (word, place) refl
    | inr word ↦ bit-result (j / 64) (j % 64) ∙ rw word refl
  ]

  get-result : (j : ℕ) → get j result ≡ (if j == i then some val else get j bm)
  get-result j = elim (Bool-cases (j == i)) [
    | inl e ↦
        let at : j ≡ i = (==_iff j i).0 e in
        let word : (j / 64 == i / 64) ≡ true = ground arith in
        let place : (j % 64 == i % 64) ≡ true = ground arith in
        get_lem j result result-IsValid
        ∙ rw (bit-result (j / 64) (j % 64), word, place, e) (ap some (is_one-to_digit val))
    | inr e ↦
        get_lem j result result-IsValid
        ∙ ap (λ d. some (is_one d)) (other_bit j e)
        ∙ rw e (sym (get_lem j bm valid))
  ]

-- the bitmap with a false bit pushed
abbrev unwritten : Bitmap → List ℕ → Bitmap
unwritten bm gs = record { words = gs; len = bm.len + 1 }

module _ (bm : Bitmap) (valid : IsValid bm) (gs : List ℕ)
    (same : (j : ℕ) → word_at gs j ≡ word_at bm.words j) (inside : bm.len / 64 < length gs) where
  unwritten_clean : (j k : ℕ) → min (bm.len + 1) (64 * j + 64) ≤ 64 * j + k → bit gs j k ≡ 0
  unfolding IsValid
  unwritten_clean j k le = ap (λ w. digit w k) (same j) ∙ valid.1 j k (omega arith)

  unwritten-IsValid : IsValid (unwritten bm gs)
  unfolding IsValid
  unwritten-IsValid = (omega arith, unwritten_clean)

  get-unwritten : (j : ℕ) → get j (unwritten bm gs) ≡ (if j == bm.len then some false else get j bm)
  unfolding IsValid
  get-unwritten j =
      let here : bit gs (j / 64) (j % 64) ≡ bit bm.words (j / 64) (j % 64) =
        ap (λ w. digit w (j % 64)) (same (j / 64)) in
      get_lem j (unwritten bm gs) unwritten-IsValid
      ∙ ap (λ d. some (is_one d)) here
      ∙ elim (Bool-cases (j == bm.len)) [
        | inl e ↦ rw (e, valid.1 (j / 64) (j % 64) (ground arith)) refl
        | inr e ↦ rw e (sym (get_lem j bm valid))
      ]

-- Setting a bit of a valid bitmap finds its word, and the result is valid: its length reaches past the
-- bit, the bit reads as it was set, and every other index reads as before.
pub set-Wrote :
    (i : ℕ) (val : Bool) (bm : Bitmap)
    → IsValid bm
    → (result : Bitmap) × (set i val bm ≡ some result) × Wrote i val bm result
unfolding Wrote set
set-Wrote i val bm valid =
    let ws : List ℕ = bm.words in
    let more : ℕ = i / 64 + 1 - length ws in
    let gs : List ℕ = grown (leb (length ws) (i / 64)) more ws in
    let n : ℕ = if leb bm.len i then i + 1 else bm.len in
    let same : (j : ℕ) → word_at gs j ≡ word_at ws j =
      word_at-grown (leb (length ws) (i / 64)) more ws in
    let longer : length ws ≤ length gs = length-grown_le (leb (length ws) (i / 64)) more ws in
    let inside : i / 64 < length gs = length-grown more ws (i / 64) (omega arith) in
    let extended : n ≡ max bm.len (i + 1) = ground arith in
    (
      result bm valid gs n same longer val i inside extended,
      rw (update_lem (changed val (i % 64)) gs (i / 64) inside, set) refl,
      (
        result-IsValid bm valid gs n same longer val i inside extended,
        extended,
        get-result bm valid gs n same longer val i inside extended,
      ),
    )

-- A bit pushed onto a valid bitmap is the bit set at its length: the result is valid and one bit longer,
-- the new bit reads as it was pushed, and every other index reads as before.
pub push-Wrote :
    (val : Bool) (bm : Bitmap)
    → IsValid bm
    → (result : Bitmap) × (push val bm ≡ some result) × Wrote bm.len val bm result
unfolding Wrote push
push-Wrote true bm valid =
    let ws : List ℕ = bm.words in
    let i : ℕ = bm.len in
    let gs : List ℕ = grown (leb (length ws) (i / 64)) 1 ws in
    let same : (j : ℕ) → word_at gs j ≡ word_at ws j =
      word_at-grown (leb (length ws) (i / 64)) 1 ws in
    let longer : length ws ≤ length gs = length-grown_le (leb (length ws) (i / 64)) 1 ws in
    let inside : i / 64 < length gs = length-grown 1 ws (i / 64) (room bm valid) in
    let extended : i + 1 ≡ max i (i + 1) = omega arith in
    (
      result bm valid gs (i + 1) same longer true i inside extended,
      rw (update_lem (changed true (i % 64)) gs (i / 64) inside, push) refl,
      (
        result-IsValid bm valid gs (i + 1) same longer true i inside extended,
        extended,
        get-result bm valid gs (i + 1) same longer true i inside extended,
      ),
    )
push-Wrote false bm valid =
    let ws : List ℕ = bm.words in
    let i : ℕ = bm.len in
    let gs : List ℕ = grown (leb (length ws) (i / 64)) 1 ws in
    let same : (j : ℕ) → word_at gs j ≡ word_at ws j =
      word_at-grown (leb (length ws) (i / 64)) 1 ws in
    let inside : i / 64 < length gs = length-grown 1 ws (i / 64) (room bm valid) in
    (
      unwritten bm gs,
      refl,
      (
        unwritten-IsValid bm valid gs same inside,
        omega arith,
        get-unwritten bm valid gs same inside,
      ),
    )
