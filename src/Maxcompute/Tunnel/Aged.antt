-- ===== src/Maxcompute/Tunnel/Aged.antt =====
-- crates/maxcompute-protocol/src/tunnel/session.rs: the list that an eviction sorts.
use Prim.Native.Nat.{min}
use roris_db.Prelude.{
  ℕ, zero, suc, ◌≡◌, refl, ap, ◌∙◌, Bool, true, false, ◌&&◌, List, [], ◌∷◌, ◌++◌, All, length, take,
  leb, arith, Bool-cases, inl, inr,
}
use roris_db.Bytes.{bytes_eq, bytes_eq_iff}
use roris_db.Maxcompute.Tunnel.Evict.{Aged, insert_aged, sort_aged}

abbrev pub same_kind : Bool → Bool → Bool
same_kind true true = true
same_kind false false = true
same_kind _ _ = false

-- another session
abbrev pub Differs : Aged → Aged → Type 0
Differs a b = (same_kind a.is_upload b.is_upload && bytes_eq a.id b.id) ≡ false

abbrev pub IsDistinct : List Aged → Type 0
IsDistinct [] = Unit
IsDistinct (a ∷ aged) = All (Differs a) aged × IsDistinct aged

pub All-append {ℓ} :
    (P : Aged → Type ℓ) (xs ys : List Aged) → All P xs → All P ys → All P (xs ++ ys)
All-append P [] ys hx hy = hy
All-append P (a ∷ xs) ys (here, hx) hy = (here, All-append P xs ys hx hy)

pub All-take {ℓ} : (P : Aged → Type ℓ) (n : ℕ) (aged : List Aged) → All P aged → All P (take n aged)
All-take P zero aged h = tt
All-take P (suc n) [] h = tt
All-take P (suc n) (a ∷ aged) (here, h) = (here, All-take P n aged h)

pub take-IsDistinct : (n : ℕ) (aged : List Aged) → IsDistinct aged → IsDistinct (take n aged)
take-IsDistinct zero aged h = tt
take-IsDistinct (suc n) [] h = tt
take-IsDistinct (suc n) (a ∷ aged) (here, h) =
    (All-take (Differs a) n aged here, take-IsDistinct n aged h)

pub length-take : (n : ℕ) (aged : List Aged) → length (take n aged) ≡ min n (length aged)
length-take zero aged = omega arith
length-take (suc n) [] = omega arith
length-take (suc n) (a ∷ aged) = omega (arith, length-take n aged)

pub All-insert_aged {ℓ} :
    (P : Aged → Type ℓ) (a : Aged) (aged : List Aged)
    → P a
    → All P aged
    → All P (insert_aged a aged)
unfolding insert_aged
All-insert_aged P a [] here h = (here, tt)
All-insert_aged P a (b ∷ aged) here (there, h) = elim (Bool-cases (leb a.created_at b.created_at)) [
  | inl e ↦ rw e (here, (there, h))
  | inr e ↦ rw e (there, All-insert_aged P a aged here h)
]

Differs-sym : (a b : Aged) → Differs a b → Differs b a
Differs-sym a b h = ground (arith, bytes_eq_iff a.id b.id, bytes_eq_iff b.id a.id)

pub insert_aged-IsDistinct :
    (a : Aged) (aged : List Aged)
    → All (Differs a) aged
    → IsDistinct aged
    → IsDistinct (insert_aged a aged)
unfolding insert_aged
insert_aged-IsDistinct a [] fresh h = (tt, tt)
insert_aged-IsDistinct a (b ∷ aged) (differs, fresh) (here, h) =
    elim (Bool-cases (leb a.created_at b.created_at)) [
      | inl e ↦ rw e ((differs, fresh), (here, h))
      | inr e ↦ rw e (
        All-insert_aged (Differs b) a aged (Differs-sym a b differs) here,
        insert_aged-IsDistinct a aged fresh h,
      )
    ]

pub All-sort_aged {ℓ} : (P : Aged → Type ℓ) (aged : List Aged) → All P aged → All P (sort_aged aged)
unfolding sort_aged
All-sort_aged P [] h = tt
All-sort_aged P (a ∷ aged) (here, h) =
    All-insert_aged P a (sort_aged aged) here (All-sort_aged P aged h)

pub sort_aged-IsDistinct : (aged : List Aged) → IsDistinct aged → IsDistinct (sort_aged aged)
unfolding sort_aged
sort_aged-IsDistinct [] h = tt
sort_aged-IsDistinct (a ∷ aged) (fresh, h) =
    insert_aged-IsDistinct a (sort_aged aged) (All-sort_aged (Differs a) aged fresh)
      (sort_aged-IsDistinct aged h)

pub length-insert_aged :
    (a : Aged) (aged : List Aged) → length (insert_aged a aged) ≡ suc (length aged)
unfolding insert_aged
length-insert_aged a [] = refl
length-insert_aged a (b ∷ aged) = ground (arith, length-insert_aged a aged)

pub length-sort_aged : (aged : List Aged) → length (sort_aged aged) ≡ length aged
unfolding sort_aged
length-sort_aged [] = refl
length-sort_aged (a ∷ aged) = length-insert_aged a (sort_aged aged) ∙ ap suc (length-sort_aged aged)
