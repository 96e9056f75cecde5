-- ===== src/Prelude/Append.antt =====
-- Indexing and writing behind a prefix.
use Prim.Native.Nat.{ℕ, suc, ◌+◌}
use mathlib.Core.Path.{◌≡◌, ap, ◌∙◌}
use mathlib.Core.List.{List, [], ◌∷◌, ◌++◌}
use native.Mathlib.Omega.{arith}
use roris_db.Prelude.Lists.{length, get_elem?, set}

module _ {ℓ} {A : Type ℓ} where
  pub get_elem?-append_right :
      (xs ys : List A) (i : ℕ) → get_elem? (xs ++ ys) (length xs + i) ≡ get_elem? ys i
  get_elem?-append_right [] ys i = ap (get_elem? ys) (omega arith)
  get_elem?-append_right (x ∷ xs) ys i =
      let step : suc (length xs) + i ≡ suc (length xs + i) = omega arith in
      ap (get_elem? (x ∷ (xs ++ ys))) step ∙ get_elem?-append_right xs ys i

  pub set-append_right :
      (xs ys : List A) (i : ℕ) (v : A) → set (xs ++ ys) (length xs + i) v ≡ xs ++ set ys i v
  set-append_right [] ys i v = ap (λ k. set ys k v) (omega arith)
  set-append_right (x ∷ xs) ys i v =
      let step : suc (length xs) + i ≡ suc (length xs + i) = omega arith in
      ap (λ k. set (x ∷ (xs ++ ys)) k v) step ∙ ap (λ s. x ∷ s) (set-append_right xs ys i v)
