-- ===== src/Table.antt =====
-- Rust's `HashMap<String, V>`, `DashMap<String, V>` and, at the unit type, `HashSet<String>`, as
-- association lists. The order of iteration is unspecified in Rust; here it is the list's.
use roris_db.Prelude.{
  suc, ◌≡◌, refl, Bool, true, false, Option, none, some, List, [], ◌∷◌, length, arith,
  if◌then◌else◌, Bool-cases, inl, inr,
}
use roris_db.Bytes.{Bytes, bytes_eq, bytes_eq_iff, bytes_eq_refl}

abbrev pub Table {ℓ} : Type ℓ → Type ℓ
Table V = List (Bytes × V)

module _ {ℓ} {V : Type ℓ} where
  unfoldable pub lookup : Bytes → Table V → Option V
  lookup k [] = none
  lookup k ((j, v) ∷ m) = let rest = lookup k m in if bytes_eq j k then some v else rest

  unfoldable pub contains_key : Bytes → Table V → Bool
  contains_key k m = elim (lookup k m) [ none ↦ false | some v ↦ true ]

  unfoldable pub insert : Bytes → V → Table V → Table V
  insert k v [] = (k, v) ∷ []
  insert k v ((j, w) ∷ m) =
      let rest = insert k v m in if bytes_eq j k then (j, v) ∷ m else (j, w) ∷ rest

  unfoldable pub remove : Bytes → Table V → Table V
  remove k [] = []
  remove k ((j, w) ∷ m) = let rest = remove k m in if bytes_eq j k then rest else (j, w) ∷ rest

  unfoldable pub keys : Table V → List Bytes
  keys [] = []
  keys ((j, v) ∷ m) = j ∷ keys m

  unfoldable pub values : Table V → List V
  values [] = []
  values ((j, v) ∷ m) = v ∷ values m

  pub lookup-insert :
      (k j : Bytes) (v : V) (m : Table V)
      → lookup j (insert k v m) ≡ (if bytes_eq k j then some v else lookup j m)
  unfolding lookup insert
  lookup-insert k j v [] = refl
  lookup-insert k j v ((i, w) ∷ m) =
      ground (arith, bytes_eq_iff k j, bytes_eq_iff i k, bytes_eq_iff i j, lookup-insert k j v m)

  pub lookup-remove :
      (k j : Bytes) (m : Table V)
      → lookup j (remove k m) ≡ (if bytes_eq k j then none else lookup j m)
  unfolding lookup remove
  lookup-remove k j [] = ground arith
  lookup-remove k j ((i, w) ∷ m) =
      ground (arith, bytes_eq_iff k j, bytes_eq_iff i k, bytes_eq_iff i j, lookup-remove k j m)

  pub lookup-empty : (k : Bytes) → lookup k [] ≡ none
  unfolding lookup
  lookup-empty k = refl

  -- No key stands twice.
  abbrev pub HasUniqueKeys : Table V → Type ℓ
  HasUniqueKeys [] = Unit
  HasUniqueKeys ((j, v) ∷ m) = (lookup j m ≡ none) × HasUniqueKeys m

  pub insert-HasUniqueKeys :
      (k : Bytes) (v : V) (m : Table V) → HasUniqueKeys m → HasUniqueKeys (insert k v m)
  unfolding insert
  insert-HasUniqueKeys k v [] h = (lookup-empty k, tt)
  insert-HasUniqueKeys k v ((j, w) ∷ m) h = elim (Bool-cases (bytes_eq j k)) [
    | inl same ↦ rw same h
    | inr other ↦ rw other (
      ground
          (arith, h.0, lookup-insert k j v m, bytes_eq_iff k j, bytes_eq_iff j k, bytes_eq_refl j),
      insert-HasUniqueKeys k v m h.1,
    )
  ]

  pub remove-HasUniqueKeys :
      (k : Bytes) (m : Table V) → HasUniqueKeys m → HasUniqueKeys (remove k m)
  unfolding remove
  remove-HasUniqueKeys k [] h = tt
  remove-HasUniqueKeys k ((j, w) ∷ m) h = elim (Bool-cases (bytes_eq j k)) [
    | inl same ↦ rw same (remove-HasUniqueKeys k m h.1)
    | inr other ↦ rw other (ground (arith, h.0, lookup-remove k j m), remove-HasUniqueKeys k m h.1)
  ]

  pub length-insert :
      (k : Bytes) (v : V) (m : Table V)
      → length (insert k v m) ≡ (if contains_key k m then length m else suc (length m))
  unfolding insert contains_key lookup
  length-insert k v [] = refl
  length-insert k v ((j, w) ∷ m) = ground (arith, length-insert k v m)

  pub remove_absent : (k : Bytes) (m : Table V) → lookup k m ≡ none → remove k m ≡ m
  unfolding remove lookup
  remove_absent k [] h = refl
  remove_absent k ((j, w) ∷ m) h = ground (arith, remove_absent k m)

  -- One entry less, if there was one.
  pub length-remove :
      (k : Bytes) (m : Table V)
      → HasUniqueKeys m
      → (if contains_key k m then suc (length (remove k m)) else length (remove k m)) ≡ length m
  unfolding remove contains_key lookup
  length-remove k [] h = refl
  length-remove k ((j, w) ∷ m) h =
      ground (arith, length-remove k m h.1, bytes_eq_iff j k, remove_absent k m, h.0)
