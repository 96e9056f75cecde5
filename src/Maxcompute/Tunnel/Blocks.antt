-- ===== src/Maxcompute/Tunnel/Blocks.antt =====
-- crates/maxcompute-protocol/src/tunnel/session.rs: the blocks of an upload, a `BTreeMap` from numbers to
-- rows.
use roris_db.Prelude.{
  ℕ, ◌+◌, ◌<◌, ◌≡◌, refl, Option, none, some, List, [], ◌∷◌, ◌++◌, length, length-append, ltb, ◌==◌,
  if◌then◌else◌, arith, Bool-cases, inl, inr, ltb→lt,
}
use roris_db.Maxcompute.Tunnel.{Row}

-- `BTreeMap::insert`
unfoldable pub insert_block : ℕ → List Row → List (ℕ × List Row) → List (ℕ × List Row)
insert_block id rows [] = (id, rows) ∷ []
insert_block id rows ((k, old) ∷ blocks) =
    let rest = insert_block id rows blocks in
    if id == k
    then (k, rows) ∷ blocks
    else if ltb id k
    then (id, rows) ∷ (k, old) ∷ blocks
    else (k, old) ∷ rest

abbrev pub block_ids : List (ℕ × List Row) → List ℕ
block_ids [] = []
block_ids ((k, rows) ∷ blocks) = k ∷ block_ids blocks

abbrev pub all_rows : List (ℕ × List Row) → List Row
all_rows [] = []
all_rows ((k, rows) ∷ blocks) = rows ++ all_rows blocks

abbrev pub total_records : List (ℕ × List Row) → ℕ
total_records [] = 0
total_records ((k, rows) ∷ blocks) = length rows + total_records blocks

-- the rows of a block
unfoldable pub rows_of : ℕ → List (ℕ × List Row) → Option (List Row)
rows_of id [] = none
rows_of id ((k, rows) ∷ blocks) =
    let rest = rows_of id blocks in if id == k then some rows else rest

-- Every number in the list is above `k`.
abbrev pub Above : ℕ → List (ℕ × List Row) → Type 0
Above k [] = Unit
Above k ((j, rows) ∷ blocks) = (k < j) × Above k blocks

-- The numbers ascend.
abbrev pub IsAscending : List (ℕ × List Row) → Type 0
IsAscending [] = Unit
IsAscending ((k, rows) ∷ blocks) = Above k blocks × IsAscending blocks

pub rows_of-insert_block :
    (id : ℕ) (rows : List Row) (blocks : List (ℕ × List Row)) (k : ℕ)
    → rows_of k (insert_block id rows blocks) ≡ (if k == id then some rows else rows_of k blocks)
unfolding rows_of insert_block
rows_of-insert_block id rows [] k = refl
rows_of-insert_block id rows ((j, old) ∷ blocks) k =
    ground (arith, rows_of-insert_block id rows blocks k)

Above-insert_block :
    (k id : ℕ) (rows : List Row) (blocks : List (ℕ × List Row))
    → k < id
    → Above k blocks
    → Above k (insert_block id rows blocks)
unfolding insert_block
Above-insert_block k id rows [] lt above = (lt, tt)
Above-insert_block k id rows ((j, old) ∷ blocks) lt (here, above) =
    ground (arith, Above-insert_block k id rows blocks lt above)

Above-below : (k j : ℕ) (blocks : List (ℕ × List Row)) → k < j → Above j blocks → Above k blocks
Above-below k j [] lt above = tt
Above-below k j ((i, rows) ∷ blocks) lt (here, above) =
    (omega arith, Above-below k j blocks lt above)

pub insert_block-IsAscending :
    (id : ℕ) (rows : List Row) (blocks : List (ℕ × List Row))
    → IsAscending blocks
    → IsAscending (insert_block id rows blocks)
unfolding insert_block
insert_block-IsAscending id rows [] h = (tt, tt)
insert_block-IsAscending id rows ((k, old) ∷ blocks) (above, h) = elim (Bool-cases (id == k)) [
  | inl same ↦ rw same (above, h)
  | inr other ↦ elim (Bool-cases (ltb id k)) [
    | inl below ↦
        let lt : id < k = ltb→lt id k below in
        rw (other, below) ((lt, Above-below id k blocks lt above), (above, h))
    | inr past ↦
        let lt : k < id = ground arith in
        rw (other, past)
          (Above-insert_block k id rows blocks lt above, insert_block-IsAscending id rows blocks h)
  ]
]

pub length-all_rows :
    (blocks : List (ℕ × List Row)) → length (all_rows blocks) ≡ total_records blocks
length-all_rows [] = refl
length-all_rows ((k, rows) ∷ blocks) =
    omega (arith, length-append rows (all_rows blocks), length-all_rows blocks)
