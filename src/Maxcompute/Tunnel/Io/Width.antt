-- ===== src/Maxcompute/Tunnel/Io/Width.antt =====
-- crates/maxcompute-protocol/src/tunnel/io.rs: whatever the bytes, a row that is read has a value for each
-- column.
use roris_db.Prelude.{
  ℕ, zero, suc, ◌-◌, ◌/◌, ◌%◌, ◌≡◌, refl, sym, ap, ◌∙◌, ◌||◌, ◌==◌, ltb, Option, none, some, List,
  [], ◌∷◌, length, length-append, length-set, set, get_elem?, Bool-cases, Option-cases, inl, inr,
}
use roris_db.Maxcompute.Tunnel.{TunnelColumn, TunnelSchema, all_columns, column_count, Row}
use roris_db.Maxcompute.Tunnel.Square.{HasWidth}
use roris_db.Maxcompute.Tunnel.Io.{
  tunnel_end_record, tunnel_meta_count, tunnel_meta_checksum, Codec,
}
use roris_db.Maxcompute.Tunnel.Io.Read.{
  TunnelReader, Read, ok, failed, panicked, unfinished, then_read, is_at_end, read_varint,
  read_indices, nulls, mark_nulls, skip_field, read_value, read_field, read_fields, read_record,
  read_row, read_rows,
}

-- What is read has the property, if anything is.
abbrev pub Yields {ℓ κ} : {A : Type ℓ} → (A → Type κ) → Read A → Type κ
Yields P (ok a r) = P a
Yields P (failed e) = Unit
Yields P panicked = Unit
Yields P unfinished = Unit

then_read-Yields {ℓ κ ι μ} :
    {A : Type ℓ} {B : Type κ} (P : A → Type ι) (Q : B → Type μ) (p : Read A)
    (next : A → TunnelReader → Read B)
    → Yields P p
    → ((a : A) (r : TunnelReader) → P a → Yields Q (next a r))
    → Yields Q (then_read p next)
unfolding then_read
then_read-Yields P Q (ok a r) next h goes = goes a r h
then_read-Yields P Q (failed e) next h goes = tt
then_read-Yields P Q panicked next h goes = tt
then_read-Yields P Q unfinished next h goes = tt

anything {ℓ} : {A : Type ℓ} (p : Read A) → Yields (λ _. Unit {0}) p
anything (ok a r) = tt
anything (failed e) = tt
anything panicked = tt
anything unfinished = tt

length-nulls : (n : ℕ) → length (nulls n) ≡ n
length-nulls zero = refl
length-nulls (suc n) = ap suc (length-nulls n)

length-mark_nulls : (indices : List ℕ) (row : Row) → length (mark_nulls indices row) ≡ length row
length-mark_nulls [] row = refl
length-mark_nulls (i ∷ indices) row =
    length-mark_nulls indices (set row i none) ∙ length-set row i none

-- a row of so many values
abbrev IsWide : ℕ → Row → Type 0
IsWide n row = length row ≡ n

-- the same of a row that is there
abbrev IsWideRow : ℕ → Option Row → Type 0
IsWideRow n none = Unit
IsWideRow n (some row) = length row ≡ n

module _ (codec : Codec) where
  read_field-Yields :
      (n : ℕ) (columns : List TunnelColumn) (continue : Row → TunnelReader → Read Row) (row : Row)
      (field_tag : ℕ) (r : TunnelReader)
      → ((row' : Row) (r' : TunnelReader) → IsWide n row' → Yields (IsWide n) (continue row' r'))
      → IsWide n row
      → Yields (IsWide n) (read_field codec columns continue row field_tag r)
  unfolding read_field
  read_field-Yields n columns continue row field_tag r goes wide =
      elim (Bool-cases (field_tag == tunnel_end_record)) [
        | inl e ↦ rw e wide
        | inr e ↦ elim (Bool-cases (field_tag / 8 == 0 || ltb (length columns) (field_tag / 8))) [
          | inl f ↦
              rw (e, f)
                (then_read-Yields (λ _. Unit {0}) (IsWide n) (skip_field (field_tag % 8) r) _
                  (anything (skip_field (field_tag % 8) r)) (λ _ r' _. goes row r' wide))
          | inr f ↦ elim (Option-cases (get_elem? columns (field_tag / 8 - 1))) [
            | inl g ↦ rw (e, f, g) tt
            | inr (col, g) ↦
                rw (e, f, g)
                  (then_read-Yields (λ _. Unit {0}) (IsWide n) (read_value codec col.odps_type r) _
                    (anything (read_value codec col.odps_type r))
                    (λ value r' _.
                      goes (set row (field_tag / 8 - 1) (some value)) r'
                        (length-set row (field_tag / 8 - 1) (some value) ∙ wide)))
          ]
        ]
      ]

  read_fields-Yields :
      (n fuel : ℕ) (columns : List TunnelColumn) (row : Row) (r : TunnelReader)
      → IsWide n row
      → Yields (IsWide n) (read_fields codec fuel columns row r)
  unfolding read_fields
  read_fields-Yields n zero columns row r wide = tt
  read_fields-Yields n (suc fuel) columns row r wide = elim (Bool-cases (is_at_end r)) [
    | inl e ↦ rw e wide
    | inr e ↦ rw e (
        then_read-Yields (λ _. Unit {0}) (IsWide n) (read_varint r) _ (anything (read_varint r))
          (λ field_tag r' _.
            read_field-Yields n columns (read_fields codec fuel columns) row field_tag r'
              (λ row' r'' wide'. read_fields-Yields n fuel columns row' r'' wide') wide))
  ]

  read_record-Yields :
      (fuel : ℕ) (schema : TunnelSchema) (null_count : ℕ) (r : TunnelReader)
      → Yields
          (IsWideRow (length (all_columns schema)))
          (read_record codec fuel schema null_count r)
  unfolding read_record
  read_record-Yields fuel schema null_count r =
      let n : ℕ = length (all_columns schema) in
      then_read-Yields (λ _. Unit {0}) (IsWideRow n) (read_indices null_count r) _
        (anything (read_indices null_count r))
        (λ indices r' _.
          then_read-Yields (IsWide n) (IsWideRow n)
            (read_fields codec fuel (all_columns schema)
              (mark_nulls indices (nulls (column_count schema))) r')
            _
            (read_fields-Yields n fuel (all_columns schema)
              (mark_nulls indices (nulls (column_count schema))) r'
              (length-mark_nulls indices (nulls (column_count schema))
                ∙ length-nulls (column_count schema)
                ∙ sym (length-append schema.columns schema.partition_keys)))
            (λ row r'' wide. wide))

  read_row-Yields :
      (fuel : ℕ) (schema : TunnelSchema) (r : TunnelReader)
      → Yields (IsWideRow (length (all_columns schema))) (read_row codec fuel schema r)
  unfolding read_row
  read_row-Yields fuel schema r = elim (Bool-cases (is_at_end r)) [
    | inl e ↦ rw e tt
    | inr e ↦ rw e (
        then_read-Yields (λ _. Unit {0}) (IsWideRow (length (all_columns schema))) (read_varint r) _
          (anything (read_varint r))
          (λ tag r' _. elim (Bool-cases (tag == tunnel_meta_count || tag == tunnel_meta_checksum)) [
            | inl f ↦ rw f tt
            | inr f ↦ rw f (read_record-Yields fuel schema tag r')
          ]))
  ]

  -- The rows that are read have a value for each column.
  pub read_rows-Yields :
      (rounds fuel : ℕ) (schema : TunnelSchema) (r : TunnelReader)
      → Yields (HasWidth (length (all_columns schema))) (read_rows codec rounds fuel schema r)
  unfolding read_rows
  read_rows-Yields zero fuel schema r = tt
  read_rows-Yields (suc rounds) fuel schema r =
      let n : ℕ = length (all_columns schema) in
      let next : Option Row → TunnelReader → Read (List Row) = λ row r'. elim row [
        | none ↦ ok [] r'
        | some values ↦
            then_read (read_rows codec rounds fuel schema r') (λ rows r''. ok (values ∷ rows) r'')
      ] in
      then_read-Yields (IsWideRow n) (HasWidth n) (read_row codec fuel schema r) next
        (read_row-Yields fuel schema r)
        (λ row r'. elim row as (λ o. IsWideRow n o → Yields (HasWidth n) (next o r')) [
          | none ↦ λ _. tt
          | some values ↦ λ wide.
              then_read-Yields (HasWidth n) (HasWidth n) (read_rows codec rounds fuel schema r') _
                (read_rows-Yields rounds fuel schema r') (λ rows r'' rest. (wide, rest))
        ])
