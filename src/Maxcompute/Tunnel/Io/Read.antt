-- ===== src/Maxcompute/Tunnel/Io/Read.antt =====
-- crates/maxcompute-protocol/src/tunnel/io.rs: `TunnelReader`. The loops are on fuel: a field of an unknown
-- column can send the reader back.
use roris_db.Prelude.{
  ℕ, zero, suc, ◌+◌, ◌-◌, ◌/◌, ◌%◌, ◌^◌, Bool, ◌||◌, Option, none, some, List, [], ◌∷◌, inl, inr,
  length, take, drop, set, get_elem?, ltb, leb, ◌==◌, if◌then◌else◌,
}
use roris_db.Bytes.{Bytes, str}
use roris_db.Bytes.Decimal.{int_to_string}
use roris_db.Bytes.Endian.{from_le}
use roris_db.Maxcompute.Tunnel.{TunnelColumn, TunnelSchema, all_columns, column_count, Row}
use roris_db.Maxcompute.Tunnel.Varint.{
  IoError, truncated, unknown_wire_type, decode_varint, zigzag_decode,
}
use roris_db.Maxcompute.Tunnel.Io.{
  tunnel_end_record, tunnel_meta_count, tunnel_meta_checksum, Codec, wire_type_varint,
  wire_type_fixed64, wire_type_length_delimited, wire_type_fixed32, FieldKind, integer, boolean,
  float, double, binary, text, kind_of,
}

pub record TunnelReader : Type 0 where
  pub bytes : Bytes
  pub pos : ℕ

-- what a method returns, with the reader that it leaves; `unfinished` is fuel that has run out
pub data Read {ℓ} (A : Type ℓ) : Type ℓ where
  ok : A → TunnelReader → Read A
  failed : IoError → Read A
  panicked unfinished : Read A

-- `?`
unfoldable pub then_read {ℓ κ} :
    {A : Type ℓ} {B : Type κ} → Read A → (A → TunnelReader → Read B) → Read B
then_read (ok a r) next = next a r
then_read (failed e) next = failed e
then_read panicked next = panicked
then_read unfinished next = unfinished

-- the bytes from the position on
abbrev pub remaining : TunnelReader → Bytes
remaining r = drop r.pos r.bytes

abbrev pub is_at_end : TunnelReader → Bool
is_at_end r = leb (length r.bytes) r.pos

unfoldable pub read_varint : TunnelReader → Read ℕ
read_varint r = elim (decode_varint (remaining r)) [
  | inl e ↦ failed e
  | inr (val, consumed) ↦ ok val (record r { pos = r.pos + consumed })
]

-- so many bytes, a number of four or eight
unfoldable pub read_fixed : ℕ → TunnelReader → Read Bytes
read_fixed n r =
    if ltb (length r.bytes) (r.pos + n)
    then failed truncated
    else ok (take n (remaining r)) (record r { pos = r.pos + n })

-- `self.data[self.pos..self.pos + len]`, where the sum wraps around
unfoldable pub read_slice : ℕ → TunnelReader → Read Bytes
read_slice len r =
    let end : ℕ = (r.pos + len) % 2 ^ 64 in
    if ltb (length r.bytes) end
    then failed truncated
    else if ltb end r.pos
    then panicked
    else ok (take len (remaining r)) (record r { pos = end })

unfoldable pub read_sized : TunnelReader → Read Bytes
unfolding read_varint read_slice then_read
read_sized r = then_read (read_varint r) read_slice

unfoldable pub skip_field : ℕ → TunnelReader → Read (Unit {0})
unfolding read_varint read_fixed then_read
skip_field wire_type r =
    if wire_type == wire_type_varint
    then then_read (read_varint r) (λ val r'. ok tt r')
    else if wire_type == wire_type_fixed64
    then then_read (read_fixed 8 r) (λ s r'. ok tt r')
    else if wire_type == wire_type_length_delimited
    then then_read (read_varint r) (λ len r'.
      let end : ℕ = (r'.pos + len) % 2 ^ 64 in
      if ltb (length r'.bytes) end then failed truncated else ok tt (record r' { pos = end }))
    else if wire_type == wire_type_fixed32
    then then_read (read_fixed 4 r) (λ s r'. ok tt r')
    else failed unknown_wire_type

-- `null_count` indices
unfoldable pub read_indices : ℕ → TunnelReader → Read (List ℕ)
unfolding read_varint then_read
read_indices zero r = ok [] r
read_indices (suc null_count) r =
    then_read (read_varint r)
      (λ idx r'. then_read (read_indices null_count r') (λ indices r''. ok (idx ∷ indices) r''))

-- `vec![None; col_count]`
abbrev pub nulls : ℕ → Row
nulls zero = []
nulls (suc n) = none ∷ nulls n

-- A write out of bounds changes nothing, as the test `idx < col_count` has it.
abbrev pub mark_nulls : List ℕ → Row → Row
mark_nulls [] row = row
mark_nulls (idx ∷ indices) row = mark_nulls indices (set row idx none)

-- the position behind a record's checksum, where there is one
abbrev pub skip_crc : TunnelReader → TunnelReader
skip_crc r = if leb (r.pos + 4) (length r.bytes) then record r { pos = r.pos + 4 } else r

module _ (codec : Codec) where
  unfoldable pub read_kind : FieldKind → TunnelReader → Read Bytes
  unfolding read_varint read_fixed read_sized then_read
  read_kind integer r = then_read (read_varint r) (λ v r'. ok (int_to_string (zigzag_decode v)) r')
  read_kind boolean r =
      then_read (read_varint r) (λ v r'. ok (if v == 0 then str "0" else str "1") r')
  read_kind float r = then_read (read_fixed 4 r) (λ s r'. ok (codec.f32_to_string (from_le s)) r')
  read_kind double r = then_read (read_fixed 8 r) (λ s r'. ok (codec.f64_to_string (from_le s)) r')
  read_kind binary r = then_read (read_sized r) (λ s r'. ok (codec.hex_encode s) r')
  read_kind text r = then_read (read_sized r) (λ s r'. ok (codec.from_utf8_lossy s) r')

  unfoldable pub read_value : Bytes → TunnelReader → Read Bytes
  unfolding read_kind
  read_value odps_type r = read_kind (kind_of (codec.to_uppercase odps_type)) r

  -- What a round of the loop over a record's fields does behind the field's tag, and how it goes on.
  unfoldable pub read_field :
      List TunnelColumn → (Row → TunnelReader → Read Row) → Row → ℕ → TunnelReader → Read Row
  unfolding read_value skip_field then_read
  read_field columns continue row field_tag r =
      let field_number : ℕ = field_tag / 8 in
      if field_tag == tunnel_end_record
      then ok row (skip_crc r)
      else if field_number == 0 || ltb (length columns) field_number
      then then_read (skip_field (field_tag % 8) r) (λ _ r'. continue row r')
      else elim (get_elem? columns (field_number - 1)) [
        | none ↦ panicked
        | some col ↦
            then_read (read_value col.odps_type r)
              (λ value r'. continue (set row (field_number - 1) (some value)) r')
      ]

  unfoldable pub read_fields : ℕ → List TunnelColumn → Row → TunnelReader → Read Row
  unfolding read_field read_varint then_read
  read_fields zero columns row r = unfinished
  read_fields (suc fuel) columns row r =
      if is_at_end r
      then ok row r
      else then_read (read_varint r) (read_field columns (read_fields fuel columns) row)

  -- a record behind its number of nulls
  unfoldable pub read_record : ℕ → TunnelSchema → ℕ → TunnelReader → Read (Option Row)
  unfolding read_indices read_fields then_read
  read_record fuel schema null_count r = then_read (read_indices null_count r) (λ indices r'.
      then_read
        (read_fields fuel (all_columns schema) (mark_nulls indices (nulls (column_count schema)))
          r')
        (λ row r''. ok (some row) r''))

  unfoldable pub read_row : ℕ → TunnelSchema → TunnelReader → Read (Option Row)
  unfolding read_record read_varint then_read
  read_row fuel schema r =
      if is_at_end r
      then ok none r
      else then_read (read_varint r) (λ tag r'.
        if tag == tunnel_meta_count || tag == tunnel_meta_checksum
        then ok none r
        else read_record fuel schema tag r')

  -- the rows up to the end, in a loop that `fuel` bounds as it does each record
  unfoldable pub read_rows : ℕ → ℕ → TunnelSchema → TunnelReader → Read (List Row)
  unfolding read_row then_read
  read_rows zero fuel schema r = unfinished
  read_rows (suc rounds) fuel schema r = then_read (read_row fuel schema r) (λ row r'. elim row [
    | none ↦ ok [] r'
    | some values ↦ then_read (read_rows rounds fuel schema r') (λ rows r''. ok (values ∷ rows) r'')
  ])

-- the number of records, if the tag before it is its tag; what cannot be read is left where it is
unfoldable pub read_count : ℕ → TunnelReader → Option ℕ × TunnelReader
unfolding read_varint
read_count tag r =
    if tag == tunnel_meta_count
    then elim (read_varint r) [ ok count r' ↦ (some count, r') | _ ↦ (none, r) ]
    else (none, r)

-- the checksum, and `none` where its four bytes are not there: the slice panics
unfoldable pub read_checksum : TunnelReader → Option (Option ℕ)
unfolding read_varint
read_checksum r =
    if leb (r.pos + 4 + 1) (length r.bytes)
    then elim (read_varint r) [
      | ok tag2 r' ↦
          if tag2 == tunnel_meta_checksum
          then if leb (r'.pos + 4) (length r'.bytes)
            then some (some (from_le (take 4 (remaining r'))))
            else none
          else some none
      | _ ↦ some none
    ]
    else some none

unfoldable pub read_footer : TunnelReader → Option (Option ℕ × Option ℕ)
read_footer r = if is_at_end r then some (none, none) else elim (read_varint r) [
  | ok tag r' ↦
      let (count, r'') = read_count tag r' in
      elim (read_checksum r'') [ none ↦ none | some crc ↦ some (count, crc) ]
  | _ ↦ some (none, none)
]

module _ (codec : Codec) where
  -- The rows, the number of records and the checksum of the footer. The position behind the footer is not
  -- looked at.
  unfoldable pub read_all :
      ℕ → TunnelSchema → TunnelReader → Read (List Row × (Option ℕ × Option ℕ))
  unfolding then_read
  read_all fuel schema r = then_read (read_rows codec fuel fuel schema r) (λ rows r'.
      elim (read_footer r') [ none ↦ panicked | some metadata ↦ ok (rows, metadata) r' ])
