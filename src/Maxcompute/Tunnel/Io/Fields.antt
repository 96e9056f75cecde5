-- ===== src/Maxcompute/Tunnel/Io/Fields.antt =====
-- crates/maxcompute-protocol/src/tunnel/io.rs: the fields of a record, read back.
use roris_db.Prelude.{
  ℕ, suc, ◌+◌, ◌-◌, ◌/◌, ◌%◌, ◌^◌, ◌<◌, ◌≡◌, refl, sym, ap, ◌∙◌, inl, inr, false, ◌==◌, ltb, none,
  some, List, ◌∷◌, ◌++◌, length, length-append, set, get_elem?, get_elem?-append_right,
  set-append_right, ℤ, IsI64, arith,
}
use roris_db.Bytes.{Bytes, str, bytes_eq}
use roris_db.Bytes.Decimal.{int_to_string}
use roris_db.Bytes.Decimal.RoundTrip.{parse_i64-int_to_string}
use roris_db.Bytes.Endian.{le_bytes, from_le, length-le_bytes, from_le-le_bytes}
use roris_db.Maxcompute.Tunnel.{TunnelColumn, Row}
use roris_db.Maxcompute.Tunnel.Varint.{
  encode_varint, zigzag_encode, zigzag_decode, zigzag_decode-zigzag_encode, zigzag_encode_bound,
}
use roris_db.Maxcompute.Tunnel.Io.{
  tunnel_end_record, Codec, FieldKind, integer, boolean, float, double, binary, text, kind_of,
}
use roris_db.Maxcompute.Tunnel.Io.Write.{
  kind_tag, kind_value, write_field, with_length, as_boolean, or_else,
}
use roris_db.Maxcompute.Tunnel.Io.Read.{
  TunnelReader, Read, then_read, read_varint, read_fixed, read_sized, read_kind, read_value,
  read_field,
}
use roris_db.Maxcompute.Tunnel.Io.At.{
  At, Reads, ok-Reads, At-same, At-assoc, then_read-Reads, read_varint-Reads, read_fixed-Reads,
  read_sized-Reads,
}
use roris_db.Maxcompute.Tunnel.Io.Stream.{IsCanonical}

zero_as_boolean : as_boolean (str "0") ≡ 0
unfolding str bytes_eq
zero_as_boolean = refl

one_as_boolean : as_boolean (str "1") ≡ 1
unfolding str bytes_eq
one_as_boolean = refl

module _ (codec : Codec) where
  kind_value-integer :
      (v : Bytes) (a : ℤ)
      → IsI64 a
      → v ≡ int_to_string a
      → kind_value codec integer v ≡ encode_varint (zigzag_encode a)
  unfolding kind_value
  kind_value-integer v a fits e = rw (e, parse_i64-int_to_string a fits) refl

  -- A canonical value is read back by its kind.
  kind-Reads :
      (kind : FieldKind) (v s : Bytes) (r : TunnelReader)
      → IsCanonical codec kind v
      → At (kind_value codec kind v ++ s) r
      → Reads (read_kind codec kind r) v s
  unfolding read_kind kind_value
  kind-Reads integer v s r (a, fits, e) here =
      then_read-Reads (read_varint r) _ (zigzag_encode a) v s s
        (read_varint-Reads (zigzag_encode a) s r (zigzag_encode_bound a fits) (
          At-same (kind_value codec integer v) (encode_varint (zigzag_encode a)) s r
            (kind_value-integer v a fits e) here))
        (λ r' there.
          ok-Reads (int_to_string (zigzag_decode (zigzag_encode a))) v s r'
            (ap int_to_string (zigzag_decode-zigzag_encode a) ∙ sym e) there)
  kind-Reads boolean v s r (inl e) here =
      then_read-Reads (read_varint r) _ 0 v s s
        (read_varint-Reads 0 s r (omega arith) (
          At-same (kind_value codec boolean v) (encode_varint 0) s r
            (ap (λ t. encode_varint (as_boolean t)) e ∙ ap encode_varint zero_as_boolean) here))
        (λ r' there. ok-Reads (str "0") v s r' (sym e) there)
  kind-Reads boolean v s r (inr e) here =
      then_read-Reads (read_varint r) _ 1 v s s
        (read_varint-Reads 1 s r (omega arith) (
          At-same (kind_value codec boolean v) (encode_varint 1) s r
            (ap (λ t. encode_varint (as_boolean t)) e ∙ ap encode_varint one_as_boolean) here))
        (λ r' there. ok-Reads (str "1") v s r' (sym e) there)
  kind-Reads float v s r (bits, small, parsed, printed) here =
      then_read-Reads (read_fixed 4 r) _ (le_bytes 4 bits) v s s
        (read_fixed-Reads 4 (le_bytes 4 bits) s r (length-le_bytes 4 bits) (
          At-same (kind_value codec float v) (le_bytes 4 bits) s r
            (ap (λ o. le_bytes 4 (or_else 0 o)) parsed) here))
        (λ r' there.
          ok-Reads (codec.f32_to_string (from_le (le_bytes 4 bits))) v s r'
            (ap codec.f32_to_string (from_le-le_bytes 4 bits (omega arith)) ∙ printed) there)
  kind-Reads double v s r (bits, small, parsed, printed) here =
      then_read-Reads (read_fixed 8 r) _ (le_bytes 8 bits) v s s
        (read_fixed-Reads 8 (le_bytes 8 bits) s r (length-le_bytes 8 bits) (
          At-same (kind_value codec double v) (le_bytes 8 bits) s r
            (ap (λ o. le_bytes 8 (or_else 0 o)) parsed) here))
        (λ r' there.
          ok-Reads (codec.f64_to_string (from_le (le_bytes 8 bits))) v s r'
            (ap codec.f64_to_string (from_le-le_bytes 8 bits (omega arith)) ∙ printed) there)
  kind-Reads binary v s r (bytes, decoded, encoded) here =
      then_read-Reads (read_sized r) _ bytes v s s
        (read_sized-Reads bytes s r (
          At-same (kind_value codec binary v) (with_length bytes) s r
            (ap (λ o. with_length (or_else v o)) decoded) here))
        (λ r' there. ok-Reads (codec.hex_encode bytes) v s r' encoded there)
  kind-Reads text v s r e here =
      then_read-Reads (read_sized r) _ v v s s (read_sized-Reads v s r here)
        (λ r' there. ok-Reads (codec.from_utf8_lossy v) v s r' e there)

  kind_tag_div : (kind : FieldKind) (n : ℕ) → n < 4194176 → kind_tag codec kind n / 8 ≡ n
  unfolding kind_tag
  kind_tag_div integer n lt = omega arith
  kind_tag_div boolean n lt = omega arith
  kind_tag_div float n lt = omega arith
  kind_tag_div double n lt = omega arith
  kind_tag_div binary n lt = omega arith
  kind_tag_div text n lt = omega arith

  -- the tag of no field is the mark of a record's end
  kind_tag_bound :
      (kind : FieldKind) (n : ℕ) → n < 4194176 → kind_tag codec kind n < tunnel_end_record
  unfolding kind_tag
  kind_tag_bound integer n lt = omega arith
  kind_tag_bound boolean n lt = omega arith
  kind_tag_bound float n lt = omega arith
  kind_tag_bound double n lt = omega arith
  kind_tag_bound binary n lt = omega arith
  kind_tag_bound text n lt = omega arith

  read_field_known :
      (columns : List TunnelColumn) (continue : Row → TunnelReader → Read Row) (row : Row)
      (field_tag n : ℕ) (col : TunnelColumn) (r : TunnelReader)
      → field_tag == tunnel_end_record ≡ false
      → field_tag / 8 ≡ suc n
      → ltb (length columns) (suc n) ≡ false
      → get_elem? columns n ≡ some col
      → read_field codec columns continue row field_tag r
        ≡ then_read
            (read_value codec col.odps_type r)
            (λ value r'. continue (set row n (some value)) r')
  unfolding read_field
  read_field_known columns continue row field_tag n col r open_record number inside there =
      let positive : suc n == 0 ≡ false = ground arith in
      let index : suc n - 1 ≡ n = omega arith in
      let position : field_tag / 8 - 1 ≡ n = omega arith in
      rw (open_record, number, positive, inside, index, there)
        (ap
          (λ i.
            then_read (read_value codec col.odps_type r)
              (λ value r'. continue (set row i (some value)) r'))
          position)

  -- A field of the column behind `before`, and what is read behind it.
  pub read_field-Reads :
      (before : List TunnelColumn) (col : TunnelColumn) (columns : List TunnelColumn)
      (continue : Row → TunnelReader → Read Row) (done more whole : Row) (v s t : Bytes)
      (r : TunnelReader)
      → length done ≡ length before
      → length before + 1 < 4194176
      → IsCanonical codec (kind_of (codec.to_uppercase col.odps_type)) v
      → At (write_field codec ((length before + 1) % 2 ^ 32) col.odps_type v ++ s) r
      → ((r' : TunnelReader) → At s r' → Reads (continue (done ++ some v ∷ more) r') whole t)
      → Reads
          (then_read
            (read_varint r)
            (read_field codec (before ++ col ∷ columns) continue (done ++ none ∷ more)))
          whole
          t
  unfolding read_value write_field
  read_field-Reads before col columns continue done more whole v s t r size few canonical here
        goes =
      let n : ℕ = length before in
      let kind : FieldKind = kind_of (codec.to_uppercase col.odps_type) in
      let number : (n + 1) % 2 ^ 32 ≡ suc n = omega arith in
      let field_tag : ℕ = kind_tag codec kind ((n + 1) % 2 ^ 32) in
      let below : field_tag < tunnel_end_record =
        kind_tag_bound kind ((n + 1) % 2 ^ 32) (omega arith) in
      let all : List TunnelColumn = before ++ col ∷ columns in
      let there : get_elem? all n ≡ some col =
        let start : n ≡ n + 0 = omega arith in
        ap (get_elem? all) start ∙ get_elem?-append_right before (col ∷ columns) 0 in
      let written : set (done ++ none ∷ more) n (some v) ≡ done ++ some v ∷ more =
        let start : n ≡ length done + 0 = omega arith in
        ap (λ i. set (done ++ none ∷ more) i (some v)) start
        ∙ set-append_right done (none ∷ more) 0 (some v) in
      then_read-Reads (read_varint r) (read_field codec all continue (done ++ none ∷ more))
        field_tag whole (kind_value codec kind v ++ s) t
        (read_varint-Reads field_tag (kind_value codec kind v ++ s) r (omega arith)
          (At-assoc (encode_varint field_tag) (kind_value codec kind v) s r here))
        (λ r' behind_tag.
          rw
            (read_field_known all continue (done ++ none ∷ more) field_tag n col r' (ground arith)
              (kind_tag_div kind ((n + 1) % 2 ^ 32) (omega arith) ∙ number)
              (ground (arith, length-append before (col ∷ columns))) there)
            (then_read-Reads (read_kind codec kind r')
              (λ value r''. continue (set (done ++ none ∷ more) n (some value)) r'') v whole s t
              (kind-Reads kind v s r' canonical behind_tag)
              (λ r'' behind. rw written (goes r'' behind))))
