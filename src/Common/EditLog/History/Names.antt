-- ===== src/Common/EditLog/History/Names.antt =====
-- crates/fe-common/src/edit_log.rs: the names of the log's files are different.
use roris_db.Prelude.{
  ℕ, ◌≡◌, ◌≢◌, refl, sym, ap, ◌∙◌, Option, none, some, ◌∷◌, ◌++◌, length, length-append, take,
  take-length-append, drop, drop-length-append, arith, Bool-cases, inl, inr,
}
use roris_db.Bytes.{Bytes, str, bytes_eq, bytes_eq→eq}
use roris_db.Bytes.Decimal.{nat_to_string, read_nat}
use roris_db.Bytes.Decimal.RoundTrip.{read_nat-nat_to_string}
use roris_db.Common.EditLog.{file_name}
use roris_db.Table.{Table, insert}

append-cancel : (s t u : Bytes) → s ++ u ≡ t ++ u → s ≡ t
append-cancel s t u e =
    let size : length s ≡ length t =
      omega (arith, length-append s u, length-append t u, ap length e) in
    sym (take-length-append s u)
    ∙ ap (take (length s)) e
    ∙ ap (λ n. take n (t ++ u)) size
    ∙ take-length-append t u

number_of : Bytes → Option ℕ
number_of s = read_nat s

some_inj : (m n : ℕ) → some m ≡ some n → m ≡ n
some_inj m n e = ap (λ o. elim o [ none ↦ 0 | some k ↦ k ]) e

pub file_name_inj : (m n : ℕ) → file_name m ≡ file_name n → m ≡ n
unfolding file_name
file_name_inj m n e =
    let tails : nat_to_string m ++ str ".json" ≡ nat_to_string n ++ str ".json" =
      sym (drop-length-append (str "edit_log_") (nat_to_string m ++ str ".json"))
      ∙ ap (drop (length (str "edit_log_"))) e
      ∙ drop-length-append (str "edit_log_") (nat_to_string n ++ str ".json") in
    let texts : nat_to_string m ≡ nat_to_string n =
      append-cancel (nat_to_string m) (nat_to_string n) (str ".json") tails in
    some_inj m n (sym (read_nat-nat_to_string m) ∙ ap read_nat texts ∙ read_nat-nat_to_string n)

-- A file of another name is passed over.
pub insert-file_name :
    (m n : ℕ) (v w : Bytes) (files : Table Bytes)
    → m ≢ n
    → insert (file_name n) v ((file_name m, w) ∷ files)
      ≡ (file_name m, w) ∷ insert (file_name n) v files
unfolding insert
insert-file_name m n v w files other = elim (Bool-cases (bytes_eq (file_name m) (file_name n))) [
  | inl e ↦ absurd (other (file_name_inj m n (bytes_eq→eq (file_name m) (file_name n) e)))
  | inr e ↦ rw e refl
]
