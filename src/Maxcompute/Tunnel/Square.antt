-- ===== src/Maxcompute/Tunnel/Square.antt =====
-- crates/maxcompute-protocol/src/tunnel/session.rs: rows that have as many values as the table has columns, and
-- what a commit makes of them.
use roris_db.Prelude.{
  ℕ, ◌≡◌, refl, sym, ap, ◌∙◌, Bool, true, false, ◌&&◌, Option, none, some, List, [], ◌∷◌, ◌++◌, All,
  length, ltb, leb, ◌==◌, arith, Bool-cases, Option-cases, inl, inr,
}
use roris_db.Bytes.{Bytes, bytes_eq}
use roris_db.Table.{Table, lookup, insert, remove, lookup-insert, lookup-remove}
use roris_db.Maxcompute.Tunnel.{
  Row, TunnelColumn, all_columns, UploadSession, TunnelSessionManager, Engine,
}
use roris_db.Maxcompute.Tunnel.Blocks.{insert_block, all_rows}
use roris_db.Maxcompute.Tunnel.Sql.{sql_fields, sql_rows, build_insert_sql}
use roris_db.Maxcompute.Tunnel.Manager.{
  TunnelError, Answer, ok, err, panicked, is_normal, commit_rows, commit_sql, insert_rows,
  commit_upload, has_error,
}

-- Every row has a column for each of its values.
abbrev pub fits : List TunnelColumn → List Row → Bool
fits columns [] = true
fits columns (row ∷ rows) = leb (length row) (length columns) && fits columns rows

abbrev pub is_built {ℓ} : {A : Type ℓ} → Option A → Bool
is_built none = false
is_built (some a) = true

sql_fields_built :
    (up : Bytes → Bytes) (columns : List TunnelColumn) (row : Row)
    → is_built (sql_fields up columns row) ≡ leb (length row) (length columns)
unfolding sql_fields
sql_fields_built up columns [] = ground arith
sql_fields_built up [] (val ∷ row) = ground arith
sql_fields_built up (col ∷ columns) (val ∷ row) = ground (arith, sql_fields_built up columns row)

sql_rows_built :
    (up : Bytes → Bytes) (columns : List TunnelColumn) (rows : List Row)
    → is_built (sql_rows up columns rows) ≡ fits columns rows
unfolding sql_rows
sql_rows_built up columns [] = refl
sql_rows_built up columns (row ∷ rows) =
    ground (arith, sql_fields_built up columns row, sql_rows_built up columns rows)

pub build_insert_sql_built :
    (up : Bytes → Bytes) (s : UploadSession) (rows : List Row)
    → is_built (build_insert_sql up s rows) ≡ fits (all_columns s.schema) rows
unfolding build_insert_sql
build_insert_sql_built up s rows = ground (arith, sql_rows_built up (all_columns s.schema) rows)

not_built : (o : Option Bytes) → is_built o ≡ false → o ≡ none
not_built none e = refl
not_built (some s) e = cc

-- Every row has so many values.
abbrev pub HasWidth : ℕ → List Row → Type 0
HasWidth n rows = All (λ row. length row ≡ n) rows

abbrev BlocksHaveWidth : ℕ → List (ℕ × List Row) → Type 0
BlocksHaveWidth n [] = Unit
BlocksHaveWidth n ((k, rows) ∷ blocks) = HasWidth n rows × BlocksHaveWidth n blocks

-- The rows of an upload have a value for each column.
abbrev pub IsSquare : Option UploadSession → Type 0
IsSquare none = Unit
IsSquare (some s) = BlocksHaveWidth (length (all_columns s.schema)) s.blocks

abbrev pub AreSquare : TunnelSessionManager → Type 0
AreSquare m = (id : Bytes) → IsSquare (lookup id m.upload_sessions)

pub insert_block-BlocksHaveWidth :
    (n id : ℕ) (rows : List Row) (blocks : List (ℕ × List Row))
    → HasWidth n rows
    → BlocksHaveWidth n blocks
    → BlocksHaveWidth n (insert_block id rows blocks)
unfolding insert_block
insert_block-BlocksHaveWidth n id rows [] wide all = (wide, tt)
insert_block-BlocksHaveWidth n id rows ((k, old) ∷ blocks) wide (here, all) =
    elim (Bool-cases (id == k)) [
      | inl e ↦ rw e (wide, all)
      | inr e ↦ elim (Bool-cases (ltb id k)) [
        | inl f ↦ rw (e, f) (wide, (here, all))
        | inr f ↦ rw (e, f) (here, insert_block-BlocksHaveWidth n id rows blocks wide all)
      ]
    ]

append-HasWidth :
    (n : ℕ) (rows more : List Row) → HasWidth n rows → HasWidth n more → HasWidth n (rows ++ more)
append-HasWidth n [] more wide all = all
append-HasWidth n (row ∷ rows) more (here, wide) all = (here, append-HasWidth n rows more wide all)

all_rows-HasWidth :
    (n : ℕ) (blocks : List (ℕ × List Row)) → BlocksHaveWidth n blocks → HasWidth n (all_rows blocks)
all_rows-HasWidth n [] all = tt
all_rows-HasWidth n ((k, rows) ∷ blocks) (here, all) =
    append-HasWidth n rows (all_rows blocks) here (all_rows-HasWidth n blocks all)

HasWidth-fits :
    (columns : List TunnelColumn) (rows : List Row)
    → HasWidth (length columns) rows
    → fits columns rows ≡ true
HasWidth-fits columns [] wide = refl
HasWidth-fits columns (row ∷ rows) (here, wide) =
    let enough : leb (length row) (length columns) ≡ true = ground arith in
    rw enough (HasWidth-fits columns rows wide)

pub IsSquare-same : (o o' : Option UploadSession) → o ≡ o' → IsSquare o → IsSquare o'
IsSquare-same o o' e square = rw (sym e) square

pub insert-IsSquare :
    (id j : Bytes) (s : UploadSession) (t : Table UploadSession)
    → IsSquare (some s)
    → IsSquare (lookup j t)
    → IsSquare (lookup j (insert id s t))
insert-IsSquare id j s t here there = elim (Bool-cases (bytes_eq id j)) [
  | inl e ↦ rw (lookup-insert id j s t, e) here
  | inr e ↦ rw (lookup-insert id j s t, e) there
]

pub remove-IsSquare :
    (id j : Bytes) (t : Table UploadSession)
    → IsSquare (lookup j t)
    → IsSquare (lookup j (remove id t))
remove-IsSquare id j t there = elim (Bool-cases (bytes_eq id j)) [
  | inl e ↦ rw (lookup-remove id j t, e) tt
  | inr e ↦ rw (lookup-remove id j t, e) there
]

ok_panicked : (ids : List ℕ) → ok ids ≡ panicked → ⊥
ok_panicked ids h = cc

err_panicked : (e : TunnelError) → ◌≡◌ {A = Answer (List ℕ)} (err e) panicked → ⊥
err_panicked e h = cc

false-true : false ≡ true → ⊥
false-true h = cc

module _ {H : Type 0} (engine : Engine H) (id : Bytes) (conn_id : ℕ) where
  commit_rows-calm :
      (s : UploadSession) (rows : List Row) (m : TunnelSessionManager) (h : H)
      → fits (all_columns s.schema) rows ≡ true
      → (commit_rows engine id conn_id s rows (m, h)).0 ≡ panicked
      → ⊥
  unfolding commit_rows commit_sql insert_rows
  commit_rows-calm s [] m h fit = λ e. absurd (ok_panicked _ e)
  commit_rows-calm s (row ∷ rows) m h fit =
      elim (Option-cases (build_insert_sql engine.to_uppercase s (row ∷ rows))) [
        | inl built ↦ absurd (
            false-true (
              sym (ap (λ o. is_built o) built)
              ∙ build_insert_sql_built engine.to_uppercase s (row ∷ rows)
              ∙ fit))
        | inr (sql, built) ↦
            rw built
              (elim (Bool-cases (
                has_error engine.to_uppercase
                  (engine.handle_query conn_id sql
                    (engine.set_database conn_id s.project h)).0.columns)) [
                      | inl f ↦ rw f (λ e. absurd (err_panicked _ e))
                      | inr f ↦ rw f (λ e. absurd (ok_panicked _ e))
                    ])
      ]

  -- A commit of a session whose rows have a value for each column does not panic.
  pub commit_upload-calm :
      (m : TunnelSessionManager) (h : H)
      → IsSquare (lookup id m.upload_sessions)
      → (commit_upload engine id conn_id (m, h)).0 ≡ panicked
      → ⊥
  unfolding commit_upload
  commit_upload-calm m h = elim (Option-cases (lookup id m.upload_sessions)) [
    | inl e ↦ rw (e, commit_upload) (λ square f. absurd (err_panicked _ f))
    | inr (s, e) ↦ elim (Bool-cases (is_normal s.status)) [
      | inl f ↦
          rw (e, commit_upload, f)
            (λ square. commit_rows-calm s (all_rows s.blocks) m h (
              HasWidth-fits (all_columns s.schema) (all_rows s.blocks)
                (all_rows-HasWidth (length (all_columns s.schema)) s.blocks square)))
      | inr f ↦ rw (e, commit_upload, f) (λ square g. absurd (err_panicked _ g))
    ]
  ]
