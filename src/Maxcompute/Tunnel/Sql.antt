-- ===== src/Maxcompute/Tunnel/Sql.antt =====
-- crates/maxcompute-protocol/src/tunnel/session.rs and schema.rs: the SQL texts of the tunnel, the schema
-- that DESCRIBE answers, and the names of types.
use roris_db.Prelude.{
  ℕ, ◌+◌, Bool, true, false, ◌&&◌, ◌||◌, Option, none, some, List, [], ◌∷◌, ◌++◌, map, get_elem?,
  leb, ◌==◌, if◌then◌else◌,
}
use roris_db.Bytes.{Bytes, str, bytes_eq}
use roris_db.Maxcompute.Tunnel.{
  TunnelColumn, TunnelSchema, all_columns, Row, UploadSession, QueryResult,
}

-- the texts with `separator` between them
abbrev pub join : Bytes → List Bytes → Bytes
join separator [] = []
join separator (s ∷ []) = s
join separator (s ∷ t ∷ texts) = s ++ (separator ++ join separator (t ∷ texts))

-- `value.replace(c, with)` for a character `c`
abbrev pub replace_char : ℕ → Bytes → Bytes → Bytes
replace_char c with [] = []
replace_char c with (b ∷ s) =
    let rest = replace_char c with s in if b == c then with ++ rest else b ∷ rest

abbrev pub starts_with : Bytes → Bytes → Bool
starts_with [] s = true
starts_with (c ∷ t) [] = false
starts_with (c ∷ t) (b ∷ s) = c == b && starts_with t s

-- `s.contains(t)`
abbrev pub contains : Bytes → Bytes → Bool
contains t [] = starts_with t []
contains t (b ∷ s) = starts_with t (b ∷ s) || contains t s

abbrev to_ascii_lowercase : ℕ → ℕ
to_ascii_lowercase c = if leb b'A' c && leb c b'Z' then c + 32 else c

abbrev pub eq_ignore_ascii_case : Bytes → Bytes → Bool
eq_ignore_ascii_case s t = bytes_eq (map to_ascii_lowercase s) (map to_ascii_lowercase t)

abbrev pub is_one_of : Bytes → List Bytes → Bool
is_one_of s [] = false
is_one_of s (t ∷ texts) = bytes_eq s t || is_one_of s texts

abbrev bare_types : List Bytes
bare_types =
    str "BIGINT"
    ∷ str "INT"
    ∷ str "SMALLINT"
    ∷ str "TINYINT"
    ∷ str "FLOAT"
    ∷ str "DOUBLE"
    ∷ str "REAL"
    ∷ str "DECIMAL"
    ∷ str "NUMERIC"
    ∷ []

abbrev date_types : List Bytes
date_types = str "DATETIME" ∷ str "TIMESTAMP" ∷ str "DATE" ∷ []

abbrev pub quoted : Bytes → Bytes
quoted s = b'\'' ∷ (s ++ b'\'' ∷ [])

unfoldable pub format_sql_value : (Bytes → Bytes) → Bytes → Bytes → Bytes
format_sql_value to_uppercase value odps_type =
    let t : Bytes = to_uppercase odps_type in
    if is_one_of t bare_types
    then value
    else if bytes_eq t (str "BOOLEAN")
    then (if bytes_eq value (str "1") || eq_ignore_ascii_case value (str "true")
        then str "1"
        else str "0")
    else if is_one_of t date_types
    then quoted value
    else quoted (replace_char b'\'' (str "''") value)

-- A field of a row in the VALUES clause; `none` is the panic of a row that is longer than the columns.
unfoldable pub sql_fields : (Bytes → Bytes) → List TunnelColumn → Row → Option (List Bytes)
unfolding format_sql_value
sql_fields to_uppercase columns [] = some []
sql_fields to_uppercase [] (val ∷ row) = none
sql_fields to_uppercase (col ∷ columns) (val ∷ row) = elim (sql_fields to_uppercase columns row) [
  | none ↦ none
  | some fields ↦ some (
      (elim val [ none ↦ str "NULL" | some v ↦ format_sql_value to_uppercase v col.odps_type ])
      ∷ fields)
]

unfoldable pub sql_rows : (Bytes → Bytes) → List TunnelColumn → List Row → Option (List Bytes)
unfolding sql_fields
sql_rows to_uppercase columns [] = some []
sql_rows to_uppercase columns (row ∷ rows) = elim (sql_fields to_uppercase columns row) [
  | none ↦ none
  | some fields ↦ elim (sql_rows to_uppercase columns rows) [
    | none ↦ none
    | some texts ↦ some ((b'(' ∷ (join (str ", ") fields ++ str ")")) ∷ texts)
  ]
]

abbrev backquoted : Bytes → Bytes
backquoted s = b'`' ∷ (s ++ b'`' ∷ [])

unfoldable pub build_insert_sql : (Bytes → Bytes) → UploadSession → List Row → Option Bytes
unfolding sql_rows
build_insert_sql to_uppercase session rows =
    elim (sql_rows to_uppercase (all_columns session.schema) rows) [
      | none ↦ none
      | some values_rows ↦ some (
          str "INSERT INTO "
          ++ (backquoted session.project
              ++ (str "."
                  ++ (backquoted session.table
                      ++ (str " ("
                          ++ (join (str ", ")
                                (map (λ c. backquoted c.name) (all_columns session.schema))
                              ++ (str ") VALUES " ++ join (str ", ") values_rows)))))))
    ]

abbrev pub string_types : List Bytes
string_types = str "VARCHAR" ∷ str "TEXT" ∷ str "CHAR" ∷ str "MEDIUMTEXT" ∷ str "LONGTEXT" ∷ []

unfoldable pub mysql_to_odps_type : (Bytes → Bytes) → Bytes → Bytes
mysql_to_odps_type to_uppercase mysql_type =
    let t : Bytes = to_uppercase mysql_type in
    if is_one_of t (str "BIGINT" ∷ str "BIGINT UNSIGNED" ∷ [])
    then str "BIGINT"
    else if is_one_of t (str "INT" ∷ str "INTEGER" ∷ str "MEDIUMINT" ∷ [])
    then str "INT"
    else if bytes_eq t (str "SMALLINT")
    then str "SMALLINT"
    else if bytes_eq t (str "TINYINT")
    then str "TINYINT"
    else if is_one_of t string_types
    then str "STRING"
    else if bytes_eq t (str "FLOAT")
    then str "FLOAT"
    else if is_one_of t (str "DOUBLE" ∷ str "REAL" ∷ [])
    then str "DOUBLE"
    else if is_one_of t (str "DECIMAL" ∷ str "NUMERIC" ∷ [])
    then str "DECIMAL"
    else if is_one_of t (str "BOOLEAN" ∷ str "BOOL" ∷ [])
    then str "BOOLEAN"
    else if is_one_of t (str "DATETIME" ∷ str "TIMESTAMP" ∷ [])
    then str "DATETIME"
    else if bytes_eq t (str "DATE")
    then str "DATE"
    else if is_one_of t (str "BLOB" ∷ str "VARBINARY" ∷ str "BINARY" ∷ [])
    then str "BINARY"
    else str "STRING"

-- `v.clone().unwrap_or(...)` of the first value of the first row
abbrev pub first_value : QueryResult → Bytes
first_value result = elim result.rows [
  | [] ↦ str "unknown error"
  | row ∷ _ ↦ elim row [
    | [] ↦ str "unknown error"
    | val ∷ _ ↦ elim val [ none ↦ str "unknown error" | some v ↦ v ]
  ]
]

abbrev or_text : Bytes → Option Bytes → Bytes
or_text default none = default
or_text default (some s) = s

-- the element, if there is one and it is no null
abbrev value_at : Row → ℕ → Option Bytes
value_at row i = elim (get_elem? row i) [ none ↦ none | some val ↦ val ]

-- A row of DESCRIBE as a column, and whether it is a partition key; a row of less than two is skipped.
unfoldable pub described_column : (Bytes → Bytes) → Row → Option (TunnelColumn × Bool)
unfolding mysql_to_odps_type
described_column to_uppercase (name ∷ ty ∷ more) = some (
  record {
    name = or_text [] name;
    odps_type = mysql_to_odps_type to_uppercase (or_text (str "STRING") ty);
    nullable = true;
    comment = value_at more 1;
  },
  elim (value_at more 0) [ none ↦ false | some v ↦ contains (str "PRI") (to_uppercase v) ],
)
described_column to_uppercase _ = none

unfoldable pub described_schema : (Bytes → Bytes) → List Row → TunnelSchema
unfolding described_column
described_schema to_uppercase [] = record { columns = []; partition_keys = [] }
described_schema to_uppercase (row ∷ rows) =
    let rest : TunnelSchema = described_schema to_uppercase rows in
    elim (described_column to_uppercase row) [
      | none ↦ rest
      | some (col, is_partition) ↦
          if is_partition
          then record rest { partition_keys = col ∷ rest.partition_keys }
          else record rest { columns = col ∷ rest.columns }
    ]
