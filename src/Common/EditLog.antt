-- ===== src/Common/EditLog.antt =====
-- crates/fe-common/src/edit_log.rs: the log of the metadata's changes, the files it is flushed to and
-- its replay. The directory is a table from file names to contents, which accepts every write; the
-- texts that `serde_json` writes and reads are parameters.
pub mod Lines
pub mod History
use roris_db.Prelude.{
  ℕ, zero, suc, ◌+◌, ◌%◌, Bool, true, false, ◌&&◌, Option, none, some, List, [], ◌∷◌, ◌++◌, length,
  ltb, leb, ◌==◌, if◌then◌else◌,
}
use roris_db.Bytes.{Bytes, str}
use roris_db.Bytes.Decimal.{nat_to_string}
use roris_db.Table.{Table, insert}

pub data OpType : Type 0 where
  create_database drop_database create_table drop_table alter_database alter_table : OpType
  create_tablet drop_tablet alter_tablet add_backend remove_backend update_stats : OpType

pub record EditLogEntry : Type 0 where
  pub term : ℕ
  pub index : ℕ
  pub op_type : OpType
  pub payload : Bytes

pub record EditLog : Type 0 where
  pub entries : List EditLogEntry
  pub last_applied_index : ℕ
  pub current_term : ℕ
  pub voted_for : Option ℕ

abbrev pub new : EditLog
new = record { entries = []; last_applied_index = 0; current_term = 0; voted_for = none }

-- the log, and the index of the entry
unfoldable pub append : OpType → Bytes → EditLog → EditLog × ℕ
append op_type payload log =
    let current_term : ℕ = log.current_term + 1 in
    let index : ℕ = length log.entries + log.last_applied_index + 1 in
    let entry : EditLogEntry = record {
      term = current_term;
      index = index;
      op_type = op_type;
      payload = payload;
    } in
    (record log { entries = log.entries ++ entry ∷ []; current_term = current_term }, index)

-- `self.entries.last().map(|e| e.index).unwrap_or(...)`
unfoldable pub last_index : ℕ → List EditLogEntry → ℕ
last_index default [] = default
last_index default (e ∷ entries) = last_index e.index entries

-- `edit_log_{}.json`
unfoldable pub file_name : ℕ → Bytes
file_name last_applied_index = str "edit_log_" ++ (nat_to_string last_applied_index ++ str ".json")

unfoldable pub get_entry : ℕ → List EditLogEntry → Option EditLogEntry
get_entry index [] = none
get_entry index (e ∷ entries) =
    let rest = get_entry index entries in if e.index == index then some e else rest

-- `slice::split` at the newlines
unfoldable pub split_lines : Bytes → List Bytes
split_lines [] = [] ∷ []
split_lines (c ∷ s) =
    let rest = split_lines s in
    if c == b'\n' then [] ∷ rest else elim rest [ [] ↦ (c ∷ []) ∷ [] | l ∷ ls ↦ (c ∷ l) ∷ ls ]

-- the order of `OsString`, byte by byte
unfoldable pub name_le : Bytes → Bytes → Bool
name_le [] t = true
name_le (c ∷ s) [] = false
name_le (c ∷ s) (d ∷ t) =
    let rest = name_le s t in if ltb c d then true else if c == d then rest else false

unfoldable pub insert_by_name : Bytes × Bytes → Table Bytes → Table Bytes
insert_by_name file [] = file ∷ []
insert_by_name file (other ∷ files) =
    let rest = insert_by_name file files in
    if name_le file.0 other.0 then file ∷ other ∷ files else other ∷ rest

-- `paths.sort_by_key(|p| p.file_name())`
unfoldable pub sort_by_name : Table Bytes → Table Bytes
unfolding insert_by_name
sort_by_name [] = []
sort_by_name (file ∷ files) = insert_by_name file (sort_by_name files)

module _ (to_string : EditLogEntry → Bytes) where
  unfoldable pub write_entries : List EditLogEntry → Bytes
  write_entries [] = []
  write_entries (e ∷ entries) = to_string e ++ b'\n' ∷ write_entries entries

  unfoldable pub flush : Table Bytes → EditLog → Table Bytes × EditLog
  unfolding write_entries last_index file_name
  flush files log = elim log.entries [
    | [] ↦ (files, log)
    | _ ↦ (
      insert (file_name log.last_applied_index) (write_entries log.entries) files,
      record log {
        last_applied_index = last_index log.last_applied_index log.entries;
        entries = [];
      },
    )
  ]

module _ (from_slice : Bytes → Option EditLogEntry) where
  unfoldable pub replay_line : Bytes → EditLog → EditLog
  replay_line [] log = log
  replay_line (c ∷ line) log = elim (from_slice (c ∷ line)) [
    | none ↦ log
    | some entry ↦ record log {
      last_applied_index = entry.index;
      entries = log.entries ++ entry ∷ [];
    }
  ]

  unfoldable pub replay_lines : List Bytes → EditLog → EditLog
  unfolding replay_line
  replay_lines [] log = log
  replay_lines (line ∷ lines) log = replay_lines lines (replay_line line log)

  unfoldable pub replay_files : Table Bytes → EditLog → EditLog
  unfolding split_lines replay_lines
  replay_files [] log = log
  replay_files ((name, content) ∷ files) log =
      replay_files files (replay_lines (split_lines content) log)

  unfoldable pub replay : Table Bytes → EditLog → EditLog
  unfolding sort_by_name replay_files
  replay files log = replay_files (sort_by_name files) log
