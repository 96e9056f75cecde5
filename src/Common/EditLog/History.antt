-- ===== src/Common/EditLog/History.antt =====
-- crates/fe-common/src/edit_log.rs: the log through any sequence of appends and flushes, against a
-- history that has no files and no counters.
pub mod Names
pub mod Refines
pub mod Replay
use roris_db.Prelude.{
  ℕ, zero, suc, ◌+◌, ◌≤◌, ◌<◌, ◌≡◌, ◌≢◌, refl, sym, ap, ◌∙◌, Bool, true, false, Option, none, some,
  List, [], ◌∷◌, ◌++◌, append-nil, append_assoc, length, length-append, All, if◌then◌else◌, arith,
  Bool-cases, inl, inr,
}
use roris_db.Bytes.{Bytes}
use roris_db.Table.{Table, insert}
use roris_db.Common.EditLog.{
  OpType, EditLogEntry, EditLog, new, append, last_index, file_name, write_entries, flush,
  sort_by_name, replay_files, replay,
}
use roris_db.Common.EditLog.Lines.{IsCodec, replayed, replay_lines-write_entries}

-- what is appended
abbrev pub Operation : Type 0
Operation = OpType × Bytes

pub data Command : Type 0 where
  appending : Operation → Command
  flushing : Command

-- The operations of each flush, and those since the last one.
pub record History : Type 0 where
  pub batches : List (List Operation)
  pub pending : List Operation

abbrev pub size : List (List Operation) → ℕ
size [] = 0
size (b ∷ bs) = length b + size bs

-- The entries of operations, numbered from `n + 1`; the term of an entry is its number.
abbrev pub numbered : ℕ → List Operation → List EditLogEntry
numbered n [] = []
numbered n ((op_type, payload) ∷ ops) =
    record { term = n + 1; index = n + 1; op_type = op_type; payload = payload }
    ∷ numbered (n + 1) ops

abbrev pub record_command : Command → History → History
record_command (appending op) h = record h { pending = h.pending ++ op ∷ [] }
record_command flushing h = elim h.pending [
  | [] ↦ h
  | op ∷ ops ↦ record { batches = h.batches ++ (op ∷ ops) ∷ []; pending = [] }
]

abbrev pub record_commands : List Command → History → History
record_commands [] h = h
record_commands (c ∷ commands) h = record_commands commands (record_command c h)

abbrev pub no_history : History
no_history = record { batches = []; pending = [] }

module _ (to_string : EditLogEntry → Bytes) where
  -- the same commands on the log and its directory
  abbrev pub run_command : Command → Table Bytes × EditLog → Table Bytes × EditLog
  run_command (appending op) (files, log) = (files, (append op.0 op.1 log).0)
  run_command flushing (files, log) = flush to_string files log

  abbrev pub run_commands : List Command → Table Bytes × EditLog → Table Bytes × EditLog
  run_commands [] state = state
  run_commands (c ∷ commands) state = run_commands commands (run_command c state)

  -- A batch stands in the file that is named for the number of entries before it.
  abbrev pub files_of : ℕ → List (List Operation) → Table Bytes
  files_of n [] = []
  files_of n (b ∷ bs) =
      (file_name n, write_entries to_string (numbered n b)) ∷ files_of (n + length b) bs

  abbrev pub log_of : History → EditLog
  log_of h = record {
    entries = numbered (size h.batches) h.pending;
    last_applied_index = size h.batches;
    current_term = size h.batches + length h.pending;
    voted_for = none;
  }

  abbrev pub state_of : History → Table Bytes × EditLog
  state_of h = (files_of 0 h.batches, log_of h)
