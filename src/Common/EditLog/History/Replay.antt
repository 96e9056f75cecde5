-- ===== src/Common/EditLog/History/Replay.antt =====
-- crates/fe-common/src/edit_log.rs: a new log that replays the directory.
use roris_db.Prelude.{
  ℕ, suc, ◌+◌, ◌*◌, ◌≡◌, refl, sym, ap, ◌∙◌, Option, none, List, [], ◌∷◌, ◌++◌, append_assoc,
  append-nil, length, length-append, arith,
}
use roris_db.Bytes.{Bytes}
use roris_db.Common.EditLog.{
  EditLogEntry, EditLog, new, append, last_index, sort_by_name, replay_files, replay,
}
use roris_db.Common.EditLog.Lines.{IsCodec, replayed, replay_lines-write_entries}
use roris_db.Common.EditLog.History.{
  Operation, Command, size, numbered, record_commands, no_history, run_commands, files_of,
}
use roris_db.Common.EditLog.History.Refines.{
  length-numbered, last_index-numbered, run_commands-record_commands,
}

abbrev pub concat : List (List Operation) → List Operation
concat [] = []
concat (b ∷ bs) = b ++ concat bs

length-concat : (bs : List (List Operation)) → length (concat bs) ≡ size bs
length-concat [] = refl
length-concat (b ∷ bs) = omega (arith, length-append b (concat bs), length-concat bs)

numbered-concat :
    (n : ℕ) (a b : List Operation) → numbered n (a ++ b) ≡ numbered n a ++ numbered (n + length a) b
numbered-concat n [] b = let here : n ≡ n + 0 = omega arith in ap (λ k. numbered k b) here
numbered-concat n (o ∷ a) b =
    let after : n + 1 + length a ≡ n + suc (length a) = omega arith in
    ap (λ es. record { term = n + 1; index = n + 1; op_type = o.0; payload = o.1 } ∷ es)
      (numbered-concat (n + 1) a b ∙ ap (λ k. numbered (n + 1) a ++ numbered k b) after)

last_index-append :
    (d : ℕ) (a b : List EditLogEntry) → last_index d (a ++ b) ≡ last_index (last_index d a) b
unfolding last_index
last_index-append d [] b = refl
last_index-append d (e ∷ a) b = last_index-append e.index a b

replayed-append :
    (a b : List EditLogEntry) (log : EditLog) → replayed b (replayed a log) ≡ replayed (a ++ b) log
replayed-append a b log =
    ap (λ es. record (replayed b (replayed a log)) { entries = es }) (append_assoc log.entries a b)
    ∙ ap (λ k. record (replayed (a ++ b) log) { last_applied_index = k })
        (sym (last_index-append log.last_applied_index a b))

-- The log that a new one becomes by replaying `n` flushed entries.
abbrev pub recovered : List (List Operation) → EditLog
recovered bs = record {
  entries = numbered 0 (concat bs);
  last_applied_index = size bs;
  current_term = 0;
  voted_for = none;
}

module _ (to_string : EditLogEntry → Bytes) (from_slice : Bytes → Option EditLogEntry)
    (codec : IsCodec to_string from_slice) where
  replay_files-files_of :
      (m : ℕ) (bs : List (List Operation)) (log : EditLog)
      → replay_files from_slice (files_of to_string m bs) log
        ≡ replayed (numbered m (concat bs)) log
  unfolding replay_files last_index
  replay_files-files_of m [] log =
      ap (λ es. record log { entries = es }) (sym (append-nil log.entries))
  replay_files-files_of m (b ∷ bs) log =
      ap (replay_files from_slice (files_of to_string (m + length b) bs))
        (replay_lines-write_entries to_string from_slice codec (numbered m b) log)
      ∙ replay_files-files_of (m + length b) bs (replayed (numbered m b) log)
      ∙ replayed-append (numbered m b) (numbered (m + length b) (concat bs)) log
      ∙ ap (λ es. replayed es log) (sym (numbered-concat m b (concat bs)))

  recovers :
      (bs : List (List Operation))
      → replay_files from_slice (files_of to_string 0 bs) new ≡ recovered bs
  recovers bs =
      let last : last_index 0 (numbered 0 (concat bs)) ≡ size bs =
        last_index-numbered 0 (concat bs) ∙ omega (arith, length-concat bs) in
      replay_files-files_of 0 bs new
      ∙ ap (λ k. record (recovered bs) { last_applied_index = k }) last

-- Let the texts of the entries be read back as they were written, and let the names of the files sort in
-- the order of the flushes. After any sequence of appends and flushes, a new log that replays the
-- directory holds every entry that was flushed, in order, and its last applied index is their number;
-- its term is 0. The index of the next entry is then twice their number and one.
pub replay-run_commands :
    (to_string : EditLogEntry → Bytes) (from_slice : Bytes → Option EditLogEntry)
    (codec : IsCodec to_string from_slice) (commands : List Command) (next : Operation)
    → sort_by_name (run_commands to_string commands ([], new)).0
      ≡ (run_commands to_string commands ([], new)).0
    → (replay from_slice (run_commands to_string commands ([], new)).0 new
        ≡ recovered (record_commands commands no_history).batches)
      × ((append next.0 next.1
            (replay from_slice (run_commands to_string commands ([], new)).0 new)).1
          ≡ 2 * size (record_commands commands no_history).batches + 1)
unfolding replay append
replay-run_commands to_string from_slice codec commands next sorted =
    let bs : List (List Operation) = (record_commands commands no_history).batches in
    let files : (run_commands to_string commands ([], new)).0 ≡ files_of to_string 0 bs =
      ap (λ state. state.0) (run_commands-record_commands to_string commands) in
    let replays : replay from_slice (run_commands to_string commands ([], new)).0 new
        ≡ recovered bs =
      ap (λ fs. replay_files from_slice fs new) (sorted ∙ files)
      ∙ recovers to_string from_slice codec bs in
    (
      replays,
      ap (λ log. (append next.0 next.1 log).1) replays
          ∙ omega (arith, length-numbered 0 (concat bs), length-concat bs),
    )
