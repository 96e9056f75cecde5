-- ===== src/Common/EditLog/Lines.antt =====
-- crates/fe-common/src/edit_log.rs: a file that is replayed gives the entries that were written to it.
use roris_db.Prelude.{
  ◌≡◌, ◌≢◌, refl, sym, ap, ◌∙◌, false, Option, some, List, [], ◌∷◌, ◌++◌, append-nil, append_assoc,
  All, ◌==◌,
}
use roris_db.Bytes.{Bytes}
use roris_db.Common.EditLog.{
  EditLogEntry, EditLog, last_index, split_lines, write_entries, replay_line, replay_lines,
}

-- the line `l`, and then those of `s`
split_lines-line :
    (l s : Bytes)
    → All (λ c. (c == b'\n') ≡ false) l
    → split_lines (l ++ b'\n' ∷ s) ≡ l ∷ split_lines s
unfolding split_lines
split_lines-line [] s one = refl
split_lines-line (c ∷ l) s (other, one) = rw (other, split_lines-line l s one) refl

-- What the texts of `serde_json` are for the log: an entry's text has no newline and is not empty, and
-- reading it gives the entry back.
unfoldable pub IsCodec : (EditLogEntry → Bytes) → (Bytes → Option EditLogEntry) → Type 0
IsCodec to_string from_slice =
    (e : EditLogEntry)
    → All (λ c. (c == b'\n') ≡ false) (to_string e)
      × (to_string e ≢ [])
      × (from_slice (to_string e) ≡ some e)

-- after the entries of a file
abbrev pub replayed : List EditLogEntry → EditLog → EditLog
replayed es log = record log {
  last_applied_index = last_index log.last_applied_index es;
  entries = log.entries ++ es;
}

module _ (to_string : EditLogEntry → Bytes) (from_slice : Bytes → Option EditLogEntry)
    (codec : IsCodec to_string from_slice) where
  read_line :
      (line : Bytes) (e : EditLogEntry) (log : EditLog)
      → line ≢ []
      → from_slice line ≡ some e
      → replay_line from_slice line log
        ≡ record log { last_applied_index = e.index; entries = log.entries ++ e ∷ [] }
  unfolding replay_line
  read_line [] e log nonempty reads = absurd (nonempty refl)
  read_line (c ∷ line) e log nonempty reads = rw (reads, replay_line) refl

  replay_line-to_string :
      (e : EditLogEntry) (log : EditLog)
      → replay_line from_slice (to_string e) log
        ≡ record log { last_applied_index = e.index; entries = log.entries ++ e ∷ [] }
  unfolding IsCodec
  replay_line-to_string e log = read_line (to_string e) e log (codec e).1 (codec e).2

  pub replay_lines-write_entries :
      (es : List EditLogEntry) (log : EditLog)
      → replay_lines from_slice (split_lines (write_entries to_string es)) log ≡ replayed es log
  unfolding split_lines write_entries replay_lines replay_line last_index IsCodec
  replay_lines-write_entries [] log =
      ap (λ es. record log { entries = es }) (sym (append-nil log.entries))
  replay_lines-write_entries (e ∷ es) log =
      let here : EditLog = record log {
        last_applied_index = e.index;
        entries = log.entries ++ e ∷ [];
      } in
      rw (split_lines-line (to_string e) (write_entries to_string es) (codec e).0) (
        ap (replay_lines from_slice (split_lines (write_entries to_string es)))
          (replay_line-to_string e log)
        ∙ replay_lines-write_entries es here
        ∙ ap (λ all. record here { last_applied_index = last_index e.index es; entries = all })
            (append_assoc log.entries (e ∷ []) es))
