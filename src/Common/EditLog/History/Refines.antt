-- ===== src/Common/EditLog/History/Refines.antt =====
-- crates/fe-common/src/edit_log.rs: the log and its files are those of the history, and a replay gives
-- the history back.
use roris_db.Prelude.{
  ℕ, suc, ◌+◌, ◌<◌, ◌≡◌, refl, sym, ap, ◌∙◌, none, List, [], ◌∷◌, ◌++◌, length, length-append,
  arith,
}
use roris_db.Bytes.{Bytes}
use roris_db.Table.{Table, insert}
use roris_db.Common.EditLog.{
  EditLogEntry, EditLog, new, append, last_index, file_name, write_entries, flush,
}
use roris_db.Common.EditLog.History.{
  Operation, Command, appending, flushing, History, size, numbered, record_command, record_commands,
  no_history, run_command, run_commands, files_of, state_of,
}
use roris_db.Common.EditLog.History.Names.{insert-file_name}

pub length-numbered : (n : ℕ) (ops : List Operation) → length (numbered n ops) ≡ length ops
length-numbered n [] = refl
length-numbered n (op ∷ ops) = ap suc (length-numbered (n + 1) ops)

pub last_index-numbered :
    (n : ℕ) (ops : List Operation) → last_index n (numbered n ops) ≡ n + length ops
unfolding last_index
last_index-numbered n [] = omega arith
last_index-numbered n (op ∷ ops) = omega (arith, last_index-numbered (n + 1) ops)

numbered-append :
    (n : ℕ) (ops : List Operation) (op : Operation)
    → numbered n (ops ++ op ∷ []) ≡ numbered n ops ++ numbered (n + length ops) (op ∷ [])
numbered-append n [] op = let here : n ≡ n + 0 = omega arith in ap (λ k. numbered k (op ∷ [])) here
numbered-append n (o ∷ ops) op =
    let after : n + 1 + length ops ≡ n + suc (length ops) = omega arith in
    ap (λ es. record { term = n + 1; index = n + 1; op_type = o.0; payload = o.1 } ∷ es)
      (numbered-append (n + 1) ops op
        ∙ ap (λ k. numbered (n + 1) ops ++ numbered k (op ∷ [])) after)

size-append :
    (bs : List (List Operation)) (b : List Operation) → size (bs ++ b ∷ []) ≡ size bs + length b
size-append [] b = omega arith
size-append (c ∷ bs) b = omega (arith, size-append bs b)

-- a flush has operations
abbrev IsBatched : List (List Operation) → Type 0
IsBatched [] = Unit
IsBatched (b ∷ bs) = (0 < length b) × IsBatched bs

IsBatched-append :
    (bs : List (List Operation)) (b : List Operation)
    → IsBatched bs
    → 0 < length b
    → IsBatched (bs ++ b ∷ [])
IsBatched-append [] b batched some_op = (some_op, tt)
IsBatched-append (c ∷ bs) b (here, batched) some_op = (here, IsBatched-append bs b batched some_op)

pending-IsBatched :
    (bs : List (List Operation)) (p : List Operation)
    → IsBatched bs
    → IsBatched (record_command flushing (record { batches = bs; pending = p })).batches
pending-IsBatched bs [] batched = batched
pending-IsBatched bs (op ∷ ops) batched = IsBatched-append bs (op ∷ ops) batched (omega arith)

module _ (to_string : EditLogEntry → Bytes) where
  -- the next file stands behind the others
  insert-files_of :
      (m n : ℕ) (bs : List (List Operation)) (b : List Operation)
      → IsBatched bs
      → n ≡ m + size bs
      → insert (file_name n) (write_entries to_string (numbered n b)) (files_of to_string m bs)
        ≡ files_of to_string m (bs ++ b ∷ [])
  unfolding insert
  insert-files_of m n [] b batched e =
      let here : n ≡ m = omega arith in
      ap (λ k. (file_name k, write_entries to_string (numbered k b)) ∷ []) here
  insert-files_of m n (c ∷ bs) b (some_op, batched) e =
      insert-file_name m n (write_entries to_string (numbered n b))
        (write_entries to_string (numbered m c)) (files_of to_string (m + length c) bs)
        (λ same. absurd (omega (arith, same)))
      ∙ ap (λ files. (file_name m, write_entries to_string (numbered m c)) ∷ files)
          (insert-files_of (m + length c) n bs b batched (omega arith))

  append_step :
      (op : Operation) (h : History)
      → run_command to_string (appending op) (state_of to_string h)
        ≡ state_of to_string (record_command (appending op) h)
  unfolding append
  append_step op h =
      let n : ℕ = size h.batches in
      let files : Table Bytes = files_of to_string 0 h.batches in
      let term : ℕ = n + length h.pending + 1 in
      let at : ℕ → List EditLogEntry → EditLog = λ t es. record {
        entries = es;
        last_applied_index = n;
        current_term = t;
        voted_for = none;
      } in
      let entry : ℕ → EditLogEntry =
        λ k. record { term = term; index = k; op_type = op.0; payload = op.1 } in
      let index : length (numbered n h.pending) + n + 1 ≡ term =
        omega (arith, length-numbered n h.pending) in
      let last : term ≡ n + length (h.pending ++ op ∷ []) =
        omega (arith, length-append h.pending (op ∷ [])) in
      ap (λ k. (files, at term (numbered n h.pending ++ entry k ∷ []))) index
      ∙ ap (λ es. (files, at term es)) (sym (numbered-append n h.pending op))
      ∙ ap (λ t. (files, at t (numbered n (h.pending ++ op ∷ [])))) last

  flush_pending :
      (bs : List (List Operation)) (p : List Operation)
      → IsBatched bs
      → run_command to_string flushing (state_of to_string (record { batches = bs; pending = p }))
        ≡ state_of to_string (record_command flushing (record { batches = bs; pending = p }))
  unfolding flush last_index
  flush_pending bs [] batched = refl
  flush_pending bs (op ∷ ops) batched =
      let p : List Operation = op ∷ ops in
      let n : ℕ = size bs in
      let flushed : ℕ → ℕ → EditLog = λ last t. record {
        entries = [];
        last_applied_index = last;
        current_term = t;
        voted_for = none;
      } in
      let term : ℕ = n + length p in
      let last : last_index n (numbered n p) ≡ size (bs ++ p ∷ []) =
        last_index-numbered n p ∙ sym (size-append bs p) in
      let total : term ≡ size (bs ++ p ∷ []) + 0 = omega (arith, size-append bs p) in
      ap (λ files. (files, flushed (last_index n (numbered n p)) term))
        (insert-files_of 0 n bs p batched (omega arith))
      ∙ ap (λ k. (files_of to_string 0 (bs ++ p ∷ []), flushed k term)) last
      ∙ ap (λ t. (files_of to_string 0 (bs ++ p ∷ []), flushed (size (bs ++ p ∷ [])) t)) total

  run_command-state_of :
      (c : Command) (h : History)
      → IsBatched h.batches
      → run_command to_string c (state_of to_string h) ≡ state_of to_string (record_command c h)
  run_command-state_of (appending op) h batched = append_step op h
  run_command-state_of flushing h batched = flush_pending h.batches h.pending batched

  record_command-IsBatched :
      (c : Command) (h : History) → IsBatched h.batches → IsBatched (record_command c h).batches
  record_command-IsBatched (appending op) h batched = batched
  record_command-IsBatched flushing h batched = pending-IsBatched h.batches h.pending batched

  run_commands-state_of :
      (commands : List Command) (h : History)
      → IsBatched h.batches
      → run_commands to_string commands (state_of to_string h)
        ≡ state_of to_string (record_commands commands h)
  run_commands-state_of [] h batched = refl
  run_commands-state_of (c ∷ commands) h batched =
      ap (run_commands to_string commands) (run_command-state_of c h batched)
      ∙ run_commands-state_of commands (record_command c h) (record_command-IsBatched c h batched)

  -- Whatever sequence of appends and flushes a new log on an empty directory goes through, it holds the
  -- entries since the last flush, and the files hold the entries of each flush; every entry has its
  -- number in the sequence for its index and its term, the last applied index is the number of entries
  -- flushed, and the current term the number of entries.
  pub run_commands-record_commands :
      (commands : List Command)
      → run_commands to_string commands ([], new)
        ≡ state_of to_string (record_commands commands no_history)
  run_commands-record_commands commands = run_commands-state_of commands no_history tt
