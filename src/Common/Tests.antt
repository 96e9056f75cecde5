-- ===== src/Common/Tests.antt =====
-- The theorems about the edit log at a concrete sequence of commands, with a text for the entries that
-- has no newline.
use roris_db.Prelude.{
  ℕ, zero, suc, ◌+◌, ◌*◌, ◌≡◌, ◌≢◌, refl, ap, ◌∙◌, true, false, Option, none, some, List, [], ◌∷◌,
  ◌++◌, All, ◌==◌, arith,
}
use roris_db.Bytes.{Bytes, str, bytes_eq}
use roris_db.Bytes.Decimal.{nat_to_string}
use roris_db.Table.{insert}
use roris_db.Common.EditLog.{
  OpType, create_database, drop_database, create_table, drop_table, alter_database, alter_table,
  create_tablet, drop_tablet, alter_tablet, add_backend, remove_backend, update_stats, EditLogEntry,
  new, append, sort_by_name, replay, file_name, flush, name_le,
}
use roris_db.Common.EditLog.Lines.{IsCodec}
use roris_db.Common.EditLog.History.{
  Command, appending, flushing, size, record_commands, no_history, run_commands, state_of,
}
use roris_db.Common.EditLog.History.Refines.{run_commands-record_commands}
use roris_db.Common.EditLog.History.Replay.{recovered, replay-run_commands}

-- A number is so many ones and a zero.
abbrev unary : ℕ → Bytes
unary zero = 0 ∷ []
unary (suc n) = 1 ∷ unary n

abbrev unaries : List ℕ → Bytes
unaries [] = []
unaries (n ∷ ns) = unary n ++ unaries ns

abbrev read_unaries : ℕ → Bytes → List ℕ
read_unaries n [] = []
read_unaries n (zero ∷ s) = n ∷ read_unaries 0 s
read_unaries n (suc c ∷ s) = read_unaries (n + 1) s

read_unaries-unary :
    (n m : ℕ) (s : Bytes) → read_unaries n (unary m ++ s) ≡ (n + m) ∷ read_unaries 0 s
read_unaries-unary n zero s =
    let here : n ≡ n + 0 = omega arith in ap (λ k. k ∷ read_unaries 0 s) here
read_unaries-unary n (suc m) s =
    let after : n + 1 + m ≡ n + suc m = omega arith in
    read_unaries-unary (n + 1) m s ∙ ap (λ k. k ∷ read_unaries 0 s) after

read_unaries-unaries : (ns : List ℕ) → read_unaries 0 (unaries ns) ≡ ns
read_unaries-unaries [] = refl
read_unaries-unaries (n ∷ ns) =
    let here : 0 + n ≡ n = omega arith in
    read_unaries-unary 0 n (unaries ns)
    ∙ ap (λ k. k ∷ read_unaries 0 (unaries ns)) here
    ∙ ap (λ ms. n ∷ ms) (read_unaries-unaries ns)

abbrev code : OpType → ℕ
code create_database = 0
code drop_database = 1
code create_table = 2
code drop_table = 3
code alter_database = 4
code alter_table = 5
code create_tablet = 6
code drop_tablet = 7
code alter_tablet = 8
code add_backend = 9
code remove_backend = 10
code update_stats = 11

abbrev op_types : List OpType
op_types =
    create_database ∷ drop_database ∷ create_table ∷ drop_table ∷ alter_database ∷ alter_table
    ∷ create_tablet ∷ drop_tablet ∷ alter_tablet ∷ add_backend ∷ remove_backend ∷ update_stats ∷ []

abbrev nth : ℕ → List OpType → Option OpType
nth n [] = none
nth zero (o ∷ os) = some o
nth (suc n) (o ∷ os) = nth n os

nth-code : (o : OpType) → nth (code o) op_types ≡ some o
nth-code create_database = refl
nth-code drop_database = refl
nth-code create_table = refl
nth-code drop_table = refl
nth-code alter_database = refl
nth-code alter_table = refl
nth-code create_tablet = refl
nth-code drop_tablet = refl
nth-code alter_tablet = refl
nth-code add_backend = refl
nth-code remove_backend = refl
nth-code update_stats = refl

abbrev to_text : EditLogEntry → Bytes
to_text e = unaries (e.term ∷ e.index ∷ code e.op_type ∷ e.payload)

abbrev of_numbers : List ℕ → Option EditLogEntry
of_numbers (term ∷ index ∷ c ∷ payload) = elim (nth c op_types) [
  | none ↦ none
  | some o ↦ some (record { term = term; index = index; op_type = o; payload = payload })
]
of_numbers _ = none

abbrev of_text : Bytes → Option EditLogEntry
of_text s = of_numbers (read_unaries 0 s)

one_line :
    (n : ℕ) (s : Bytes)
    → All (λ c. (c == b'\n') ≡ false) s
    → All (λ c. (c == b'\n') ≡ false) (unary n ++ s)
one_line zero s h = (refl, h)
one_line (suc n) s h = (refl, one_line n s h)

unaries_one_line : (ns : List ℕ) → All (λ c. (c == b'\n') ≡ false) (unaries ns)
unaries_one_line [] = tt
unaries_one_line (n ∷ ns) = one_line n (unaries ns) (unaries_one_line ns)

unary_nonempty : (n : ℕ) (s : Bytes) → unary n ++ s ≢ []
unary_nonempty zero s e = absurd (ground arith)
unary_nonempty (suc n) s e = absurd (ground arith)

text-IsCodec : IsCodec to_text of_text
unfolding IsCodec
text-IsCodec e = (
  unaries_one_line (e.term ∷ e.index ∷ code e.op_type ∷ e.payload),
  unary_nonempty e.term (unaries (e.index ∷ code e.op_type ∷ e.payload)),
  ap of_numbers (read_unaries-unaries (e.term ∷ e.index ∷ code e.op_type ∷ e.payload))
      ∙ rw (nth-code e.op_type, of_numbers) refl,
)

abbrev session : List Command
session =
    appending (create_database, str "a")
    ∷ appending (create_table, str "b")
    ∷ flushing
    ∷ appending (drop_table, str "c")
    ∷ flushing
    ∷ flushing
    ∷ appending (drop_database, [])
    ∷ []

run_commands-record_commands_example :
    run_commands to_text session ([], new) ≡ state_of to_text (record_commands session no_history)
run_commands-record_commands_example = run_commands-record_commands to_text session

replay-run_commands_example :
    (replay of_text (run_commands to_text session ([], new)).0 new
      ≡ recovered (record_commands session no_history).batches)
    × ((append drop_table [] (replay of_text (run_commands to_text session ([], new)).0 new)).1
        ≡ 2 * size (record_commands session no_history).batches + 1)
unfolding sort_by_name flush append insert bytes_eq str nat_to_string name_le
replay-run_commands_example =
    replay-run_commands to_text of_text text-IsCodec session (drop_table, []) refl

-- The file of ten entries sorts before that of two.
names_out_of_order : name_le (file_name 10) (file_name 2) ≡ true
unfolding name_le file_name str nat_to_string
names_out_of_order = refl
