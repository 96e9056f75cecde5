-- ===== src/Maxcompute/Tests.antt =====
-- The tunnel's theorems at a query handler that keeps the statements it is asked, and knows one table.
mod Io
use Prim.Native.Nat.{min}
use roris_db.Prelude.{
  ℕ, ◌+◌, ◌≡◌, refl, true, false, none, some, List, [], ◌∷◌, ◌⊎◌, if◌then◌else◌, arith,
}
use roris_db.Bytes.{Bytes, str, bytes_eq}
use roris_db.Table.{lookup}
use roris_db.Maxcompute.Tunnel.{
  TunnelColumn, TunnelSchema, Row, normal, committed, ready, UploadSession, DownloadSession,
  TunnelSessionManager, QueryResult, Engine,
}
use roris_db.Maxcompute.Tunnel.Blocks.{all_rows}
use roris_db.Maxcompute.Tunnel.Sql.{starts_with, build_insert_sql}
use roris_db.Maxcompute.Tunnel.Evict.{evict_oldest, total_sessions}
use roris_db.Maxcompute.Tunnel.Capacity.{total-evict_oldest}
use roris_db.Maxcompute.Tunnel.Manager.{
  ok, err, panicked, cannot_be_committed, not_in_normal_state, upload_block, commit_upload,
  get_download_data,
}
use roris_db.Maxcompute.Tunnel.Steps.{
  Call, creating_upload, creating_download, uploading, committing, cleaning, run,
}
use roris_db.Maxcompute.Tunnel.Fate.{some_can_remove, run-committed}
use roris_db.Maxcompute.Tunnel.Invariant.{IsSound, run-IsSound}
use roris_db.Maxcompute.Tunnel.Pages.{
  append_pages, get_download_data-append, get_download_data_wraps,
}
use roris_db.Maxcompute.Tunnel.Commit.{AskedOnce, commit_upload-commit_upload}
use roris_db.Maxcompute.Tunnel.Parallel.{upload_block-upload_block}

abbrev id_column : TunnelColumn
id_column = record { name = str "id"; odps_type = str "INT"; nullable = true; comment = none }

abbrev name_column : TunnelColumn
name_column = record {
  name = str "name";
  odps_type = str "STRING";
  nullable = true;
  comment = none;
}

abbrev pub users : TunnelSchema
users = record { columns = id_column ∷ name_column ∷ []; partition_keys = [] }

abbrev pub ann : Row
ann = some (str "1") ∷ some (str "O'Neill") ∷ []

abbrev pub bob : Row
bob = some (str "2") ∷ none ∷ []

abbrev answer : Bytes → QueryResult
answer sql =
    if starts_with (str "DESCRIBE") sql
    then record {
      columns = str "Field" ∷ str "Type" ∷ [];
      rows =
          (some (str "id") ∷ some (str "INT") ∷ [])
          ∷ (some (str "name") ∷ some (str "VARCHAR") ∷ [])
          ∷ [];
    }
    else if starts_with (str "SELECT") sql
    then record { columns = str "id" ∷ str "name" ∷ []; rows = ann ∷ bob ∷ ann ∷ [] }
    else record { columns = []; rows = [] }

abbrev pub engine : Engine (List Bytes)
engine = record {
  set_database = λ conn_id project h. h;
  handle_query = λ conn_id sql h. (answer sql, sql ∷ h);
  to_uppercase = λ s. s;
}

abbrev upload : List (ℕ × List Row) → UploadSession
upload blocks = record {
  upload_id = str "u1";
  project = str "p";
  table = str "users";
  schema = users;
  blocks = blocks;
  status = normal;
  created_at = 7;
  overwrite = false;
}

abbrev pub two_blocks : UploadSession
two_blocks = upload ((0, ann ∷ []) ∷ (3, bob ∷ []) ∷ [])

abbrev download : DownloadSession
download = record {
  download_id = str "d1";
  project = str "p";
  table = str "users";
  schema = users;
  record_count = 3;
  cached_data = ann ∷ bob ∷ ann ∷ [];
  status = ready;
  created_at = 9;
}

abbrev pub with_upload : UploadSession → TunnelSessionManager
with_upload s = record {
  upload_sessions = (str "u1", s) ∷ [];
  download_sessions = (str "d1", download) ∷ [];
}

abbrev done : UploadSession
done = record two_blocks { status = committed }

abbrev calls : List Call
calls =
    creating_upload (str "u2") 10 (str "p") (str "users") 1
    ∷ uploading (str "u2") 0 (bob ∷ [])
    ∷ uploading (str "u1") 4 (bob ∷ [])
    ∷ committing (str "u2") 1
    ∷ committing (str "u1") 1
    ∷ creating_download (str "d2") 11 (str "p") (str "users") 1
    ∷ cleaning 3608
    ∷ []

-- The statement that a commit of the two blocks runs.
insert_users :
    build_insert_sql (λ s. s) two_blocks (ann ∷ bob ∷ [])
    ≡ some (str "INSERT INTO `p`.`users` (`id`, `name`) VALUES (1, 'O''Neill'), (2, NULL)")
unfolding build_insert_sql str bytes_eq
insert_users = refl

commit_upload-commit_upload_example :
    ((s : UploadSession) × (lookup (str "u1") (with_upload two_blocks).upload_sessions ≡ some s)
      × AskedOnce engine 1 s
          (all_rows s.blocks)
          []
          (commit_upload engine (str "u1") 1 (with_upload two_blocks, [])).1.1)
    × (commit_upload engine
          (str "u1")
          2
          (commit_upload engine (str "u1") 1 (with_upload two_blocks, [])).1
        ≡ (
          err (cannot_be_committed (str "u1") committed),
          (commit_upload engine (str "u1") 1 (with_upload two_blocks, [])).1,
        ))
    × (upload_block
          (str "u1")
          4
          (bob ∷ [])
          (commit_upload engine (str "u1") 1 (with_upload two_blocks, [])).1.0
        ≡ (
          err (not_in_normal_state (str "u1") committed),
          (commit_upload engine (str "u1") 1 (with_upload two_blocks, [])).1.0,
        ))
unfolding commit_upload lookup bytes_eq str build_insert_sql
commit_upload-commit_upload_example =
    commit_upload-commit_upload engine (str "u1") 1 2 4 (bob ∷ []) (0 ∷ 3 ∷ [])
      (with_upload two_blocks) [] refl

upload_block-upload_block_example :
    ((upload_block (str "u1") 5 (ann ∷ []) (with_upload two_blocks)).0 ≡ ok tt)
    × ((upload_block
          (str "u1")
          1
          (bob ∷ [])
          (upload_block (str "u1") 5 (ann ∷ []) (with_upload two_blocks)).1).0
        ≡ ok tt)
    × (upload_block
          (str "u1")
          1
          (bob ∷ [])
          (upload_block (str "u1") 5 (ann ∷ []) (with_upload two_blocks)).1
        ≡ upload_block
            (str "u1")
            5
            (ann ∷ [])
            (upload_block (str "u1") 1 (bob ∷ []) (with_upload two_blocks)).1)
unfolding lookup bytes_eq str
upload_block-upload_block_example =
    upload_block-upload_block (str "u1") 5 1 (ann ∷ []) (bob ∷ []) (with_upload two_blocks)
      two_blocks refl refl refl

get_download_data-append_example :
    get_download_data (str "d1") 1 (1 + 5) (with_upload two_blocks)
    ≡ append_pages
        (get_download_data (str "d1") 1 1 (with_upload two_blocks))
        (get_download_data (str "d1") (1 + 1) 5 (with_upload two_blocks))
unfolding lookup bytes_eq str
get_download_data-append_example =
    get_download_data-append (str "d1") 1 1 5 (with_upload two_blocks) download refl refl
      (omega arith)

run-committed_example :
    (lookup (str "u1") (run engine calls (with_upload done, [])).0.upload_sessions ≡ some done)
    ⊎ ((lookup (str "u1") (run engine calls (with_upload done, [])).0.upload_sessions ≡ none)
        × (some_can_remove engine done calls (with_upload done, []) ≡ true))
unfolding IsSound lookup bytes_eq str
run-committed_example =
    run-committed engine (str "u1") done calls (with_upload done, [])
      (((refl, tt), (refl, tt)), omega arith) refl refl
      (refl, (tt, (tt, (tt, (tt, (tt, (tt, tt)))))))

run-IsSound_example : IsSound (run engine calls (with_upload two_blocks, [])).0
unfolding IsSound lookup bytes_eq str
run-IsSound_example =
    run-IsSound engine calls (with_upload two_blocks, []) (((refl, tt), (refl, tt)), omega arith)

total-evict_oldest_example :
    total_sessions (evict_oldest 1 (with_upload two_blocks))
    ≡ min 1 (total_sessions (with_upload two_blocks))
unfolding lookup bytes_eq str
total-evict_oldest_example = total-evict_oldest 1 (with_upload two_blocks) ((refl, tt), (refl, tt))
