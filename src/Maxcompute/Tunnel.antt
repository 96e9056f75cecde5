-- ===== src/Maxcompute/Tunnel.antt =====
-- crates/maxcompute-protocol/src/tunnel: the sessions that upload and download tables (session.rs) and
-- their schemas (schema.rs). The query handler is an argument with a state of its own; a time is a number of
-- seconds, and the next identifier of a session is an argument.
pub mod Blocks
pub mod Sql
pub mod Manager
pub mod Steps
pub mod Evict
pub mod Aged
pub mod Removal
pub mod Capacity
pub mod Frozen
pub mod Fate
pub mod Invariant
pub mod Pages
pub mod Commit
pub mod Square
pub mod Parallel
pub mod Varint
pub mod Io
pub mod Handlers
pub mod Requests
use roris_db.Prelude.{ℕ, ◌+◌, Bool, Option, none, some, List, [], ◌∷◌, ◌++◌, length}
use roris_db.Bytes.{Bytes}
use roris_db.Table.{Table}

pub record TunnelColumn : Type 0 where
  pub name : Bytes
  pub odps_type : Bytes
  pub nullable : Bool
  pub comment : Option Bytes

pub record TunnelSchema : Type 0 where
  pub columns : List TunnelColumn
  pub partition_keys : List TunnelColumn

abbrev pub all_columns : TunnelSchema → List TunnelColumn
all_columns s = s.columns ++ s.partition_keys

abbrev pub column_count : TunnelSchema → ℕ
column_count s = length s.columns + length s.partition_keys

-- a row of a table: a text per column, or null
abbrev pub Row : Type 0
Row = List (Option Bytes)

pub data UploadStatus : Type 0 where
  normal committed expired : UploadStatus

pub record UploadSession : Type 0 where
  pub upload_id : Bytes
  pub project : Bytes
  pub table : Bytes
  pub schema : TunnelSchema
  -- the blocks by their numbers, in ascending order
  pub blocks : List (ℕ × List Row)
  pub status : UploadStatus
  pub created_at : ℕ
  pub overwrite : Bool

-- `DownloadStatus::Normal` and `DownloadStatus::Expired`, under names apart from those of an upload
pub data DownloadStatus : Type 0 where
  ready outdated : DownloadStatus

pub record DownloadSession : Type 0 where
  pub download_id : Bytes
  pub project : Bytes
  pub table : Bytes
  pub schema : TunnelSchema
  pub record_count : ℕ
  pub cached_data : List Row
  pub status : DownloadStatus
  pub created_at : ℕ

pub record TunnelSessionManager : Type 0 where
  pub upload_sessions : Table UploadSession
  pub download_sessions : Table DownloadSession

-- what the tunnel reads of a `QueryResult`: the names of its columns, and its rows
pub record QueryResult : Type 0 where
  pub columns : List Bytes
  pub rows : List Row

-- The query handler, with its state `H`, and `str::to_uppercase`.
pub record Engine (H : Type 0) : Type 0 where
  pub set_database : ℕ → Bytes → H → H
  pub handle_query : ℕ → Bytes → H → QueryResult × H
  pub to_uppercase : Bytes → Bytes
