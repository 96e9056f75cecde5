-- ===== src/Lib.antt =====
-- RorisDB: its Redis endpoint (crates/redis-protocol/src), the packets and rows of its MySQL endpoint
-- (crates/mysql-protocol/src), the bitmap of its columns (crates/types/src/bitmap.rs), the log of
-- its metadata (crates/fe-common/src/edit_log.rs) and the tunnel of its MaxCompute endpoint
-- (crates/maxcompute-protocol/src/tunnel).
--
-- The program's parts. A connection reads bytes from its socket into a buffer. `RespParser::parse`
-- takes a command from the front of the buffer, or asks for more bytes; `handle_command` finds the
-- command's name in a table and runs it on the database that the connection has selected;
-- `RespEncoder` writes the reply. The databases are concurrent maps from keys to values that may
-- carry a deadline. The MySQL endpoint takes packets from its own buffer by their headers and answers
-- with packets of length-encoded fields; the engine's columns mark their nulls in a bitmap; the front
-- end logs each change of its metadata, flushes the log to files and replays them when it starts. The
-- MaxCompute endpoint keeps sessions that collect the blocks of a table, or its rows, and asks the same
-- query handler as the MySQL endpoint to insert or to select them.
--
-- The files and the code:
--   Prelude, Bytes, Table   shared types: native numbers and ℤ with Rust's `i64` arithmetic, byte
--                           strings with UTF-8 validation, `split_whitespace` and the decimal
--                           text of integers, and maps as association lists
--   Resp                    `RespValue` and `RespError` of resp.rs
--   Resp.Encoder            `RespEncoder`; `encode v rest` is what `encode` puts before `rest`
--   Resp.Parser             `RespParser`, a function per function of the source
--   Resp.RoundTrip.*        encoding and parsing back
--   Resp.Fuel, .Progress    the parser's end, and what it takes
--   Redis.Storage           storage.rs: a function per method of `Database` and `RedisStorage`
--   Redis.Storage.Glob      `glob_to_regex`
--   Redis.Storage.View      the map that clients see, and the operations against it
--   Redis.Storage.Refinement  the theorems that follow
--   Redis.Storage.Unique    that the entries of a database have distinct keys
--   Redis.Runtime           what the handler takes from outside: see below
--   Redis.Handler           handler.rs: the dispatch, with a child for the arguments (`Args`) and
--                           for each family of commands, `cmd_x` for the method `cmd_x`
--   Redis.Handler.Confined.*, .Writes, .SetGet, .Counter, .Rename, .Growth, .Ranges,
--   .Deletes, .Fields       its theorems
--   Redis.Connection        connection.rs: `run` between two reads of the socket
--   Redis.Connection.Drain, .Pipeline  its theorems
--   Bytes.Endian, Bytes.Bits  little-endian numbers, and the digits that `&`, `|` and `!` act on
--   Mysql.Value             value.rs of crates/mysql-protocol/src
--   Mysql.Packet            packet.rs: `PacketBuilder`, the packets that the server sends, and
--                           `read_lenenc_int`
--   Mysql.Packet.Framing    `read_packet` of connection.rs, between two reads of the socket
--   Mysql.Packet.Rows       the rows of packet.rs; `put_x` works on the builder and `extend_x` on the
--                           buffer of the versions that end in `_into`
--   Mysql.Packet.Greeting   `HandshakeV10` of packet.rs
--   Mysql.Packet.Handshake  `HandshakeResponse::parse` of packet.rs
--   Mysql.Packet.Lenenc, .Rows.Into, .Handshake.*  their theorems
--   Types.Bitmap            bitmap.rs, a function per method; a method that indexes the words
--                           returns an option, which is `none` where the index is out of bounds
--   Types.Bitmap.Words, .Valid.*  its bits, its invariant, and the theorems
--   Common.EditLog          edit_log.rs: a function per method of `EditLog`
--   Common.EditLog.Lines    a file that is written and replayed
--   Common.EditLog.History.*  the log against a history of operations without files
--   Maxcompute.Tunnel       the data of session.rs and schema.rs
--   Maxcompute.Tunnel.Blocks, .Sql, .Evict, .Manager  session.rs: the blocks of an upload, the
--                           statements, the eviction, and the methods of `TunnelSessionManager`
--   Maxcompute.Tunnel.Steps  the calls of the manager as steps
--   Maxcompute.Tunnel.Aged, .Removal, .Capacity, .Invariant, .Frozen, .Fate, .Commit, .Square,
--   .Parallel, .Pages
--                           its theorems
--   Maxcompute.Tunnel.Varint, .Io, .Io.Write, .Io.Read  io.rs: varints, the kinds of fields,
--                           `TunnelWriter` and `TunnelReader`
--   Maxcompute.Tunnel.Io.At, .Stream, .Fields, .Records, .RoundTrip, .Width, .Endless  its theorems
--   Maxcompute.Tunnel.Handlers  handlers.rs: `upload_block` from the decompressed body on, with its
--                           theorem
--   Maxcompute.Tunnel.Requests  the requests that the handlers pass on to the manager, from its
--                           creation on, with what holds of the rows that they bring
--   X.Tests, X.Tests.*      concrete inputs of part X
--
-- How the code is rendered. A method over `&mut BytesMut` returns its result with the buffer that
-- it leaves. A method of a database returns its result with the database that it leaves, and a
-- command its reply with all databases. `Instant::now()` is an argument: an operation takes the
-- readings of the clock that it may make, in nanoseconds, and the k-th command of a connection
-- has a clock of its own. A helper that stands for a step of the code's control flow (`need_str`,
-- `with_db`, `with_held`) says so where it is declared. A `HashMap`, `DashMap` or `HashSet` is an
-- association list: where the code iterates over one, the order of the model is one of those that
-- Rust leaves open. A float is its 64 bits.
-- A builder's method returns the builder, and a function that extends a buffer the buffer. Numbers
-- arrive at the MySQL packets with the width of the code's arguments.
-- Integer arithmetic is that of Cargo's release profile: it wraps around.
--
-- Bounds and fuel. `parse` recurses on fuel, the buffer's length and one: an array is parsed
-- behind its header, so that each level of nesting takes bytes. `measure_value` recurses on the
-- room that is left below `MAX_DEPTH`. `drain` has the buffer's length and one as fuel, a unit for
-- each command and one for the round that ends the loop; a command is made of bytes of the buffer.
-- `encode_varint` has nine rounds and the last byte, enough for 64 bits. The loops of `TunnelReader` have
-- a fuel that is an argument: more than the columns and more than the rows is enough for a stream that
-- `TunnelWriter` made, and a result says when it has run out.
--
-- Parameters. `Runtime` holds what is not in the repository: Unicode case mapping, lossy UTF-8
-- decoding, reading and printing floats, and the `regex` crate. Nothing is assumed of them. The texts
-- that `serde_json` writes and reads are arguments of the edit log's functions; `IsCodec` says what is
-- assumed of them: one line per entry, not empty, that reads back as the entry. The query handler and
-- upper-casing are an `Engine`, of which nothing is assumed; checksums, hexadecimal texts, lossy decoding
-- and floats are a `Codec`, of which the checksums' 32 bits are assumed where a theorem says so; a session's identifier and the time are
-- arguments of the call that makes it.
--
-- Not modelled: sockets and their errors, logging and the accept loop (server.rs); the
-- interleaving of several connections on one database, where each storage operation is taken to
-- be one step, as the map's locks make it; the panic of `Instant + Duration` beyond the range of
-- the platform's clock; of the MySQL endpoint, the command phase and the
-- conversion of scalars; of the bitmap, the iterator over its set bits; of the edit log, failing
-- writes and reads, and counters beyond 2^64; of the tunnel, the interleaving of calls within one call,
-- the requests and responses of its HTTP handlers, its JSON and its compression; the other protocols
-- and the SQL engine, in their own crates.
pub mod Prelude
pub mod Bytes
pub mod Table
pub mod Resp
pub mod Redis
pub mod Mysql
pub mod Types
pub mod Common
pub mod Maxcompute
