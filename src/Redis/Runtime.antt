-- ===== src/Redis/Runtime.antt =====
-- What the command handler takes from Rust's standard library and from the `regex` crate: Unicode
-- case mapping, lossy decoding, the decimal text of floats, and regular expressions.
use roris_db.Prelude.{ℕ, Option, Bool}
use roris_db.Bytes.{Bytes}
use roris_db.Redis.Storage.{F64}

pub record Runtime : Type 0 where
  -- `str::to_uppercase`
  pub to_uppercase : Bytes → Bytes
  -- `String::from_utf8_lossy`
  pub from_utf8_lossy : Bytes → Bytes
  -- `str::parse::<f64>().ok()`
  pub parse_f64 : Bytes → Option F64
  -- `f64::to_string`
  pub f64_to_string : F64 → Bytes
  -- `Regex::new(pattern).ok()` with `is_match`
  pub compile : Bytes → Option (Bytes → Bool)

-- `clock k` is the monotonic clock at the k-th point of a command where it may be read.
abbrev pub Clock : Type 0
Clock = ℕ → ℕ
