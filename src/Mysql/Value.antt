-- ===== src/Mysql/Value.antt =====
-- crates/mysql-protocol/src/value.rs: length-encoded integers and strings, dates and times. An
-- encoder returns the bytes that it appends to the buffer.
use roris_db.Prelude.{ℕ, Bool, true, false, ◌||◌, [], ◌∷◌, ◌++◌, length, ltb, if◌then◌else◌}
use roris_db.Bytes.{Bytes}
use roris_db.Bytes.Endian.{le_bytes}

unfoldable pub encode_lenenc_int : ℕ → Bytes
encode_lenenc_int n =
    if ltb n 251
    then n ∷ []
    else if ltb n 65536
    then 0xFC ∷ le_bytes 2 n
    else if ltb n 16777216
    then 0xFD ∷ le_bytes 3 n
    else 0xFE ∷ le_bytes 8 n

unfoldable pub encode_lenenc_string : Bytes → Bytes
encode_lenenc_string s = encode_lenenc_int (length s) ++ s

-- `encode_lenenc_str`, over the UTF-8 bytes of a `&str`
unfoldable pub encode_lenenc_str : Bytes → Bytes
unfolding encode_lenenc_string
encode_lenenc_str s = encode_lenenc_string s

abbrev pub encode_null : Bytes
encode_null = 0xFB ∷ []

-- year, month and day, as every date and time holds them
abbrev pub year_month_day : ℕ → ℕ → ℕ → Bytes
year_month_day year month day = le_bytes 2 year ++ month ∷ day ∷ []

unfoldable pub encode_date : ℕ → ℕ → ℕ → Bytes
encode_date year month day = 4 ∷ year_month_day year month day

unfoldable pub encode_datetime : ℕ → ℕ → ℕ → ℕ → ℕ → ℕ → ℕ → Bytes
encode_datetime year month day hour minute second micros =
    if ltb 0 micros
    then 11 ∷ year_month_day year month day ++ hour ∷ minute ∷ second ∷ le_bytes 4 micros
    else if ltb 0 hour || (ltb 0 minute || ltb 0 second)
    then 7 ∷ year_month_day year month day ++ hour ∷ minute ∷ second ∷ []
    else 4 ∷ year_month_day year month day

abbrev pub sign_flag : Bool → ℕ
sign_flag true = 1
sign_flag false = 0

unfoldable pub encode_time : Bool → ℕ → ℕ → ℕ → ℕ → ℕ → Bytes
encode_time is_negative days hours minutes seconds micros =
    if ltb 0 micros
    then 12 ∷ sign_flag is_negative ∷ le_bytes 4 days
      ++ hours ∷ minutes ∷ seconds ∷ le_bytes 4 micros
    else 8 ∷ sign_flag is_negative ∷ le_bytes 4 days ++ hours ∷ minutes ∷ seconds ∷ []
