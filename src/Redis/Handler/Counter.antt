-- ===== src/Redis/Handler/Counter.antt =====
-- crates/redis-protocol/src/handler.rs, `cmd_incrby_internal`: INCR, DECR, INCRBY and DECRBY.
use roris_db.Prelude.{
  ℕ, ◌≤◌, ◌≡◌, refl, sym, ap, ◌∙◌, Option, none, some, inl, inr, ◌⊎◌, Option-cases, arith, ℤ, pos,
  IsI64, wrapping_add, as_i64-IsI64, as_u64, ◌+ℤ◌,
}
use roris_db.Bytes.{Bytes, bytes_eq_refl}
use roris_db.Bytes.Decimal.{int_to_string, parse_i64}
use roris_db.Bytes.Decimal.RoundTrip.{parse_i64-int_to_string}
use roris_db.Resp.Encoder.{integer_reply, error_reply}
use roris_db.Redis.Storage.{
  RedisValue, string, hash, list, members, sorted_set, Database, get, set_entry, Entry,
}
use roris_db.Redis.Storage.View.{live, value_of, get-value, live-set_entry, get-SameFrom}
use roris_db.Redis.Runtime.{Clock}
use roris_db.Redis.Handler.Args.{string_at, wrong_type_reply}
use roris_db.Redis.Handler.Strings.{current_number, incr_on}

-- The entry of a counter: its decimal print, without a deadline.
abbrev pub counter : ℤ → Entry
counter n = record { value = string (int_to_string n); expires_at = none }

wrapping_add-IsI64 : (a b : ℤ) → IsI64 (wrapping_add a b)
unfolding wrapping_add
wrapping_add-IsI64 a b = as_i64-IsI64 (as_u64 (a +ℤ b))

written :
    (now : ℕ) (key : Bytes) (value : RedisValue) (t : ℕ) (db : Database)
    → live t key (set_entry now key value none db)
      ≡ some (record { value = value; expires_at = none })
written now key value t db =
    live-set_entry now key db value none t key ∙ rw (bytes_eq_refl key) refl

-- The value stands for the number: none for 0, and a text for the number that it is in decimal.
abbrev pub HoldsNumber : Option RedisValue → ℤ → Type 0
HoldsNumber none n = n ≡ pos 0
HoldsNumber (some (string text)) n = parse_i64 text ≡ some n
HoldsNumber (some _) n = ⊥

-- The error for a value that stands for no number, by its text.
abbrev pub refusal : Option RedisValue → Option Bytes
refusal none = none
refusal (some (string text)) = elim (parse_i64 text) [
  | none ↦ some (error_reply "ERR value is not an integer or out of range")
  | some n ↦ none
]
refusal (some _) =
    some (error_reply "WRONGTYPE Operation against a key holding the wrong kind of value")

HoldsNumber-current_number :
    (v : Option RedisValue) (n : ℤ) → HoldsNumber v n → current_number (string_at v) ≡ inr n
HoldsNumber-current_number none n h = ap inr (sym h)
HoldsNumber-current_number (some (string text)) n h = rw (h, current_number) refl
HoldsNumber-current_number (some (hash t)) n h = absurd h
HoldsNumber-current_number (some (list l)) n h = absurd h
HoldsNumber-current_number (some (members t)) n h = absurd h
HoldsNumber-current_number (some (sorted_set z)) n h = absurd h

refusal-current_number :
    (v : Option RedisValue) (reply : Bytes)
    → refusal v ≡ some reply
    → current_number (string_at v) ≡ inl reply
unfolding wrong_type_reply
refusal-current_number none reply h = cc
refusal-current_number (some (string text)) reply h = elim (Option-cases (parse_i64 text)) [
  | inl e ↦ ground (arith, e, h)
  | inr (n, e) ↦ absurd (ground (arith, e, h))
]
refusal-current_number (some (hash t)) reply h = cc
refusal-current_number (some (list l)) reply h = cc
refusal-current_number (some (members t)) reply h = cc
refusal-current_number (some (sorted_set z)) reply h = cc

-- What the key stands for at the reading: 0 if it is missing, or the error reply of the early return.
unfoldable pub reading : Clock → Bytes → Database → Bytes ⊎ ℤ
reading clock key db = current_number (string_at (value_of (live (clock 0) key db)))

module _ (clock : Clock) (key : Bytes) (increment : ℤ) (db : Database) where
  -- `incr_on` once it is known what the key holds
  incr_step :
      (n : ℤ)
      → reading clock key db ≡ inr n
      → incr_on clock key increment db ≡ (
        integer_reply (wrapping_add n increment),
        set_entry
            (clock 2)
            key
            (string (int_to_string (wrapping_add n increment)))
            none
            (get (clock 0) (clock 1) key db).1,
      )
  unfolding incr_on reading
  incr_step n e = rw (get-value (clock 0) key db (clock 1), e, incr_on)

  refused_step :
      (reply : Bytes)
      → reading clock key db ≡ inl reply
      → incr_on clock key increment db ≡ (reply, (get (clock 0) (clock 1) key db).1)
  unfolding incr_on reading
  refused_step reply e = rw (get-value (clock 0) key db (clock 1), e, incr_on)

  reading-HoldsNumber :
      (n : ℤ) → HoldsNumber (value_of (live (clock 0) key db)) n → reading clock key db ≡ inr n
  unfolding reading
  reading-HoldsNumber n holds =
      HoldsNumber-current_number (value_of (live (clock 0) key db)) n holds

  reading-refusal :
      (reply : Bytes)
      → refusal (value_of (live (clock 0) key db)) ≡ some reply
      → reading clock key db ≡ inl reply
  unfolding reading
  reading-refusal reply e = refusal-current_number (value_of (live (clock 0) key db)) reply e

  -- INCRBY on a key that holds the number n, in any spelling, or on a missing key, which counts as
  -- 0, answers n + increment, wrapped to 64 bits, and leaves the key with the print of that number
  -- and without a deadline, whatever deadline it had.
  pub incr_on-number :
      (n : ℤ) (t : ℕ)
      → HoldsNumber (value_of (live (clock 0) key db)) n
      → ((incr_on clock key increment db).0 ≡ integer_reply (wrapping_add n increment))
        × (live t key (incr_on clock key increment db).1
            ≡ some (counter (wrapping_add n increment)))
  incr_on-number n t holds =
      let step = incr_step n (reading-HoldsNumber n holds) in
      (
        ap (λ r. r.0) step,
        ap (λ r. live t key r.1) step
            ∙ written (clock 2) key (string (int_to_string (wrapping_add n increment))) t
                (get (clock 0) (clock 1) key db).1,
      )

  -- INCRBY on a key that holds a text which is no 64-bit integer, or a value of another type, answers
  -- with the error for the one or for the other, and no later reader sees any key changed.
  pub incr_on-refused :
      (reply : Bytes) (t : ℕ) (j : Bytes)
      → refusal (value_of (live (clock 0) key db)) ≡ some reply
      → clock 0 ≤ t
      → ((incr_on clock key increment db).0 ≡ reply)
        × (live t j (incr_on clock key increment db).1 ≡ live t j db)
  incr_on-refused reply t j e h =
      let step = refused_step reply (reading-refusal reply e) in
      (
        ap (λ r. r.0) step,
        ap (λ r. live t j r.1) step ∙ get-SameFrom (clock 0) key db (clock 1) t j h,
      )

-- Two increments, at any times, answer the same as the two additions: the print that the first
-- leaves is read back by the second.
pub incr_on-incr_on :
    (clock clock' : Clock) (key : Bytes) (a b : ℤ) (db : Database) (n : ℤ)
    → HoldsNumber (value_of (live (clock 0) key db)) n
    → (incr_on clock' key b (incr_on clock key a db).1).0
      ≡ integer_reply (wrapping_add (wrapping_add n a) b)
incr_on-incr_on clock clock' key a b db n holds =
    let (_, held_now) = incr_on-number clock key a db n (clock' 0) holds in
    let read_back : parse_i64 (int_to_string (wrapping_add n a)) ≡ some (wrapping_add n a) =
      parse_i64-int_to_string (wrapping_add n a) (wrapping_add-IsI64 n a) in
    (incr_on-number clock' key b (incr_on clock key a db).1 (wrapping_add n a) 0
      (rw held_now read_back)).0
