-- ===== src/Redis/Handler/Rename.antt =====
-- crates/redis-protocol/src/handler.rs, `cmd_rename`: what is left under the two keys.
use roris_db.Prelude.{
  ℕ, zero, suc, ◌+◌, ◌-◌, ◌*◌, ◌/◌, ◌≤◌, ◌≡◌, refl, ap, sym, ◌∙◌, true, Option, none, some,
  Option-cases, inl, inr, ltb, pos, if◌then◌else◌, arith, ℤ,
}
use roris_db.Bytes.{Bytes, bytes_eq, bytes_eq_refl}
use roris_db.Resp.Encoder.{ok_reply}
use roris_db.Redis.Storage.{RedisValue, Entry, nanos, Database, get, set_entry, ttl, del, deadline}
use roris_db.Redis.Storage.View.{
  live, value_of, seconds_left, get-value, ttl-value, get-SameFrom, ttl-SameFrom, live-del,
}
use roris_db.Redis.Runtime.{Clock}
use roris_db.Redis.Handler.Keys.{kept_ttl, rename_on}
use roris_db.Redis.Handler.Writes.{written_entry, written-live}

-- The deadline that an entry keeps which is renamed: of the time that is left at the reading `asked`, the
-- whole seconds from the later reading `now` on, if there is one at least.
abbrev pub kept_deadline : ℕ → ℕ → Option Entry → Option ℕ
kept_deadline asked now none = none
kept_deadline asked now (some e) = elim e.expires_at [
  | none ↦ none
  | some end ↦
      if ltb (end - asked) 1000000000
      then none
      else some (now + (end - asked) / 1000000000 * 1000000000)
]

kept_seconds :
    (now n : ℕ)
    → deadline now (kept_ttl (pos n)) ≡ (if ltb n 1 then none else some (now + n * 1000000000))
kept_seconds now zero = refl
kept_seconds now (suc n) = ground arith

kept_deadline_lem :
    (asked now : ℕ) (o : Option Entry)
    → deadline now (kept_ttl (seconds_left asked o)) ≡ kept_deadline asked now o
kept_deadline_lem asked now none = refl
kept_deadline_lem asked now (some e) = elim (Option-cases e.expires_at) [
  | inl f ↦ rw f refl
  | inr (end, f) ↦ rw f (kept_seconds now ((end - asked) / nanos) ∙ grind arith)
]

module _ (clock : Clock) (old_key new_key : Bytes) (value : RedisValue) (db : Database)
    (there : value_of (live (clock 0) old_key db) ≡ some value) where
  -- the database after the two look-ups
  abbrev looked_up : Database
  looked_up = (ttl (clock 2) old_key (get (clock 0) (clock 1) old_key db).1).1

  abbrev left : ℤ
  left = (ttl (clock 2) old_key (get (clock 0) (clock 1) old_key db).1).0

  rename_step :
      rename_on clock old_key new_key db
      ≡ (ok_reply, (del old_key (set_entry (clock 3) new_key value (kept_ttl left) looked_up)).1)
  unfolding rename_on
  rename_step = rw (get-value (clock 0) old_key db (clock 1), there, rename_on) refl

  left-seconds : clock 0 ≤ clock 2 → left ≡ seconds_left (clock 2) (live (clock 2) old_key db)
  left-seconds h =
      ttl-value (clock 2) old_key (get (clock 0) (clock 1) old_key db).1
      ∙ ap (seconds_left (clock 2))
          (get-SameFrom (clock 0) old_key db (clock 1) (clock 2) old_key h)

  looked_up-live :
      (t : ℕ) (j : Bytes) → clock 0 ≤ clock 2 → clock 2 ≤ t → live t j looked_up ≡ live t j db
  looked_up-live t j h h' =
      ttl-SameFrom (clock 2) old_key (get (clock 0) (clock 1) old_key db).1 t j h'
      ∙ get-SameFrom (clock 0) old_key db (clock 1) t j (omega arith)

  -- RENAME of a key that holds a value answers OK. As seen from the reading of its time to live on,
  -- which is not before the look-up of the value, the old key is gone, also when it is the new one;
  -- the new key holds the value, with the whole seconds that its time to live had left as its new
  -- time to live, and without one when that is no second; other keys are as they were.
  pub rename_on_lem :
      (t : ℕ) (j : Bytes)
      → clock 0 ≤ clock 2
      → clock 2 ≤ t
      → ((rename_on clock old_key new_key db).0 ≡ ok_reply)
        × (live t j (rename_on clock old_key new_key db).1 ≡ (
            if bytes_eq old_key j
            then none
            else if bytes_eq new_key j
            then written_entry value
                (kept_deadline (clock 2) (clock 3) (live (clock 2) old_key db))
                t
            else live t j db))
  rename_on_lem t j h h' = (
    ap (λ r. r.0) rename_step,
    ap (λ r. live t j r.1) rename_step
        ∙ live-del (clock 2) old_key (set_entry (clock 3) new_key value (kept_ttl left) looked_up) t
            j
        ∙ rw (
          written-live (clock 3) new_key value (kept_ttl left) looked_up t j,
          left-seconds h,
          kept_deadline_lem (clock 2) (clock 3) (live (clock 2) old_key db),
          looked_up-live t j h h',
        ),
  )

  -- RENAME of a key that holds a value onto itself answers OK, and the key is gone as seen from the
  -- reading of its time to live on, which is not before the look-up of the value.
  pub rename_on_self :
      (t : ℕ)
      → old_key ≡ new_key
      → clock 0 ≤ clock 2
      → clock 2 ≤ t
      → ((rename_on clock old_key new_key db).0 ≡ ok_reply)
        × (live t new_key (rename_on clock old_key new_key db).1 ≡ none)
  rename_on_self t same h h' =
      let is_key : bytes_eq old_key new_key ≡ true =
        ap (bytes_eq old_key) (sym same) ∙ bytes_eq_refl old_key in
      let (ok, after) = rename_on_lem t new_key h h' in (ok, after ∙ rw is_key refl)
