-- ===== src/Redis/Handler/Deletes.antt =====
-- crates/redis-protocol/src/handler.rs, `cmd_del`: the loop over the keys.
use roris_db.Prelude.{
  ℕ, ◌+◌, ◌≡◌, refl, ◌∙◌, none, List, [], ◌∷◌, length, if◌then◌else◌, arith, Option-cases, inl, inr,
}
use roris_db.Bytes.{Bytes}
use roris_db.Table.{lookup, contains_key, length-remove}
use roris_db.Resp.{RespValue}
use roris_db.Redis.Storage.{Database, del}
use roris_db.Redis.Storage.View.{live, live-del}
use roris_db.Redis.Storage.Unique.{IsTidy, del-IsTidy}
use roris_db.Redis.Handler.Args.{get_arg_str}
use roris_db.Redis.Handler.Keys.{counted, del_one, del_all}
use roris_db.Redis.Handler.Growth.{is_text, any_text}

length-del :
    (key : Bytes) (db : Database)
    → IsTidy db
    → length (del key db).1.entries + counted (del key db).0 ≡ length db.entries
unfolding del contains_key
length-del key db h = elim (Option-cases (lookup key db.entries)) [
  | inl e ↦ rw (e, del) (omega arith)
  | inr (entry, e) ↦ ground (arith, e, length-remove key db.entries h)
]

module _ (a : RespValue) (db : Database) where
  del_one-live :
      (t : ℕ) (j : Bytes) → live t j (del_one a db).1 ≡ (if is_text j a then none else live t j db)
  unfolding del_one is_text
  del_one-live t j = elim (Option-cases (get_arg_str a)) [
    | inl e ↦ rw (e, del_one, is_text) refl
    | inr (key, e) ↦ rw (e, del_one, is_text) (live-del t key db t j)
  ]

  length-del_one :
      IsTidy db → length (del_one a db).1.entries + (del_one a db).0 ≡ length db.entries
  unfolding del_one
  length-del_one h = elim (Option-cases (get_arg_str a)) [
    | inl e ↦ rw (e, del_one) (omega arith)
    | inr (key, e) ↦ rw (e, del_one) (length-del key db h)
  ]

  del_one-IsTidy : IsTidy db → IsTidy (del_one a db).1
  unfolding del_one
  del_one-IsTidy h = elim (Option-cases (get_arg_str a)) [
    | inl e ↦ rw (e, del_one) h
    | inr (key, e) ↦ rw (e, del_one) (del-IsTidy key db h)
  ]

del_all-live :
    (args : List RespValue) (count : ℕ) (db : Database) (t : ℕ) (j : Bytes)
    → live t j (del_all args count db).1 ≡ (if any_text j args then none else live t j db)
unfolding del_all any_text
del_all-live [] count db t j = refl
del_all-live (a ∷ args) count db t j =
    del_all-live args (count + (del_one a db).0) (del_one a db).1 t j
    ∙ ground (arith, del_one-live a db t j)

length-del_all :
    (args : List RespValue) (count : ℕ) (db : Database)
    → IsTidy db
    → length (del_all args count db).1.entries + (del_all args count db).0
      ≡ length db.entries + count
unfolding del_all
length-del_all [] count db h = refl
length-del_all (a ∷ args) count db h = omega (
  arith,
  length-del_one a db h,
  length-del_all args (count + (del_one a db).0) (del_one a db).1 (del_one-IsTidy a db h),
)

-- After DEL no key among its arguments is seen and every other key is seen as before; in a database
-- whose keys are distinct it answers how many entries it has removed.
pub del_all_lem :
    (args : List RespValue) (db : Database) (t : ℕ) (j : Bytes)
    → IsTidy db
    → (live t j (del_all args 0 db).1 ≡ (if any_text j args then none else live t j db))
      × (length (del_all args 0 db).1.entries + (del_all args 0 db).0 ≡ length db.entries)
del_all_lem args db t j h = (del_all-live args 0 db t j, omega (arith, length-del_all args 0 db h))
