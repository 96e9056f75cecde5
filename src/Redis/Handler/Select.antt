-- ===== src/Redis/Handler/Select.antt =====
-- crates/redis-protocol/src/handler.rs: what the look-up of the selected database and the guards on
-- the arguments compute to.
use Prim.Native.String.{String}
use roris_db.Prelude.{ℕ, zero, suc, ◌≡◌, refl, some, List, [], ◌∷◌, set, get_elem?, ℤ}
use roris_db.Bytes.{Bytes}
use roris_db.Resp.{RespValue}
use roris_db.Redis.Storage.{Database, RedisStorage, get_db}
use roris_db.Redis.Handler.Args.{Response, get_arg_str, get_arg_int, need_str, need_int, with_db}

abbrev pub write_db : RedisStorage → ℕ → Database → RedisStorage
write_db s index db = record { databases = set s.databases index db }

get_elem?-set_self :
    {A : Type 0} (l : List A) (i : ℕ) (x v : A)
    → get_elem? l i ≡ some x
    → get_elem? (set l i v) i ≡ some v
get_elem?-set_self [] i x v h = cc
get_elem?-set_self (y ∷ l) zero x v h = refl
get_elem?-set_self (y ∷ l) (suc i) x v h = get_elem?-set_self l i x v h

module _ (s : RedisStorage) (index : ℕ) (db : Database) (here : get_db s index ≡ some db) where
  pub with_db_here :
      (missing : Bytes) (body : Database → Bytes × Database)
      → with_db s index missing body ≡ ((body db).0, write_db s index (body db).1)
  unfolding with_db
  with_db_here missing body = rw (here, with_db)

  pub get_db_written : (db' : Database) → get_db (write_db s index db') index ≡ some db'
  unfolding get_db
  get_db_written db' = get_elem?-set_self s.databases index db db' here

module _ (a : RespValue) (msg : String) (s : RedisStorage) where
  pub need_str_here :
      (k : Bytes) (next : Bytes → Response)
      → get_arg_str a ≡ some k
      → need_str a msg s next ≡ next k
  unfolding need_str
  need_str_here k next h = rw (h, need_str)

  pub need_int_here :
      (n : ℤ) (next : ℤ → Response) → get_arg_int a ≡ some n → need_int a msg s next ≡ next n
  unfolding need_int
  need_int_here n next h = rw (h, need_int)
