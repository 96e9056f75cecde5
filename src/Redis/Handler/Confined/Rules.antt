-- ===== src/Redis/Handler/Confined/Rules.antt =====
-- crates/redis-protocol/src/handler.rs: replies that touch one database, a rule for each guard.
use Prim.Native.String.{String}
use roris_db.Prelude.{
  ℕ, zero, suc, ◌≡◌, ◌≢◌, refl, Bool, true, false, List, [], ◌∷◌, length, length-set, set,
  get_elem?, ℤ, ◌⊎◌, inl, inr, if◌then◌else◌, Option-cases, ap,
}
use roris_db.Bytes.{Bytes}
use roris_db.Resp.{RespValue}
use roris_db.Redis.Storage.{Database, RedisStorage, get_db}
use roris_db.Redis.Handler.Args.{Response, need_str, need_int, with_db, get_arg_str, get_arg_int}
use roris_db.Redis.Handler.Strings.{SetOptions}

get_elem?-set_other :
    {A : Type 0} (l : List A) (i j : ℕ) (v : A) → j ≢ i → get_elem? (set l i v) j ≡ get_elem? l j
get_elem?-set_other [] i j v h = refl
get_elem?-set_other (x ∷ l) zero zero v h = absurd (h refl)
get_elem?-set_other (x ∷ l) zero (suc j) v h = refl
get_elem?-set_other (x ∷ l) (suc i) zero v h = refl
get_elem?-set_other (x ∷ l) (suc i) (suc j) v h = get_elem?-set_other l i j v (λ e. h (ap suc e))

-- The other databases are as they were, and no database comes or goes.
pub record IsConfined (index : ℕ) (s : RedisStorage) (r : Response) : Type 0 where
  pub others : (j : ℕ) → j ≢ index → get_elem? r.1.databases j ≡ get_elem? s.databases j
  pub count : length r.1.databases ≡ length s.databases

module _ (index : ℕ) (s : RedisStorage) where
  pub reply-IsConfined : (reply : Bytes) → IsConfined index s (reply, s)
  reply-IsConfined reply = record { others = λ j h. refl; count = refl }

  pub need_str-IsConfined :
      (a : RespValue) (msg : String) (next : Bytes → Response)
      → ((k : Bytes) → IsConfined index s (next k))
      → IsConfined index s (need_str a msg s next)
  unfolding need_str
  need_str-IsConfined a msg next h = elim (Option-cases (get_arg_str a)) [
    | inl e ↦ rw (e, need_str) (reply-IsConfined _)
    | inr (k, e) ↦ rw (e, need_str) (h k)
  ]

  pub need_int-IsConfined :
      (a : RespValue) (msg : String) (next : ℤ → Response)
      → ((n : ℤ) → IsConfined index s (next n))
      → IsConfined index s (need_int a msg s next)
  unfolding need_int
  need_int-IsConfined a msg next h = elim (Option-cases (get_arg_int a)) [
    | inl e ↦ rw (e, need_int) (reply-IsConfined _)
    | inr (n, e) ↦ rw (e, need_int) (h n)
  ]

  pub with_db-IsConfined :
      (missing : Bytes) (body : Database → Bytes × Database)
      → IsConfined index s (with_db s index missing body)
  unfolding with_db
  with_db-IsConfined missing body = elim (Option-cases (get_db s index)) [
    | inl e ↦ rw (e, with_db) (reply-IsConfined missing)
    | inr (db, e) ↦
        rw (e, with_db)
          (record {
            others = λ j h. get_elem?-set_other s.databases index j (body db).1 h;
            count = length-set s.databases index (body db).1;
          })
  ]

  pub if-IsConfined :
      (b : Bool) (x y : Response)
      → IsConfined index s x
      → IsConfined index s y
      → IsConfined index s (if b then x else y)
  if-IsConfined true x y hx hy = hx
  if-IsConfined false x y hx hy = hy

  pub result-IsConfined :
      (r : String ⊎ SetOptions) (f : String → Response) (g : SetOptions → Response)
      → ((m : String) → IsConfined index s (f m))
      → ((o : SetOptions) → IsConfined index s (g o))
      → IsConfined index s (elim r [ inl m ↦ f m | inr o ↦ g o ])
  result-IsConfined (inl m) f g hf hg = hf m
  result-IsConfined (inr o) f g hf hg = hg o

pub ruleset confined_rules =
    (reply-IsConfined, need_str-IsConfined, need_int-IsConfined, with_db-IsConfined, if-IsConfined)
