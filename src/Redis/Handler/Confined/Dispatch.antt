-- ===== src/Redis/Handler/Confined/Dispatch.antt =====
-- crates/redis-protocol/src/handler.rs: which databases `handle_command` can change.
use roris_db.Prelude.{
  length, ℕ, ◌≡◌, ◌≢◌, refl, Bool-cases, inl, inr, Option, Option-cases, some, List, [], ◌∷◌, ◌∙◌,
  ap,
}
use mathlib.Core.Path.{subst}
use roris_db.Bytes.{Bytes, str, bytes_eq, bytes_eq_iff}
use roris_db.Table.{Table, lookup}
use roris_db.Resp.{RespValue}
use roris_db.Redis.Storage.{RedisStorage, get_db}
use roris_db.Redis.Runtime.{Runtime, Clock}
use roris_db.Redis.Handler.{commands, command_name, handle_command}
use roris_db.Redis.Handler.Args.{Command}
use roris_db.Redis.Handler.Confined.Rules.{IsConfined, reply-IsConfined}
use roris_db.Redis.Handler.Confined.Server.{
  cmd_auth-IsConfined, cmd_client-IsConfined, cmd_config-IsConfined, cmd_dbsize-IsConfined,
  cmd_echo-IsConfined, cmd_flushdb-IsConfined, cmd_info-IsConfined, cmd_ok-IsConfined,
  cmd_ping-IsConfined, cmd_select-IsConfined,
}
use roris_db.Redis.Handler.Confined.Keys.{
  cmd_del-IsConfined, cmd_exists-IsConfined, cmd_expire-IsConfined, cmd_keys-IsConfined,
  cmd_rename-IsConfined, cmd_ttl-IsConfined, cmd_type-IsConfined,
}
use roris_db.Redis.Handler.Confined.Strings.{
  cmd_append-IsConfined, cmd_decr-IsConfined, cmd_decrby-IsConfined, cmd_get-IsConfined,
  cmd_incr-IsConfined, cmd_incrby-IsConfined, cmd_mget-IsConfined, cmd_mset-IsConfined,
  cmd_set-IsConfined, cmd_strlen-IsConfined,
}
use roris_db.Redis.Handler.Confined.Hashes.{
  cmd_hdel-IsConfined, cmd_hexists-IsConfined, cmd_hget-IsConfined, cmd_hgetall-IsConfined,
  cmd_hkeys-IsConfined, cmd_hlen-IsConfined, cmd_hmget-IsConfined, cmd_hmset-IsConfined,
  cmd_hset-IsConfined, cmd_hvals-IsConfined,
}
use roris_db.Redis.Handler.Confined.Lists.{
  cmd_lindex-IsConfined, cmd_llen-IsConfined, cmd_lpop-IsConfined, cmd_lpush-IsConfined,
  cmd_lrange-IsConfined, cmd_rpop-IsConfined, cmd_rpush-IsConfined,
}
use roris_db.Redis.Handler.Confined.Sets.{
  cmd_sadd-IsConfined, cmd_scard-IsConfined, cmd_sismember-IsConfined, cmd_smembers-IsConfined,
  cmd_srem-IsConfined,
}
use roris_db.Redis.Handler.Confined.SortedSets.{
  cmd_zadd-IsConfined, cmd_zcard-IsConfined, cmd_zrange-IsConfined, cmd_zrem-IsConfined,
  cmd_zscore-IsConfined,
}

some_inj {ℓ} : {V : Type ℓ} (w v : V) → some w ≡ some v → w ≡ v
some_inj w v e = cc

-- A property of every entry of a table is one of what the table returns.
module _ {ℓ κ} {V : Type ℓ} (P : Bytes → V → Type κ) where
  abbrev AllEntries : Table V → Type κ
  AllEntries [] = Unit
  AllEntries ((k, v) ∷ m) = P k v × AllEntries m

  AllEntries-lookup : (k : Bytes) (v : V) (m : Table V) → AllEntries m → lookup k m ≡ some v → P k v
  unfolding lookup
  AllEntries-lookup k v [] h e = cc
  AllEntries-lookup k v ((j, w) ∷ m) h e = elim (Bool-cases (bytes_eq j k)) [
    | inl same ↦
        subst (λ i. P i v) ((bytes_eq_iff j k).0 same)
          (subst (λ x. P j x) (some_inj w v (rw same at e)) h.0)
    | inr other ↦ AllEntries-lookup k v m h.1 (rw other at e)
  ]

module _ (rt : Runtime) (password : Option Bytes) where
  abbrev Confines : Bytes → Command → Type 0
  Confines name run =
      name ≢ str "FLUSHALL"
      → (clock : Clock) (index : ℕ) (args : List RespValue) (s : RedisStorage)
      → IsConfined index s (run clock index args s)

  commands_confined : AllEntries Confines (commands rt password)
  unfolding commands
  commands_confined = (
    (λ _. cmd_ping-IsConfined),
    (
      (λ _. cmd_echo-IsConfined),
      (
        (λ _. cmd_ok-IsConfined),
        (
          (λ _. cmd_auth-IsConfined password),
          (
            (λ _. cmd_select-IsConfined),
            (
              (λ _. cmd_info-IsConfined),
              (
                (λ _. cmd_dbsize-IsConfined),
                (
                  (λ _. cmd_flushdb-IsConfined),
                  (
                    λ h. absurd (h refl),
                    (
                      (λ _. cmd_ok-IsConfined),
                      (
                        (λ _. cmd_config-IsConfined rt),
                        (
                          (λ _. cmd_client-IsConfined rt),
                          (
                            (λ _. cmd_del-IsConfined),
                            (
                              (λ _. cmd_exists-IsConfined),
                              (
                                (λ _. cmd_expire-IsConfined),
                                (
                                  (λ _. cmd_ttl-IsConfined),
                                  (
                                    (λ _. cmd_type-IsConfined),
                                    (
                                      (λ _. cmd_keys-IsConfined rt),
                                      (
                                        (λ _. cmd_rename-IsConfined),
                                        (
                                          (λ _. cmd_get-IsConfined),
                                          (
                                            (λ _. cmd_set-IsConfined rt),
                                            (
                                              (λ _. cmd_mget-IsConfined),
                                              (
                                                (λ _. cmd_mset-IsConfined),
                                                (
                                                  (λ _. cmd_incr-IsConfined),
                                                  (
                                                    (λ _. cmd_decr-IsConfined),
                                                    (
                                                      (λ _. cmd_incrby-IsConfined),
                                                      (
                                                        (λ _. cmd_decrby-IsConfined),
                                                        (
                                                          (λ _. cmd_append-IsConfined),
                                                          (
                                                            (λ _. cmd_strlen-IsConfined),
                                                            (
                                                            (λ _. cmd_hget-IsConfined),
                                                            (
                                                            (λ _. cmd_hset-IsConfined),
                                                            (
                                                            (λ _. cmd_hmget-IsConfined),
                                                            (
                                                            (λ _. cmd_hmset-IsConfined),
                                                            (
                                                            (λ _. cmd_hdel-IsConfined),
                                                            (
                                                            (λ _. cmd_hgetall-IsConfined),
                                                            (
                                                            (λ _. cmd_hkeys-IsConfined),
                                                            (
                                                            (λ _. cmd_hvals-IsConfined),
                                                            (
                                                            (λ _. cmd_hlen-IsConfined),
                                                            (
                                                            (λ _. cmd_hexists-IsConfined),
                                                            (
                                                            (λ _. cmd_lpush-IsConfined),
                                                            (
                                                            (λ _. cmd_rpush-IsConfined),
                                                            (
                                                            (λ _. cmd_lpop-IsConfined),
                                                            (
                                                            (λ _. cmd_rpop-IsConfined),
                                                            (
                                                            (λ _. cmd_lrange-IsConfined),
                                                            (
                                                            (λ _. cmd_llen-IsConfined),
                                                            (
                                                            (λ _. cmd_lindex-IsConfined),
                                                            (
                                                            (λ _. cmd_sadd-IsConfined),
                                                            (
                                                            (λ _. cmd_srem-IsConfined),
                                                            (
                                                            (λ _. cmd_smembers-IsConfined),
                                                            (
                                                            (λ _. cmd_scard-IsConfined),
                                                            (
                                                            (λ _. cmd_sismember-IsConfined),
                                                            (
                                                            (λ _. cmd_zadd-IsConfined rt),
                                                            (
                                                            (λ _. cmd_zrem-IsConfined),
                                                            (
                                                            (λ _. cmd_zrange-IsConfined rt),
                                                            (
                                                            (λ _. cmd_zcard-IsConfined),
                                                            ((λ _. cmd_zscore-IsConfined rt), tt),
                                                            ),
                                                            ),
                                                            ),
                                                            ),
                                                            ),
                                                            ),
                                                            ),
                                                            ),
                                                            ),
                                                            ),
                                                            ),
                                                            ),
                                                            ),
                                                            ),
                                                            ),
                                                            ),
                                                            ),
                                                            ),
                                                            ),
                                                            ),
                                                            ),
                                                            ),
                                                            ),
                                                            ),
                                                            ),
                                                            ),
                                                          ),
                                                        ),
                                                      ),
                                                    ),
                                                  ),
                                                ),
                                              ),
                                            ),
                                          ),
                                        ),
                                      ),
                                    ),
                                  ),
                                ),
                              ),
                            ),
                          ),
                        ),
                      ),
                    ),
                  ),
                ),
              ),
            ),
          ),
        ),
      ),
    ),
  )

  pub handle_command-IsConfined :
      (clock : Clock) (index : ℕ) (a : RespValue) (args : List RespValue) (s : RedisStorage)
      → command_name rt a ≢ some (str "FLUSHALL")
      → IsConfined index s (handle_command rt password clock index (a ∷ args) s)
  unfolding handle_command
  handle_command-IsConfined clock index a args s h = elim (Option-cases (command_name rt a)) [
    | inl e ↦ rw (e, handle_command) (reply-IsConfined index s _)
    | inr (cmd, e) ↦ elim (Option-cases (lookup cmd (commands rt password))) [
      | inl e' ↦ rw (e, handle_command) (rw e' (reply-IsConfined index s _))
      | inr (run, e') ↦
          rw (e, handle_command)
            (rw e' (
              AllEntries-lookup Confines cmd run (commands rt password) commands_confined e'
                (λ q. h (e ∙ ap some q)) clock index args s))
    ]
  ]

  -- A command other than FLUSHALL leaves every database but the selected one as it was, and the
  -- number of databases.
  pub handle_command-other_db :
      (clock : Clock) (index : ℕ) (a : RespValue) (args : List RespValue) (s : RedisStorage) (j : ℕ)
      → command_name rt a ≢ some (str "FLUSHALL")
      → j ≢ index
      → (get_db (handle_command rt password clock index (a ∷ args) s).1 j ≡ get_db s j)
        × (length (handle_command rt password clock index (a ∷ args) s).1.databases
            ≡ length s.databases)
  unfolding get_db
  handle_command-other_db clock index a args s j h other =
      let t = handle_command-IsConfined clock index a args s h in (t.others j other, t.count)
