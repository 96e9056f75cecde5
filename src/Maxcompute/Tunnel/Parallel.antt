-- ===== src/Maxcompute/Tunnel/Parallel.antt =====
-- crates/maxcompute-protocol/src/tunnel/session.rs: the blocks of an upload, in the order in which they
-- arrive.
use roris_db.Prelude.{ℕ, ◌≡◌, refl, sym, ap, ◌∙◌, true, false, some, List, [], ◌∷◌, ◌==◌, arith}
use roris_db.Bytes.{Bytes, bytes_eq_refl}
use roris_db.Table.{Table, lookup, insert, lookup-insert}
use roris_db.Maxcompute.Tunnel.{Row, UploadSession, TunnelSessionManager}
use roris_db.Maxcompute.Tunnel.Blocks.{insert_block}
use roris_db.Maxcompute.Tunnel.Manager.{ok, is_normal, upload_block}

insert_block-insert_block :
    (a b : ℕ) (rows more : List Row) (blocks : List (ℕ × List Row))
    → a == b ≡ false
    → insert_block b more (insert_block a rows blocks)
      ≡ insert_block a rows (insert_block b more blocks)
unfolding insert_block
insert_block-insert_block a b rows more [] apart = ground arith
insert_block-insert_block a b rows more ((k, old) ∷ blocks) apart =
    ground (arith, insert_block-insert_block a b rows more blocks apart)

insert_twice {ℓ} :
    {V : Type ℓ} (k : Bytes) (v w : V) (t : Table V) → insert k w (insert k v t) ≡ insert k w t
unfolding insert
insert_twice k v w [] = ground (arith, bytes_eq_refl k)
insert_twice k v w ((j, u) ∷ t) = ground (arith, bytes_eq_refl k, insert_twice k v w t)

-- the manager after a block of an upload that is open
unfoldable pub with_block :
    Bytes → UploadSession → ℕ → List Row → TunnelSessionManager → TunnelSessionManager
with_block id s block_id rows m = record m {
  upload_sessions =
      insert id (record s { blocks = insert_block block_id rows s.blocks }) m.upload_sessions;
}

pub upload_block_open :
    (id : Bytes) (block_id : ℕ) (rows : List Row) (m : TunnelSessionManager) (s : UploadSession)
    → lookup id m.upload_sessions ≡ some s
    → is_normal s.status ≡ true
    → upload_block id block_id rows m ≡ (ok tt, with_block id s block_id rows m)
unfolding upload_block with_block
upload_block_open id block_id rows m s there fresh = rw (there, upload_block, fresh) refl

upload_both :
    (id : Bytes) (a b : ℕ) (rows more : List Row) (m : TunnelSessionManager) (s : UploadSession)
    → lookup id m.upload_sessions ≡ some s
    → is_normal s.status ≡ true
    → upload_block id b more (upload_block id a rows m).1
      ≡ (ok tt, with_block id (record s { blocks = insert_block a rows s.blocks }) b more m)
unfolding with_block
upload_both id a b rows more m s there fresh =
    let after : UploadSession = record s { blocks = insert_block a rows s.blocks } in
    ap (λ answer. upload_block id b more answer.1) (upload_block_open id a rows m s there fresh)
    ∙ upload_block_open id b more (with_block id s a rows m) after
        (lookup-insert id id after m.upload_sessions ∙ rw (bytes_eq_refl id) refl) fresh
    ∙ ap (λ t. (ok tt, record m { upload_sessions = t }))
        (insert_twice id after (record after { blocks = insert_block b more after.blocks })
          m.upload_sessions)

-- Two blocks with different numbers of an upload that is open can arrive in either order: both are taken,
-- and the manager that they leave is the same.
pub upload_block-upload_block :
    (id : Bytes) (a b : ℕ) (rows more : List Row) (m : TunnelSessionManager) (s : UploadSession)
    → lookup id m.upload_sessions ≡ some s
    → is_normal s.status ≡ true
    → a == b ≡ false
    → ((upload_block id a rows m).0 ≡ ok tt)
      × ((upload_block id b more (upload_block id a rows m).1).0 ≡ ok tt)
      × (upload_block id b more (upload_block id a rows m).1
          ≡ upload_block id a rows (upload_block id b more m).1)
unfolding with_block
upload_block-upload_block id a b rows more m s there fresh apart = (
  ap (λ answer. answer.0) (upload_block_open id a rows m s there fresh),
  ap (λ answer. answer.0) (upload_both id a b rows more m s there fresh),
  upload_both id a b rows more m s there fresh
      ∙ ap
          (λ blocks. (
            ok tt,
            record m {
              upload_sessions = insert id (record s { blocks = blocks }) m.upload_sessions;
            },
          ))
          (insert_block-insert_block a b rows more s.blocks apart)
      ∙ sym (upload_both id b a more rows m s there fresh),
)
