-- ===== src/Bytes/Endian.antt =====
-- Little-endian numbers: `to_le_bytes`, `put_u16_le` and their like, and `from_le_bytes`.
use roris_db.Prelude.{
  ℕ, zero, suc, ◌+◌, ◌*◌, ◌/◌, ◌%◌, ◌<◌, ◌≡◌, refl, List, [], ◌∷◌, length, arith,
}

-- The lowest `k` bytes of `n`.
abbrev pub le_bytes : ℕ → ℕ → List ℕ
le_bytes zero n = []
le_bytes (suc k) n = (n % 256) ∷ le_bytes k (n / 256)

abbrev pub from_le : List ℕ → ℕ
from_le [] = 0
from_le (b ∷ s) = b + 256 * from_le s

-- 256 to the k
abbrev pub byte_bound : ℕ → ℕ
byte_bound zero = 1
byte_bound (suc k) = 256 * byte_bound k

pub from_le-le_bytes : (k n : ℕ) → n < byte_bound k → from_le (le_bytes k n) ≡ n
from_le-le_bytes zero n h = omega arith
from_le-le_bytes (suc k) n h = omega (arith, from_le-le_bytes k (n / 256) (omega arith))

pub length-le_bytes : (k n : ℕ) → length (le_bytes k n) ≡ k
length-le_bytes zero n = refl
length-le_bytes (suc k) n = omega (arith, length-le_bytes k (n / 256))
