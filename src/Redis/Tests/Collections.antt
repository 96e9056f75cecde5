-- ===== src/Redis/Tests/Collections.antt =====
-- The theorems about the collections at concrete inputs.
use roris_db.Prelude.{
  ◌-◌, ◌≡◌, refl, ◌&&◌, none, some, List, [], ◌∷◌, length, if◌then◌else◌, pos, negsuc, arith,
}
use roris_db.Bytes.{Bytes, str, bytes_eq}
use roris_db.Table.{Table, lookup, HasUniqueKeys}
use roris_db.Resp.{RespValue}
use roris_db.Redis.Handler.Sets.{Members}
use roris_db.Redis.Handler.Hashes.{hset_on}
use roris_db.Redis.Handler.Fields.{HoldsHash, last_value, hset_on_lem}
use roris_db.Redis.Handler.Lists.{range_of}
use roris_db.Redis.Handler.Ranges.{pick, is_from, is_up_to, range_of-pick}
use roris_db.Resp.Encoder.{integer_reply}
use roris_db.Redis.Storage.{hash, Database}
use roris_db.Redis.Storage.View.{live, value_of}
use roris_db.Redis.Tests.{word, ticking}

abbrev arguments : List RespValue
arguments = word (str "x") ∷ word (str "y") ∷ word (str "x") ∷ []

abbrev one_member : Members
one_member = (str "x", tt) ∷ []

one_member-HasUniqueKeys : HasUniqueKeys one_member
unfolding lookup
one_member-HasUniqueKeys = (refl, tt)

abbrev one_field : Table Bytes
one_field = (str "f", str "v") ∷ []

abbrev three : List Bytes
three = str "a" ∷ str "b" ∷ str "c" ∷ []

range_of-pick_example :
    range_of (negsuc 1) (negsuc 0) three
    ≡ pick
        (λ p. is_from (negsuc 1) (length three) p && is_up_to (negsuc 0) (length three) p)
        0
        three
range_of-pick_example = range_of-pick (negsuc 1) (negsuc 0) three

-- HSET of the fields f and g, and of f again
abbrev pairs : List RespValue
pairs =
    word (str "f")
    ∷ word (str "1")
    ∷ word (str "g")
    ∷ word (str "2")
    ∷ word (str "f")
    ∷ word (str "3")
    ∷ []

abbrev hashes : Database
hashes = record {
  entries = (str "k", record { value = hash one_field; expires_at = some 90 }) ∷ [];
}

holds_one_field : HoldsHash (value_of (live 0 (str "k") hashes)) one_field
unfolding live lookup bytes_eq str
holds_one_field = refl

hset_on_lem_example :
    (h' : Table Bytes) × (live 9 (str "k") (hset_on ticking (str "k") pairs hashes).1 ≡ (
      if bytes_eq (str "k") (str "k")
      then some (record { value = hash h'; expires_at = none })
      else live 9 (str "k") hashes))
    × ((field : Bytes) → lookup field h' ≡ last_value field pairs (lookup field one_field))
    × ((hset_on ticking (str "k") pairs hashes).0
        ≡ integer_reply (pos (length h' - length one_field)))
hset_on_lem_example =
    hset_on_lem ticking (str "k") pairs hashes one_field 9 (str "k") holds_one_field (omega arith)
