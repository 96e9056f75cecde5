-- ===== src/Redis/Storage/Glob.antt =====
-- crates/redis-protocol/src/storage.rs, `glob_to_regex`. The characters that it tells apart are
-- ASCII, so it works byte by byte on UTF-8.
use roris_db.Prelude.{ℕ, Bool, true, false, ◌||◌, [], ◌∷◌, ◌++◌, ◌≡◌, refl, ◌==◌, if◌then◌else◌}
use roris_db.Bytes.{Bytes, str}

abbrev is_meta : ℕ → Bool
is_meta c =
    c == b'.'
    || c == b'+'
    || c == b'('
    || c == b')'
    || c == b'{'
    || c == b'}'
    || c == b'['
    || c == b']'
    || c == b'^'
    || c == b'$'
    || c == b'|'

-- what one character other than a backslash becomes
unfoldable pub glob_char : ℕ → Bytes
glob_char c =
    if c == b'*'
    then b'.' ∷ b'*' ∷ []
    else if c == b'?'
    then b'.' ∷ []
    else if is_meta c
    then b'\\' ∷ c ∷ []
    else c ∷ []

-- the loop, with `escaped` when the last character was a backslash that escapes the next one
unfoldable pub glob_chars : Bool → Bytes → Bytes
unfolding glob_char
glob_chars true [] = b'\\' ∷ b'\\' ∷ []
glob_chars true (c ∷ s) = b'\\' ∷ c ∷ glob_chars false s
glob_chars false [] = []
glob_chars false (c ∷ s) = elim (c == b'\\') [
  | true ↦ glob_chars true s
  | false ↦ glob_char c ++ glob_chars false s
]

unfoldable pub glob_to_regex : Bytes → Bytes
unfolding glob_chars
glob_to_regex pattern = (b'^' ∷ glob_chars false pattern) ++ b'$' ∷ []

star_dot : glob_to_regex (str "a*.\\*") ≡ str "^a.*\\.\\*$"
unfolding glob_to_regex str
star_dot = refl
