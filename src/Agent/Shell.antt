-- ===== src/Agent/Shell.antt =====
-- deployment/agent.rs: `shell_quote` and `shell_join`, by which a command is passed to a shell.
-- Texts are lists of bytes.
pub mod Words
use crystal_forge.Prelude.{
  ℕ, Bool, true, false, List, [], ◌∷◌, ◌++◌, ◌&&◌, ◌||◌, ◌==◌, leb, if◌then◌else◌,
}

abbrev pub all_bytes : (ℕ → Bool) → List ℕ → Bool
all_bytes p [] = true
all_bytes p (c ∷ s) = p c && all_bytes p s

abbrev is_ascii_alphanumeric : ℕ → Bool
is_ascii_alphanumeric c =
    (leb b'0' c && leb c b'9') || (leb b'A' c && leb c b'Z') || (leb b'a' c && leb c b'z')

-- b"-_./:@"
unfoldable pub is_common : ℕ → Bool
is_common c =
    is_ascii_alphanumeric c
    || c == b'-'
    || c == b'_'
    || c == b'.'
    || c == b'/'
    || c == b':'
    || c == b'@'

-- s.replace('\'', "'\"'\"'"): a quote becomes '"'"'.
unfoldable pub replace_quotes : List ℕ → List ℕ
replace_quotes [] = []
replace_quotes (c ∷ s) =
    let rest = replace_quotes s in if c == 39 then 39 ∷ 34 ∷ 39 ∷ 34 ∷ 39 ∷ rest else c ∷ rest

unfoldable pub shell_quote : List ℕ → List ℕ
unfolding is_common replace_quotes
shell_quote [] = 39 ∷ 39 ∷ []
shell_quote (c ∷ s) =
    if all_bytes is_common (c ∷ s) then c ∷ s else 39 ∷ (replace_quotes (c ∷ s) ++ 39 ∷ [])

unfoldable pub shell_join : List (List ℕ) → List ℕ
unfolding shell_quote
shell_join [] = []
shell_join (a ∷ []) = shell_quote a
shell_join (a ∷ b ∷ args) = shell_quote a ++ 32 ∷ shell_join (b ∷ args)
