-- ===== src/Examples/Shell.antt =====
-- A command line with a blank and a quote in it.
use crystal_forge.Prelude.{ℕ, ◌≡◌, refl, some, List, [], ◌∷◌}
use crystal_forge.Agent.Shell.{shell_join, shell_quote}
use crystal_forge.Agent.Shell.Words.{words, between, words-shell_join}

-- it's
abbrev quoted : List ℕ
quoted = b'i' ∷ b't' ∷ 39 ∷ b's' ∷ []

-- nix-store
abbrev common : List ℕ
common = b'n' ∷ b'i' ∷ b'x' ∷ b'-' ∷ b's' ∷ []

words-shell_join_example :
    words between (shell_join (common ∷ quoted ∷ [] ∷ [])) ≡ some (common ∷ quoted ∷ [] ∷ [])
words-shell_join_example = words-shell_join (common ∷ quoted ∷ [] ∷ [])

common_as_it_is : shell_quote common ≡ common
unfolding shell_quote
common_as_it_is = refl
