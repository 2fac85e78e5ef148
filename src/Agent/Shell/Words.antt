-- ===== src/Agent/Shell/Words.antt =====
-- How a POSIX shell splits a command line into words, and that it gives the joined arguments back.
use crystal_forge.Prelude.{
  ℕ, ◌≡◌, refl, sym, ap, ◌∙◌, ==_iff, &&_elim, Bool, true, false, Bool-cases, inl, inr, Option,
  none, some, List, [], ◌∷◌, ◌++◌, ◌||◌, ◌==◌, if◌then◌else◌,
}
use mathlib.Core.Bool.{true≢false}
use mathlib.Core.List.{append-nil}
use crystal_forge.Agent.Shell.{all_bytes, is_common, replace_quotes, shell_quote, shell_join}

-- Between words, in a word, and in the two kinds of quotes.
pub data Mode : Type 0 where
  between in_word in_single in_double : Mode

pub data Action : Type 0 where
  skip emit end_word reject : Action

-- The characters that POSIX 2.2 wants quoted, at any place of a word.
abbrev is_special : ℕ → Bool
is_special c =
    c == 124
    || c == 38
    || c == 59
    || c == 60
    || c == 62
    || c == 40
    || c == 41
    || c == 36
    || c == 96
    || c == 92
    || c == 9
    || c == 10
    || c == 42
    || c == 63
    || c == 91
    || c == 35
    || c == 126
    || c == 61
    || c == 37

-- $, ` and \ keep their meaning between double quotes.
abbrev is_expanded : ℕ → Bool
is_expanded c = c == 36 || c == 96 || c == 92

unfoldable pub next_mode : Mode → ℕ → Mode
next_mode in_single c = if c == 39 then in_word else in_single
next_mode in_double c = if c == 34 then in_word else in_double
next_mode between c =
    if c == 32
    then between
    else if c == 39
    then in_single
    else if c == 34
    then in_double
    else in_word
next_mode in_word c =
    if c == 32
    then between
    else if c == 39
    then in_single
    else if c == 34
    then in_double
    else in_word

unfoldable pub action : Mode → ℕ → Action
action in_single c = if c == 39 then skip else emit
action in_double c = if c == 34 then skip else if is_expanded c then reject else emit
action between c =
    if c == 32 || c == 39 || c == 34 then skip else if is_special c then reject else emit
action in_word c =
    if c == 32
    then end_word
    else if c == 39 || c == 34
    then skip
    else if is_special c
    then reject
    else emit

-- A text in front of the first word.
abbrev pub prepend : List ℕ → Option (List (List ℕ)) → Option (List (List ℕ))
prepend s none = none
prepend s (some []) = none
prepend s (some (w ∷ ws)) = some ((s ++ w) ∷ ws)

abbrev new_word : Option (List (List ℕ)) → Option (List (List ℕ))
new_word none = none
new_word (some ws) = some ([] ∷ ws)

abbrev act : Action → ℕ → Option (List (List ℕ)) → Option (List (List ℕ))
act skip c ws = ws
act emit c ws = prepend (c ∷ []) ws
act end_word c ws = new_word ws
act reject c ws = none

-- The words of the rest of a line; inside a word the first one is what is left of it.
unfoldable pub words : Mode → List ℕ → Option (List (List ℕ))
unfolding next_mode action
words between [] = some []
words in_word [] = some ([] ∷ [])
words in_single [] = none
words in_double [] = none
words m (c ∷ s) = act (action m c) c (words (next_mode m c) s)

common_ne : (n c : ℕ) → is_common n ≡ false → is_common c ≡ true → (c == n) ≡ false
common_ne n c off on = elim (Bool-cases (c == n)) [
  | inl e ↦ absurd (true≢false (sym on ∙ ap is_common ((==_iff c n).0 e) ∙ off))
  | inr e ↦ e
]

module _ (c : ℕ) (h : is_common c ≡ true) where
  common-is_special : is_special c ≡ false
  unfolding is_common
  common-is_special =
      rw
        (
          common_ne 124 c refl h,
          common_ne 38 c refl h,
          common_ne 59 c refl h,
          common_ne 60 c refl h,
          common_ne 62 c refl h,
          common_ne 40 c refl h,
          common_ne 41 c refl h,
          common_ne 36 c refl h,
          common_ne 96 c refl h,
          common_ne 92 c refl h,
          common_ne 9 c refl h,
          common_ne 10 c refl h,
          common_ne 42 c refl h,
          common_ne 63 c refl h,
          common_ne 91 c refl h,
          common_ne 35 c refl h,
          common_ne 126 c refl h,
          common_ne 61 c refl h,
          common_ne 37 c refl h,
        )
        refl

  -- A common byte is read as itself, at the start of a word and in one.
  common_emit :
      (action in_word c ≡ emit)
      × (next_mode in_word c ≡ in_word)
      × (action between c ≡ emit)
      × (next_mode between c ≡ in_word)
  unfolding is_common action next_mode
  common_emit =
      rw (common_ne 32 c refl h, common_ne 39 c refl h, common_ne 34 c refl h, common-is_special)
        (refl, refl, refl, refl)

module _ (rest w : List ℕ) (ws : List (List ℕ)) (follows : words in_word rest ≡ some (w ∷ ws)) where
  words-common :
      (s : List ℕ) → all_bytes is_common s ≡ true → words in_word (s ++ rest) ≡ some ((s ++ w) ∷ ws)
  unfolding words
  words-common [] h = follows
  words-common (c ∷ s) h =
      let (common, others) = &&_elim (is_common c) (all_bytes is_common s) h in
      let (emits, stays, _, _) = common_emit c common in
      rw (emits, stays, words-common s others) refl

  words-replaced :
      (s : List ℕ) → words in_single ((replace_quotes s ++ 39 ∷ []) ++ rest) ≡ some ((s ++ w) ∷ ws)
  unfolding words replace_quotes next_mode action
  words-replaced [] = follows
  words-replaced (c ∷ s) = elim (Bool-cases (c == 39)) [
    | inl quote ↦
        rw (quote, words-replaced s)
          (ap (λ k. some ((k ∷ (s ++ w)) ∷ ws)) (sym ((==_iff c 39).0 quote)))
    | inr other ↦ rw (other, other, words-replaced s) refl
  ]

  -- A quoted argument is read as one word, with what follows.
  words-shell_quote : (s : List ℕ) → words between (shell_quote s ++ rest) ≡ some ((s ++ w) ∷ ws)
  unfolding words shell_quote
  words-shell_quote [] = follows
  words-shell_quote (c ∷ s) = elim (Bool-cases (all_bytes is_common (c ∷ s))) [
    | inl common ↦
        let (first, others) = &&_elim (is_common c) (all_bytes is_common s) common in
        let (_, _, emits, moves) = common_emit c first in
        rw (common, emits, moves, words-common s others) refl
    | inr other ↦ rw other (words-replaced (c ∷ s))
  ]

words-end : words in_word [] ≡ some ([] ∷ [])
unfolding words
words-end = refl

-- Split into words by these rules, the joined arguments give the arguments back, each as one word.
pub words-shell_join : (args : List (List ℕ)) → words between (shell_join args) ≡ some args
unfolding words shell_join
words-shell_join [] = refl
words-shell_join (a ∷ []) =
    sym (ap (words between) (append-nil (shell_quote a)))
    ∙ words-shell_quote [] [] [] words-end a
    ∙ ap (λ x. some (x ∷ [])) (append-nil a)
words-shell_join (a ∷ b ∷ args) =
    words-shell_quote (32 ∷ shell_join (b ∷ args)) [] (b ∷ args)
      (ap new_word (words-shell_join (b ∷ args))) a
    ∙ ap (λ x. some (x ∷ b ∷ args)) (append-nil a)
