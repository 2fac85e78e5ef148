-- ===== src/Prelude/Strings.antt =====
-- Texts as the program builds them: format!, join and contains.
use Prim.Native.String.{String, [] as empty, ◌∷◌ as cons, ◌++◌ as str_append}
use Prim.Native.String.append
use Prim.Native.Char.{Char, code}
use Prim.Native.Nat.{ℕ, suc}
use crystal_forge.Prelude.Tests.{◌==◌ as same_number, if◌then◌else◌}
use mathlib.Core.Path.{◌≡◌, ◌∙◌, refl, sym, ap}
use mathlib.Core.Bool.{Bool, true, ◌||◌}
use mathlib.Core.List.{List, [], ◌∷◌}
use native.Mathlib.Omega.{arith}
use text.Mathlib.Text.{starts_with, ◌==◌ as str_eq}
use text.Mathlib.TextPositions.{starts_with-append, starts_with_of_prefix}
use text.Mathlib.TextEquality.{starts_with_iff}
use text.Mathlib.TextLemmas.{append_assoc}

-- format!: the pieces, one after the other.
abbrev pub concat : List String → String
concat [] = ""
concat (s ∷ rest) = str_append s (concat rest)

-- join: the separator stands between the pieces.
abbrev pub join : String → List String → String
join sep [] = ""
join sep (s ∷ []) = s
join sep (s ∷ t ∷ rest) = str_append s (str_append sep (join sep (t ∷ rest)))

-- s.contains(t)
unfoldable pub str_contains : String → String → Bool
str_contains empty t = starts_with empty t
str_contains (cons c s) t = starts_with (cons c s) t || str_contains s t

starts_with-contains : (s t : String) → starts_with s t ≡ true → str_contains s t ≡ true
unfolding str_contains
starts_with-contains empty t h = h
starts_with-contains (cons c s) t h = ground arith

pub str_contains-append : (s t u : String) → str_contains (str_append s (str_append t u)) t ≡ true
unfolding str_contains
str_contains-append empty t u =
    rw (append.nil (str_append t u))
      (starts_with-contains (str_append t u) t (starts_with-append t u))
str_contains-append (cons c s) t u =
    let rest = str_contains-append s t u in rw (append.cons c s (str_append t u)) (ground arith)

-- A text still begins as before when more is appended.
pub starts_with_more :
    (s t p : String) → starts_with s p ≡ true → starts_with (str_append s t) p ≡ true
starts_with_more s t p h =
    let (u, e) = (starts_with_iff s p).0 h in
    starts_with_of_prefix p (str_append s t)
      (str_append u t, sym (append_assoc p u t) ∙ ap (λ r. str_append r t) e)

starts_with_shorter :
    (s p q : String) → starts_with s (str_append p q) ≡ true → starts_with s p ≡ true
starts_with_shorter s p q h =
    let (u, e) = (starts_with_iff s (str_append p q)).0 h in
    starts_with_of_prefix p s (str_append q u, sym (append_assoc p q u) ∙ e)

-- A text that contains a pattern contains what the pattern begins with.
pub str_contains_shorter :
    (s p q : String) → str_contains s (str_append p q) ≡ true → str_contains s p ≡ true
unfolding str_contains
str_contains_shorter empty p q h = starts_with_shorter empty p q h
str_contains_shorter (cons c s) p q h =
    let here = starts_with_shorter (cons c s) p q in
    let there = str_contains_shorter s p q in ground (arith, h, here, there)

-- s.ends_with(t)
unfoldable pub ends_with : String → String → Bool
ends_with empty t = str_eq empty t
ends_with (cons c s) t = str_eq (cons c s) t || ends_with s t

abbrev other_case : String → String → Char → Char
other_case (cons u us) (cons l ls) c =
    if same_number (code u) (code c) then l else other_case us ls c
other_case _ _ c = c

-- s.to_lowercase(), on the letters of ASCII; other characters stay.
unfoldable pub to_lowercase : String → String
to_lowercase empty = empty
to_lowercase (cons c s) =
    cons (other_case "ABCDEFGHIJKLMNOPQRSTUVWXYZ" "abcdefghijklmnopqrstuvwxyz" c) (to_lowercase s)

pub to_lowercase-append :
    (s t : String) → to_lowercase (str_append s t) ≡ str_append (to_lowercase s) (to_lowercase t)
unfolding to_lowercase
to_lowercase-append empty t = rw (append.nil t) rw (append.nil (to_lowercase t)) refl
to_lowercase-append (cons c s) t = rw (append.cons c s t) (
    rw (to_lowercase-append s t) (
      sym (
        append.cons (other_case "ABCDEFGHIJKLMNOPQRSTUVWXYZ" "abcdefghijklmnopqrstuvwxyz" c)
          (to_lowercase s) (to_lowercase t))))

-- The number of characters.
unfoldable pub char_count : String → ℕ
char_count empty = 0
char_count (cons c s) = suc (char_count s)
