-- ===== src/Evaluation/Flake.antt =====
-- derivations/utils.rs and models/evaluate_with_policies.rs: the references to a flake at a commit.
use mathlib.Core.Path.{subst}
use Prim.Native.String.{◌++◌ as str_append}
use text.Mathlib.Text.{starts_with}
use text.Mathlib.TextPositions.{starts_with-append}
use text.Mathlib.TextLemmas.{append_assoc, append-nil}
use crystal_forge.Prelude.{
  String, true, false, [], ◌∷◌, ◌≡◌, refl, sym, ap, starts_with_more, if◌then◌else◌, concat, inl,
  inr, Bool-cases, str_contains, str_contains-append, str_contains_shorter,
}

unfoldable pub build_flake_reference : String → String → String
build_flake_reference repo_url commit_hash =
    if starts_with repo_url "git+"
    then if str_contains repo_url "?rev="
      then repo_url
      else concat (repo_url ∷ "?rev=" ∷ commit_hash ∷ [])
    else let separator = if str_contains repo_url "?" then "&" else "?" in
      concat ("git+" ∷ repo_url ∷ separator ∷ "rev=" ∷ commit_hash ∷ [])

-- derivations/utils.rs: the reference that nixos-rebuild takes.
unfoldable pub build_agent_target : String → String → String → String
unfolding build_flake_reference
build_agent_target repo_url commit_hash system_name =
    concat (build_flake_reference repo_url commit_hash ∷ "#" ∷ system_name ∷ [])

unfoldable pub build_evaluation_target : String → String → String → String
unfolding build_flake_reference
build_evaluation_target repo_url commit_hash system_name = concat (
    build_flake_reference repo_url commit_hash
    ∷ "#nixosConfigurations."
    ∷ system_name
    ∷ ".config.system.build.toplevel"
    ∷ [])

-- models/evaluate_with_policies.rs has a function of the same name with another answer.
unfoldable pub evaluated_agent_target : String → String → String → String
unfolding build_flake_reference
evaluated_agent_target repo_url commit_hash system_name =
    concat (build_flake_reference repo_url commit_hash ∷ "#nixosConfigurations." ∷ system_name ∷ [])

-- A reference with its revision is left alone.
build_flake_reference-resolved :
    (r other : String)
    → starts_with r "git+" ≡ true
    → str_contains r "?rev=" ≡ true
    → build_flake_reference r other ≡ r
unfolding build_flake_reference
build_flake_reference-resolved r other git rev = rw git rw rev refl

module _ (url hash : String) where
  build_flake_reference-query :
      starts_with url "git+" ≡ false
      → str_contains url "?" ≡ false
      → build_flake_reference url hash
        ≡ str_append "git+" (str_append url (str_append "?rev=" hash))
  unfolding build_flake_reference
  build_flake_reference-query git query =
      rw git rw query rw append-nil
        (ap (λ r. str_append "git+" (str_append url r)) (sym (append_assoc "?" "rev=" hash)))

  build_flake_reference-git :
      starts_with url "git+" ≡ true
      → str_contains url "?rev=" ≡ false
      → build_flake_reference url hash ≡ str_append url (str_append "?rev=" hash)
  unfolding build_flake_reference
  build_flake_reference-git git rev = rw git rw rev rw append-nil refl

  -- The fetcher comes first, and the revision given is named.
  NamesRevision : String → Type 0
  NamesRevision r =
      (starts_with r "git+" ≡ true) × (str_contains r (str_append "?rev=" hash) ≡ true)

  no_revision : str_contains url "?" ≡ false → str_contains url "?rev=" ≡ false
  no_revision query = elim (Bool-cases (str_contains url "?rev=")) [
    | inl rev ↦ (let more = str_contains_shorter url "?" "rev=" rev in cc)
    | inr none ↦ none
  ]

  contains_revision :
      (start : String)
      → str_contains (str_append start (str_append "?rev=" hash)) (str_append "?rev=" hash) ≡ true
  contains_revision start =
      subst (λ r. str_contains (str_append start r) (str_append "?rev=" hash) ≡ true)
        (append-nil (str_append "?rev=" hash))
        (str_contains-append start (str_append "?rev=" hash) "")

  build_flake_reference-NamesRevision :
      str_contains url "?" ≡ false → NamesRevision (build_flake_reference url hash)
  unfolding NamesRevision
  build_flake_reference-NamesRevision query = elim (Bool-cases (starts_with url "git+")) [
    | inl git ↦
        rw (build_flake_reference-git git (no_revision query))
          (starts_with_more url (str_append "?rev=" hash) "git+" git, contains_revision url)
    | inr git ↦ rw (build_flake_reference-query git query) (
      starts_with-append "git+" (str_append url (str_append "?rev=" hash)),
      subst (λ r. str_contains r (str_append "?rev=" hash) ≡ true)
          (append_assoc "git+" url (str_append "?rev=" hash))
          (contains_revision (str_append "git+" url)),
    )
  ]

-- A URL without a query gives a reference that begins with git+, that contains ?rev= followed by
-- the commit hash, and that is its own reference, whatever hash it is then given.
pub build_flake_reference_lem :
    (url hash other : String)
    → str_contains url "?" ≡ false
    → (starts_with (build_flake_reference url hash) "git+" ≡ true)
      × (str_contains (build_flake_reference url hash) (str_append "?rev=" hash) ≡ true)
      × (build_flake_reference (build_flake_reference url hash) other
          ≡ build_flake_reference url hash)
unfolding NamesRevision
build_flake_reference_lem url hash other query =
    let (git, rev) = build_flake_reference-NamesRevision url hash query in
    let named = str_contains_shorter (build_flake_reference url hash) "?rev=" hash rev in
    (git, rev, build_flake_reference-resolved (build_flake_reference url hash) other git named)
