-- ===== src/Evaluation/Jobs/Stranded.antt =====
-- What a failed run of nix-eval-jobs leaves of its commit.
use crystal_forge.Prelude.{
  ℕ, ◌≤◌, ◌≡◌, refl, String, Bool, true, false, Option-cases, inl, inr, Option, none, some, List,
  [], ◌∷◌, ◌++◌, All, Result, ok, err, Error, arith,
}
use crystal_forge.Table.{exists, find}
use crystal_forge.Table.Rows.{exists-find}
use crystal_forge.Table.Keys.{find-key}
use crystal_forge.Derivation.{Derivation, nixos_type}
use crystal_forge.Derivation.Insert.{has_key, insert_derivation_with_target}
use crystal_forge.Derivation.Insert.Kept.{insert_with_target_row}
use crystal_forge.Commits.{
  Commit, pending, commit_has_id, attempts_of, derived_from, awaits_evaluation, started_commit,
  failed_commit, evaluate_commit,
}
use crystal_forge.Commits.Retries.{find-failed}
use crystal_forge.Evaluation.Flake.{evaluated_agent_target}
use crystal_forge.Evaluation.Policy.{DeploymentPolicy, JsonValue}
use crystal_forge.Evaluation.Jobs.{
  NixEvalJobResult, Line, io_error, logged, evaluated, Progress, last, after_insert, insert_result,
  read_result, read_lines, no_progress, conclude, evaluate_with_nix_eval_jobs, enabled_of, check_of,
  server_policies, process_pending_commit, forget, text_of,
}

-- The line is not an error of a pipe.
abbrev pub is_read : {J : Type 0} → Line J → Bool
is_read (io_error e) = false
is_read _ = true

module _ {J : Type 0} (json : JsonValue J) (commit : Commit) (repo_url : String)
    (target_system : String) (policies : List DeploymentPolicy) (now : ℕ) where
  abbrev HasRow : Progress J → Type 0
  HasRow p = exists (derived_from commit.id) p.derivations ≡ true

  after_insert-HasRow :
      (r : NixEvalJobResult J) (ds : List Derivation) (a : Result Derivation) (p : Progress J)
      → exists (derived_from commit.id) ds ≡ true
      → HasRow (after_insert r (ds, a) p)
  after_insert-HasRow r ds (ok d) p h = h
  after_insert-HasRow r ds (err x) p h = h

  insert_gives_row :
      (id : ℕ) (s : String) (t : Option String) (a : Option Bool) (ds : List Derivation)
      → exists
          (derived_from commit.id)
          (insert_derivation_with_target id (some commit.id) s nixos_type t a now ds).0
        ≡ true
  unfolding has_key
  insert_gives_row id s t a ds =
      let (d, answer, found) = insert_with_target_row id (some commit.id) s nixos_type t a now ds in
      exists-find (has_key (some commit.id) s nixos_type) (derived_from commit.id) _ d found
        λ h. ground arith

  insert_result-HasRow :
      (r : NixEvalJobResult J) (a : Option Bool) (p : Progress J)
      → HasRow p
      → HasRow (insert_result json commit repo_url target_system policies now r a p)
  unfolding insert_result
  insert_result-HasRow r a p h = elim (Option-cases (last r.attr_path)) [
    | inl e ↦ rw (e, insert_result) h
    | inr (s, e) ↦
        rw (e, insert_result)
          (after_insert-HasRow r _ _ p (
            insert_gives_row p.next_id s
              (some (evaluated_agent_target repo_url commit.git_commit_hash s)) a p.derivations))
  ]

  insert_result_gives :
      (r : NixEvalJobResult J) (a : Option Bool) (name : String) (p : Progress J)
      → last r.attr_path ≡ some name
      → HasRow (insert_result json commit repo_url target_system policies now r a p)
  unfolding insert_result
  insert_result_gives r a name p named =
      rw (named, insert_result)
        (after_insert-HasRow r _ _ p (
          insert_gives_row p.next_id name
            (some (evaluated_agent_target repo_url commit.git_commit_hash name)) a p.derivations))

  read_lines-HasRow :
      (lines : List (Line J)) (p : Progress J)
      → HasRow p
      → HasRow (read_lines json commit repo_url target_system policies now lines p).0
  unfolding read_lines read_result
  read_lines-HasRow [] p h = h
  read_lines-HasRow (io_error e ∷ lines) p h = h
  read_lines-HasRow (logged ∷ lines) p h = read_lines-HasRow lines p h
  read_lines-HasRow (evaluated r ∷ lines) p h =
      read_lines-HasRow lines (read_result json commit repo_url target_system policies now r p)
        (insert_result-HasRow r (enabled_of (check_of json policies r)) p h)

  read_lines_gives :
      (before after : List (Line J)) (r : NixEvalJobResult J) (name : String) (p : Progress J)
      → All (λ l. is_read l ≡ true) before
      → last r.attr_path ≡ some name
      → HasRow
          (read_lines json commit repo_url target_system policies now
            (before ++ evaluated r ∷ after)
            p).0
  unfolding read_lines read_result
  read_lines_gives [] after r name p read named =
      read_lines-HasRow after (read_result json commit repo_url target_system policies now r p)
        (insert_result_gives r (enabled_of (check_of json policies r)) name p named)
  read_lines_gives (io_error e ∷ before) after r name p read named = cc
  read_lines_gives (logged ∷ before) after r name p read named =
      read_lines_gives before after r name p read.1 named
  read_lines_gives (evaluated s ∷ before) after r name p read named =
      read_lines_gives before after r name
        (read_result json commit repo_url target_system policies now s p) read.1 named

  -- A run that fails leaves the rows that it inserted.
  conclude_err :
      (success : Bool) (later : ℕ) (p : Progress J) (o : Option String) (e : Error)
      → (conclude target_system policies success later (p, o)).1 ≡ err e
      → (conclude target_system policies success later (p, o)).0 ≡ p.derivations
  unfolding conclude
  conclude_err success later p (some x) e h = refl
  conclude_err success later p none e h = ground arith

never_awaited :
    (ds : List Derivation) (t : ℕ) (c : Commit)
    → exists (derived_from c.id) ds ≡ true
    → awaits_evaluation ds t c ≡ false
unfolding awaits_evaluation
never_awaited ds t c h = rw h refl

abbrev commit_id : Commit → ℕ
commit_id c = c.id

failed_run :
    {A : Type 0} (i : ℕ) (c : Commit) (error : String) (now later : ℕ) (cs : List Commit)
    (a : Result A) (e : Error)
    → a ≡ err e
    → find (commit_has_id i) cs ≡ some c
    → find (commit_has_id i) (evaluate_commit i (forget a) error now later cs)
      ≡ some (failed_commit error (started_commit now c))
failed_run i c error now later cs a e h found = rw h (find-failed [] i c error now later cs e found)

failed_lem :
    (error : String) (now : ℕ) (c : Commit)
    → attempts_of c ≤ 3
    → ((failed_commit error (started_commit now c)).evaluation_status ≡ pending)
      × (attempts_of (failed_commit error (started_commit now c)) ≤ 4)
      × ((failed_commit error (started_commit now c)).id ≡ c.id)
unfolding failed_commit started_commit
failed_lem error now c few = (ground arith, omega (arith, few), refl)

-- A failed evaluation that has inserted a row of its commit, with no error of a pipe before it, leaves
-- a commit of at most three attempts pending with attempts left, and the commit is not awaited
-- again at any time while the rows are there.
pub failed_evaluation_strands :
    {J : Type 0} (json : JsonValue J) (commit : Commit) (repo_url : String)
    (before after : List (Line J)) (r : NixEvalJobResult J) (name : String) (success : Bool)
    (now later next_id : ℕ) (ds : List Derivation) (cs : List Commit) (c : Commit) (e : Error)
    → All (λ l. is_read l ≡ true) before
    → last r.attr_path ≡ some name
    → (evaluate_with_nix_eval_jobs json commit repo_url "all" server_policies now
        (before ++ evaluated r ∷ after)
        success
        later
        next_id
        ds).1
      ≡ err e
    → find (commit_has_id commit.id) cs ≡ some c
    → attempts_of c ≤ 3
    → let end =
        process_pending_commit json commit repo_url
          (before ++ evaluated r ∷ after)
          success
          now
          later
          next_id
          ds
          cs in
      (c' : Commit) × (find (commit_has_id commit.id) end.1 ≡ some c')
      × (c'.evaluation_status ≡ pending)
      × (attempts_of c' ≤ 4)
      × ((t : ℕ) → awaits_evaluation end.0 t c' ≡ false)
unfolding process_pending_commit evaluate_with_nix_eval_jobs
failed_evaluation_strands json commit repo_url before after r name success now later next_id ds cs c
      e read named failed found few =
    let lines = before ++ evaluated r ∷ after in
    let p =
      read_lines json commit repo_url "all" server_policies now lines (no_progress ds next_id) in
    let kept =
      conclude_err json commit repo_url "all" server_policies now success later p.0 p.1 e failed in
    let row =
      read_lines_gives json commit repo_url "all" server_policies now before after r name
        (no_progress ds next_id) read named in
    let same = find-key commit_id commit.id cs c found in
    let error =
      text_of
        (evaluate_with_nix_eval_jobs json commit repo_url "all" server_policies now lines success
          later next_id ds).1 in
    let (status, attempts, id) = failed_lem error now c few in
    (
      failed_commit error (started_commit now c),
      failed_run commit.id c error now later cs _ e failed found,
      status,
      attempts,
      λ t.
          never_awaited _ t (failed_commit error (started_commit now c))
            (rw kept rw id rw same row),
    )
